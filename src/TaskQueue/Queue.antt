-- ===== src/TaskQueue/Queue.antt =====
-- The operations on tasks and bounties of `TaskQueue` in amos-harness/src/task_queue/mod.rs. Each
-- statement is the function on the table that its SQL text says; rows of equal order keep the order
-- of the table.
use amos_platform.Prelude.{
  ℕ, Bool, true, false, not, ◌&&◌, ◌||◌, String, Option, none, some, List, [], ◌∷◌, ◌++◌, map,
  unwrap_or, str_eq, filter, update_where, find, take, sort_by, leb, ◌==◌, if◌then◌else◌, pos,
  ltb_ℤ, number, literal,
}
use amos_platform.Prelude.Values.{Json, object, empty}
use amos_platform.Error.{AmosError, not_found, validation}
use amos_platform.Database.{Action, ◌>>=◌, ◌>>◌, pure, or_raise, utc_now, new_v4, execute, fetch}
use amos_platform.TaskQueue.Types.{TaskStatus, Task, CreateTaskParams, category_str, status_str}
use amos_platform.TaskQueue.Rows.{TaskRow, Tables, into_task, stored_time}

-- `column = $n` on a nullable column.
abbrev pub is_some_of : ℕ → Option ℕ → Bool
is_some_of k none = false
is_some_of k (some j) = j == k

abbrev pub map_option {ℓ κ} : {A : Type ℓ} {B : Type κ} → (A → B) → Option A → Option B
map_option f none = none
map_option f (some a) = some (f a)

-- `UPDATE tasks … RETURNING *`, read by `fetch_optional`: the first changed row.
abbrev pub update_tasks : (TaskRow → Bool) → (TaskRow → TaskRow) → Tables → Option TaskRow × Tables
update_tasks p f t = (map_option f (find p t.tasks), record t { tasks = update_where p f t.tasks })

-- `ORDER BY priority ASC, created_at …`
abbrev pub by_priority : (ℕ → ℕ → Bool) → TaskRow → TaskRow → Bool
by_priority times a b =
    if ltb_ℤ a.priority b.priority
    then true
    else if ltb_ℤ b.priority a.priority
    then false
    else times a.created_at b.created_at

abbrev pub oldest_first : TaskRow → TaskRow → Bool
oldest_first = by_priority leb

abbrev pub newest_first : TaskRow → TaskRow → Bool
newest_first = by_priority (λ a b. leb b a)

-- The row that `create_task` inserts, at the time that a column keeps; the columns that it does not
-- name have their defaults.
abbrev pub new_row : ℕ → ℕ → CreateTaskParams → TaskRow
new_row id now params = record {
  id = id;
  title = params.title;
  description = params.description;
  context = unwrap_or params.context (object empty);
  category = category_str params.category;
  task_type = params.task_type;
  priority = unwrap_or params.priority (pos 5);
  status = status_str TaskStatus.pending;
  assigned_to = none;
  session_id = params.session_id;
  parent_task_id = params.parent_task_id;
  result = none;
  error_message = none;
  reward_tokens = unwrap_or params.reward_tokens (pos 0);
  reward_claimed = false;
  deadline_at = map_option stored_time params.deadline_at;
  created_at = now;
  updated_at = now;
  assigned_at = none;
  started_at = none;
  completed_at = none;
}

-- The task that `create_task` answers, built from the parameters and not from the row.
abbrev pub new_task : ℕ → ℕ → CreateTaskParams → Task
new_task id now params = record {
  id = id;
  title = params.title;
  description = params.description;
  context = unwrap_or params.context (object empty);
  category = params.category;
  task_type = params.task_type;
  priority = unwrap_or params.priority (pos 5);
  status = TaskStatus.pending;
  assigned_to = none;
  session_id = params.session_id;
  parent_task_id = params.parent_task_id;
  result = none;
  error_message = none;
  reward_tokens = unwrap_or params.reward_tokens (pos 0);
  reward_claimed = false;
  deadline_at = params.deadline_at;
  created_at = now;
  updated_at = now;
  assigned_at = none;
  started_at = none;
  completed_at = none;
}

unfoldable pub create_task : CreateTaskParams → Action Tables Task
create_task params = do
  id ← new_v4
  now ← utc_now
  execute {A = Unit {0}} "Failed to create task: "
      (λ t. (tt, record t { tasks = t.tasks ++ new_row id (stored_time now) params ∷ [] }))
  pure (new_task id now params)

abbrev pub task_not_found : ℕ → AmosError
task_not_found id = not_found (literal "Task") (number id ∷ [])

unfoldable pub get_task : ℕ → Action Tables Task
get_task task_id = do
  found ← fetch "Failed to fetch task: " (λ t. find (λ r. r.id == task_id) t.tasks)
  row ← or_raise found (task_not_found task_id)
  pure (into_task row)

abbrev pub session_matches : Option ℕ → TaskRow → Bool
session_matches none r = true
session_matches (some sid) r = is_some_of sid r.session_id

abbrev pub status_matches : Option TaskStatus → TaskRow → Bool
status_matches none r = true
status_matches (some s) r = str_eq r.status (status_str s)

abbrev pub limited {ℓ} : {A : Type ℓ} → Option ℕ → List A → List A
limited none rows = rows
limited (some n) rows = take n rows

unfoldable pub list_tasks : Option ℕ → Option TaskStatus → Option ℕ → Action Tables (List Task)
list_tasks session_id status_filter limit = do
  rows ← fetch "Failed to list tasks: " (λ t. limited limit (
      sort_by newest_first
        (filter (λ r. session_matches session_id r && status_matches status_filter r) t.tasks)))
  pure (map into_task rows)

-- `COALESCE($n, column)`
abbrev pub coalesce {ℓ} : {A : Type ℓ} → Option A → Option A → Option A
coalesce none old = old
coalesce (some a) old = some a

-- The timestamp clause of a new status.
abbrev pub stamp : TaskStatus → ℕ → TaskRow → TaskRow
stamp TaskStatus.assigned now r = record r { assigned_at = some now }
stamp TaskStatus.running now r = record r { started_at = some now }
stamp TaskStatus.completed now r = record r { completed_at = some now }
stamp TaskStatus.failed now r = record r { completed_at = some now }
stamp TaskStatus.cancelled now r = record r { completed_at = some now }
stamp TaskStatus.pending now r = r

abbrev pub with_status : TaskStatus → Option Json → Option String → ℕ → TaskRow → TaskRow
with_status new_status result error_message now r = stamp new_status now (record r {
  status = status_str new_status;
  result = coalesce result r.result;
  error_message = coalesce error_message r.error_message;
  updated_at = now;
})

unfoldable pub update_task_status :
    ℕ → TaskStatus → Option Json → Option String → Action Tables Task
update_task_status task_id new_status result error_message = do
  now ← utc_now
  updated ← execute "Failed to update task: " (
      update_tasks (λ r. r.id == task_id)
        (with_status new_status result error_message (stored_time now)))
  row ← or_raise updated (task_not_found task_id)
  pure (into_task row)

unfoldable pub cancel_task : ℕ → Action Tables Task
unfolding update_task_status
cancel_task task_id = update_task_status task_id TaskStatus.cancelled none none

abbrev pub is_active : TaskRow → Bool
is_active r =
    not (str_eq r.status "completed" || str_eq r.status "failed" || str_eq r.status "cancelled")

unfoldable pub active_tasks_for_session : ℕ → Action Tables (List Task)
active_tasks_for_session session_id = do
  rows ← fetch "Failed to fetch active tasks: " (λ t. take 200 (
      sort_by oldest_first
        (filter (λ r. is_some_of session_id r.session_id && is_active r) t.tasks)))
  pure (map into_task rows)

abbrev pub is_open_bounty : TaskRow → Bool
is_open_bounty r = str_eq r.category "external" && str_eq r.status "pending"

unfoldable pub available_bounties : Option ℕ → Action Tables (List Task)
available_bounties limit = do
  rows ←
      fetch "Failed to list bounties: "
        (λ t. take (unwrap_or limit 50) (sort_by oldest_first (filter is_open_bounty t.tasks)))
  pure (map into_task rows)

abbrev pub claimed_by : ℕ → ℕ → TaskRow → TaskRow
claimed_by agent_id now r = record r {
  status = "assigned";
  assigned_to = some agent_id;
  assigned_at = some now;
  updated_at = now;
}

abbrev pub not_available : AmosError
not_available =
    validation (literal "Bounty is not available (already claimed or not external/pending)")

unfoldable pub claim_bounty : ℕ → ℕ → Action Tables Task
claim_bounty task_id agent_id = do
  now ← utc_now
  updated ← execute "Failed to claim bounty: " (
      update_tasks (λ r. r.id == task_id && is_open_bounty r)
        (claimed_by agent_id (stored_time now)))
  row ← or_raise updated not_available
  pure (into_task row)
