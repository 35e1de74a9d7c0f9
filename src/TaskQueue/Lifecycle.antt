-- ===== src/TaskQueue/Lifecycle.antt =====
-- The life of a task under the operations of amos-harness/src/task_queue/mod.rs.
use amos_platform.Prelude.{
  ℕ, pos, refl, ◌≡◌, Bool, true, false, if◌then◌else◌, Option, none, some, List, [], ◌∷◌, find,
  update_where, update_where-none, find-append, ◌==◌, ==_refl, String, arith,
}
use amos_platform.Prelude.Values.{Json, object, empty}
use amos_platform.Error.{AmosError, ok, err}
use amos_platform.Database.{Session, Action, refusal, later, ◌>>◌, pure}
use amos_platform.TaskQueue.Types.{
  TaskStatus, Task, CreateTaskParams, parse_status, MessageDirection, MessageType,
}
use amos_platform.TaskQueue.Rows.{stored_time, TaskRow, Tables, into_task}
use amos_platform.TaskQueue.Queue.{
  new_row, new_task, create_task, get_task, update_task_status, cancel_task, with_status,
  claim_bounty, claimed_by, task_not_found, map_option,
}
use amos_platform.TaskQueue.Messages.{post_message, acknowledge_messages}
use amos_platform.TaskQueue.Claims.{is_claimable}
use amos_platform.TaskQueue.Codes.{category_read, status_read}

-- A task as its row is read back: the columns keep the microseconds of its times.
abbrev pub with_stored_times : Task → Task
with_stored_times t = record t {
  deadline_at = map_option stored_time t.deadline_at;
  created_at = stored_time t.created_at;
  updated_at = stored_time t.updated_at;
}

new_row_read :
    (id now : ℕ) (p : CreateTaskParams)
    → into_task (new_row id (stored_time now) p) ≡ with_stored_times (new_task id now p)
unfolding into_task
new_row_read id now p = ground (arith, category_read p.category, status_read TaskStatus.pending)

-- What a task that was created under an id at a time is.
pub record IsCreated (p : CreateTaskParams) (id now : ℕ) (t : Task) : Type 0 where
  pub under : t.id ≡ id
  pub title : t.title ≡ p.title
  pub description : t.description ≡ p.description
  pub context : t.context ≡ elim p.context [ none ↦ object empty | some v ↦ v ]
  pub category : t.category ≡ p.category
  pub task_type : t.task_type ≡ p.task_type
  pub priority : t.priority ≡ elim p.priority [ none ↦ pos 5 | some n ↦ n ]
  pub is_pending : t.status ≡ TaskStatus.pending
  pub nobody : t.assigned_to ≡ none
  pub session : t.session_id ≡ p.session_id
  pub parent : t.parent_task_id ≡ p.parent_task_id
  pub unfinished : (t.result ≡ none) × (t.error_message ≡ none)
  pub reward : t.reward_tokens ≡ elim p.reward_tokens [ none ↦ pos 0 | some n ↦ n ]
  pub unclaimed : t.reward_claimed ≡ false
  pub deadline : t.deadline_at ≡ p.deadline_at
  pub since : (t.created_at ≡ now) × (t.updated_at ≡ now)
  pub unstamped : (t.assigned_at ≡ none) × (t.started_at ≡ none) × (t.completed_at ≡ none)

new_task-IsCreated : (p : CreateTaskParams) (id now : ℕ) → IsCreated p id now (new_task id now p)
new_task-IsCreated p id now = record {
  under = refl;
  title = refl;
  description = refl;
  context = ground arith;
  category = refl;
  task_type = refl;
  priority = ground arith;
  is_pending = refl;
  nobody = refl;
  session = refl;
  parent = refl;
  unfinished = (refl, refl);
  reward = ground arith;
  unclaimed = refl;
  deadline = refl;
  since = (refl, refl);
  unstamped = (refl, refl, refl);
}

-- A task that is created under an id that no task has, with no refusal, is answered as given, with
-- an empty context, the priority 5 and no reward where none is given, pending, unassigned, and
-- created now; and `get_task` reads back the task that was answered, but for its deadline and its
-- times of creation and update, of which the microseconds are kept.
pub create-get :
    (p : CreateTaskParams) (s : Session Tables)
    → find (λ r. r.id == s.uuids s.drawn) s.tables.tasks ≡ none
    → refusal s.faults ≡ none
    → refusal (later s.faults) ≡ none
    → (t : Task) × ((create_task p s).0 ≡ ok t)
      × IsCreated p (s.uuids s.drawn) s.now t
      × ((get_task (s.uuids s.drawn) (create_task p s).1).0 ≡ ok (with_stored_times t))
unfolding create_task get_task
create-get p s fresh quiet quiet' = (
  new_task (s.uuids s.drawn) s.now p,
  ground arith,
  new_task-IsCreated p (s.uuids s.drawn) s.now,
  ground (
    arith,
    new_row_read (s.uuids s.drawn) s.now p,
    find-append (λ r. r.id == s.uuids s.drawn) s.tables.tasks
        (new_row (s.uuids s.drawn) (stored_time s.now) p ∷ []) fresh,
    ==_refl (s.uuids s.drawn),
  ),
)

abbrev has_id : ℕ → TaskRow → Bool
has_id id r = r.id == id

-- The statuses that end a task.
abbrev is_final : TaskStatus → Bool
is_final TaskStatus.pending = false
is_final TaskStatus.assigned = false
is_final TaskStatus.running = false
is_final _ = true

abbrev is_assigned : TaskStatus → Bool
is_assigned TaskStatus.assigned = true
is_assigned _ = false

abbrev is_running : TaskStatus → Bool
is_running TaskStatus.running = true
is_running _ = false

-- What an update to a status, with a result and an error text or none, makes of a row at a time.
pub record IsUpdated (st : TaskStatus) (result : Option Json) (text : Option String) (now : ℕ)
    (before after : TaskRow) : Type 0 where
  pub status_set : parse_status after.status ≡ some st
  pub result_set : after.result ≡ elim result [ none ↦ before.result | some v ↦ some v ]
  pub error_set : after.error_message ≡ elim text [ none ↦ before.error_message | some e ↦ some e ]
  pub updated_set : after.updated_at ≡ now
  pub assigned_set : after.assigned_at ≡ (if is_assigned st then some now else before.assigned_at)
  pub started_set : after.started_at ≡ (if is_running st then some now else before.started_at)
  pub completed_set : after.completed_at ≡ (if is_final st then some now else before.completed_at)
  pub kept : after ≡ record before {
    status = after.status;
    result = after.result;
    error_message = after.error_message;
    updated_at = after.updated_at;
    assigned_at = after.assigned_at;
    started_at = after.started_at;
    completed_at = after.completed_at;
  }

with_status-IsUpdated :
    (st : TaskStatus) (result : Option Json) (text : Option String) (now : ℕ) (r : TaskRow)
    → IsUpdated st result text now r (with_status st result text now r)
with_status-IsUpdated st result text now r = record {
  status_set = ground (arith, status_read st);
  result_set = ground arith;
  error_set = ground arith;
  updated_set = ground arith;
  assigned_set = ground arith;
  started_set = ground arith;
  completed_set = ground arith;
  kept = ground arith;
}

-- What `update_task_status` does to the rows of the id, of which it answers the first: the status is
-- set whatever it was, a result or an error text that is given replaces the old one, the timestamp of
-- the new status is set (of a completion, a failure and a cancellation that of the end), and nothing
-- else of the rows changes.
pub update_found :
    (id : ℕ) (st : TaskStatus) (result : Option Json) (text : Option String) (s : Session Tables)
    (r : TaskRow)
    → refusal s.faults ≡ none
    → find (has_id id) s.tables.tasks ≡ some r
    → (change : TaskRow → TaskRow) × ((x : TaskRow)
        → IsUpdated st result text (stored_time s.now) x (change x))
      × ((update_task_status id st result text s).0 ≡ ok (into_task (change r)))
      × ((update_task_status id st result text s).1.tables.tasks
          ≡ update_where (has_id id) change s.tables.tasks)
unfolding update_task_status
update_found id st result text s r quiet found = (
  with_status st result text (stored_time s.now),
  λ x. with_status-IsUpdated st result text (stored_time s.now) x,
  ground arith,
  ground arith,
)

-- Without a task of that id it is an error, and no table changes.
pub update_missing :
    (id : ℕ) (st : TaskStatus) (result : Option Json) (text : Option String) (s : Session Tables)
    → refusal s.faults ≡ none
    → find (has_id id) s.tables.tasks ≡ none
    → ((update_task_status id st result text s).0 ≡ err (task_not_found id))
      × ((update_task_status id st result text s).1.tables.tasks ≡ s.tables.tasks)
unfolding update_task_status
update_missing id st result text s quiet missing = ground (
  arith,
  update_where-none (has_id id) (with_status st result text (stored_time s.now)) s.tables.tasks
      missing,
)

-- The operations that write, as requests.
pub data Request : Type 0 where
  create : CreateTaskParams → Request
  update : ℕ → TaskStatus → Option Json → Option String → Request
  cancel : ℕ → Request
  claim : ℕ → ℕ → Request
  post : ℕ → MessageDirection → MessageType → Json → Request
  acknowledge : List ℕ → Request

unfoldable pub handle : Request → Action Tables (Unit {0})
handle (create p) = create_task p >> pure tt
handle (update id st result text) = update_task_status id st result text >> pure tt
handle (cancel id) = cancel_task id >> pure tt
handle (claim id agent) = claim_bounty id agent >> pure tt
handle (post id direction kind content) = post_message id direction kind content >> pure tt
handle (acknowledge ids) = acknowledge_messages ids

-- A request that ends in an error has changed no table and sent no notification.
pub handle_error_unchanged :
    (q : Request) (s : Session Tables) (e : AmosError)
    → (handle q s).0 ≡ err e
    → (handle q s).1.tables ≡ s.tables
unfolding handle create_task update_task_status cancel_task claim_bounty post_message
    acknowledge_messages
handle_error_unchanged (create p) s e h = ground arith
handle_error_unchanged (update id st result text) s e h = ground (
  arith,
  update_where-none (has_id id) (with_status st result text (stored_time s.now)) s.tables.tasks,
)
handle_error_unchanged (cancel id) s e h = ground (
  arith,
  update_where-none (has_id id) (with_status TaskStatus.cancelled none none (stored_time s.now))
      s.tables.tasks,
)
handle_error_unchanged (claim id agent) s e h = ground (
  arith,
  update_where-none (is_claimable id) (claimed_by agent (stored_time s.now)) s.tables.tasks,
)
handle_error_unchanged (post id direction kind content) s e h = ground arith
handle_error_unchanged (acknowledge []) s e h = ground arith
handle_error_unchanged (acknowledge (i ∷ ids)) s e h = ground arith
