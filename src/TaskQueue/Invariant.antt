-- ===== src/TaskQueue/Invariant.antt =====
-- What holds of every task row after any requests to amos-harness/src/task_queue/mod.rs.
use amos_platform.Prelude.{
  ℕ, ◌+◌, ◌==◌, sym, ◌⊎◌, ◌≤◌, ◌≡◌, refl, Bool, true, false, Option, none, some, List, [], ◌∷◌,
  ◌++◌, All, All-append, All-update_where, All-map, update_where, arith, String, inl, inr,
}
use amos_platform.Prelude.Values.{Json}
use mathlib.Core.Path.{subst}
use amos_platform.Database.{Session}
use amos_platform.TaskQueue.Types.{
  TaskStatus, TaskCategory, CreateTaskParams, status_str, category_str,
}
use amos_platform.TaskQueue.Rows.{stored_time, TaskRow, Tables, into_task}
use amos_platform.TaskQueue.Queue.{
  new_row, create_task, update_task_status, cancel_task, with_status, claim_bounty, claimed_by,
}
use amos_platform.TaskQueue.Messages.{post_message, acknowledge_messages}
use amos_platform.TaskQueue.Claims.{is_claimable}
use amos_platform.TaskQueue.Codes.{status_read, category_read}
use amos_platform.TaskQueue.Lifecycle.{
  Request, create, update, cancel, claim, post, acknowledge, handle,
}

abbrev pub is_set {ℓ} : {A : Type ℓ} → Option A → Bool
is_set none = false
is_set (some _) = true

-- The timestamp that a status asks for.
abbrev pub is_stamped : TaskStatus → TaskRow → Bool
is_stamped TaskStatus.pending r = true
is_stamped TaskStatus.assigned r = is_set r.assigned_at
is_stamped TaskStatus.running r = is_set r.started_at
is_stamped TaskStatus.completed r = is_set r.completed_at
is_stamped TaskStatus.failed r = is_set r.completed_at
is_stamped TaskStatus.cancelled r = is_set r.completed_at

-- The texts of a row are those of a status and a category, its status has its timestamp, and its
-- times are in order.
pub record IsRecorded (now : ℕ) (r : TaskRow) : Type 0 where
  pub status_of : TaskStatus
  pub category_of : TaskCategory
  pub status_text : r.status ≡ status_str status_of
  pub category_text : r.category ≡ category_str category_of
  pub stamped : is_stamped status_of r ≡ true
  pub ordered : r.created_at ≤ r.updated_at
  pub past : r.updated_at ≤ now

abbrev pub AllRecorded : Session Tables → Type 0
AllRecorded s = All (IsRecorded (stored_time s.now)) s.tables.tasks

new_row-IsRecorded : (id now : ℕ) (p : CreateTaskParams) → IsRecorded now (new_row id now p)
new_row-IsRecorded id now p = record {
  status_of = TaskStatus.pending;
  category_of = p.category;
  status_text = refl;
  category_text = refl;
  stamped = refl;
  ordered = omega arith;
  past = omega arith;
}

with_status-IsRecorded :
    (st : TaskStatus) (result : Option Json) (text : Option String) (now : ℕ) (r : TaskRow)
    → IsRecorded now r
    → IsRecorded now (with_status st result text now r)
with_status-IsRecorded st result text now r h = record {
  status_of = st;
  category_of = h.category_of;
  status_text = ground arith;
  category_text = ground arith;
  stamped = ground arith;
  ordered = ground arith;
  past = ground arith;
}

claimed_by-IsRecorded :
    (agent now : ℕ) (r : TaskRow) → IsRecorded now r → IsRecorded now (claimed_by agent now r)
unfolding status_str
claimed_by-IsRecorded agent now r h = record {
  status_of = TaskStatus.assigned;
  category_of = h.category_of;
  status_text = refl;
  category_text = h.category_text;
  stamped = refl;
  ordered = omega arith;
  past = omega arith;
}

-- The tasks after the request's statement, where the database takes it.
abbrev changed : Request → Session Tables → List TaskRow
changed (create p) s = s.tables.tasks ++ new_row (s.uuids s.drawn) (stored_time s.now) p ∷ []
changed (update id st result text) s =
    update_where (λ r. r.id == id) (with_status st result text (stored_time s.now)) s.tables.tasks
changed (cancel id) s =
    update_where (λ r. r.id == id) (with_status TaskStatus.cancelled none none (stored_time s.now))
      s.tables.tasks
changed (claim id agent) s =
    update_where (is_claimable id) (claimed_by agent (stored_time s.now)) s.tables.tasks
changed (post id direction kind content) s = s.tables.tasks
changed (acknowledge ids) s = s.tables.tasks

-- A request makes its change or none, and the clock stands while it runs.
handle_cases :
    (q : Request) (s : Session Tables)
    → (((handle q s).1.tables.tasks ≡ s.tables.tasks) ⊎ ((handle q s).1.tables.tasks ≡ changed q s))
      × ((handle q s).1.now ≡ s.now)
unfolding handle create_task update_task_status cancel_task claim_bounty post_message
    acknowledge_messages
handle_cases (create p) s = ground arith
handle_cases (update id st result text) s = ground arith
handle_cases (cancel id) s = ground arith
handle_cases (claim id agent) s = ground arith
handle_cases (post id direction kind content) s = ground arith
handle_cases (acknowledge []) s = ground arith
handle_cases (acknowledge (i ∷ ids)) s = ground arith

changed-AllRecorded :
    (q : Request) (s : Session Tables)
    → AllRecorded s
    → All (IsRecorded (stored_time s.now)) (changed q s)
changed-AllRecorded (create p) s h =
    All-append (IsRecorded (stored_time s.now)) s.tables.tasks
      (new_row (s.uuids s.drawn) (stored_time s.now) p ∷ []) h
      (new_row-IsRecorded (s.uuids s.drawn) (stored_time s.now) p, tt)
changed-AllRecorded (update id st result text) s h =
    All-update_where (IsRecorded (stored_time s.now)) (λ r. r.id == id)
      (with_status st result text (stored_time s.now)) s.tables.tasks
      (with_status-IsRecorded st result text (stored_time s.now)) h
changed-AllRecorded (cancel id) s h =
    All-update_where (IsRecorded (stored_time s.now)) (λ r. r.id == id)
      (with_status TaskStatus.cancelled none none (stored_time s.now)) s.tables.tasks
      (with_status-IsRecorded TaskStatus.cancelled none none (stored_time s.now)) h
changed-AllRecorded (claim id agent) s h =
    All-update_where (IsRecorded (stored_time s.now)) (is_claimable id)
      (claimed_by agent (stored_time s.now)) s.tables.tasks
      (claimed_by-IsRecorded agent (stored_time s.now)) h
changed-AllRecorded (post id direction kind content) s h = h
changed-AllRecorded (acknowledge ids) s h = h

handle-AllRecorded : (q : Request) (s : Session Tables) → AllRecorded s → AllRecorded (handle q s).1
handle-AllRecorded q s h =
    let (cases, clock) = handle_cases q s in
    let rows : All (IsRecorded (stored_time s.now)) (handle q s).1.tables.tasks = elim cases [
      | inl same ↦ subst (All (IsRecorded (stored_time s.now))) (sym same) h
      | inr made ↦
          subst (All (IsRecorded (stored_time s.now))) (sym made) (changed-AllRecorded q s h)
    ] in
    subst (λ now. All (IsRecorded (stored_time now)) (handle q s).1.tables.tasks) (sym clock) rows

-- Requests one after another, each some time after the one before.
pub serve : List (ℕ × Request) → Session Tables → Session Tables
serve [] s = s
serve ((elapsed, q) ∷ requests) s = serve requests (handle q (record s { now = s.now + elapsed })).1

stored_later : (now elapsed : ℕ) → stored_time now ≤ stored_time (now + elapsed)
unfolding stored_time
stored_later now elapsed = omega arith

older :
    (now elapsed : ℕ) (r : TaskRow)
    → IsRecorded (stored_time now) r
    → IsRecorded (stored_time (now + elapsed)) r
older now elapsed r h = record {
  status_of = h.status_of;
  category_of = h.category_of;
  status_text = h.status_text;
  category_text = h.category_text;
  stamped = h.stamped;
  ordered = h.ordered;
  past = omega (arith, h.past, stored_later now elapsed);
}

-- Whatever requests are served, with whatever refusals of the database: every row's texts are those
-- of a status and a category, so none is read by a fallback; the status has its timestamp; and no
-- row was updated before it was created, or later than what a column keeps of now.
pub serve-AllRecorded :
    (requests : List (ℕ × Request)) (s : Session Tables)
    → AllRecorded s
    → AllRecorded (serve requests s)
unfolding serve
serve-AllRecorded [] s h = h
serve-AllRecorded ((elapsed, q) ∷ requests) s h =
    let s' : Session Tables = record s { now = s.now + elapsed } in
    serve-AllRecorded requests (handle q s').1
      (handle-AllRecorded q s' (All-map (older s.now elapsed) s.tables.tasks h))

-- Such a row is read back as it was written: no status or category is replaced by a default.
pub recorded_read :
    (now : ℕ) (r : TaskRow)
    → IsRecorded now r
    → (status_str (into_task r).status ≡ r.status)
      × (category_str (into_task r).category ≡ r.category)
unfolding into_task
recorded_read now r h = (
  rw (h.status_text, status_read h.status_of) refl,
  rw (h.category_text, category_read h.category_of) refl,
)
