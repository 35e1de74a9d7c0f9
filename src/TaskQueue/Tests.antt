-- ===== src/TaskQueue/Tests.antt =====
-- A small task table of amos-harness/src/task_queue/mod.rs, and the theorems at it.
use amos_platform.Prelude.{
  is_any, ℕ, ◌+◌, ◌≤◌, ◌≡◌, refl, false, none, some, List, [], ◌∷◌, update_where, All, pos, ◌==◌,
  literal,
}
use amos_platform.Prelude.Values.{null}
use amos_platform.Error.{ok, internal, ◌⊕◌}
use amos_platform.Database.{Session}
use amos_platform.TaskQueue.Types.{
  Task, TaskStatus, TaskCategory, CreateTaskParams, status_str, category_str,
}
use amos_platform.TaskQueue.Rows.{
  stored_time, TaskRow, TaskMessageRow, Tables, into_task, into_message,
}
use amos_platform.TaskQueue.Queue.{
  new_row, create_task, get_task, update_task_status, claim_bounty, cancel_task,
}
use amos_platform.TaskQueue.Messages.{acknowledge_messages, pending_messages_for_session}
use amos_platform.TaskQueue.Claims.{winners, winners-le-one, IsClaimed, claim_succeeds}
use amos_platform.TaskQueue.Lifecycle.{
  with_stored_times, IsCreated, IsUpdated, create-get, update_found, handle, handle_error_unchanged,
  Request, create, update, cancel, claim,
}
use amos_platform.TaskQueue.Invariant.{AllRecorded, serve, serve-AllRecorded}
use amos_platform.TaskQueue.Inbox.{acknowledged_not_pending}

abbrev bounty : CreateTaskParams
bounty = record {
  title = "Translate the guide";
  description = none;
  context = none;
  category = TaskCategory.external;
  task_type = none;
  priority = none;
  session_id = some 3;
  parent_task_id = none;
  reward_tokens = some (pos 100);
  deadline_at = none;
}

abbrev chore : CreateTaskParams
chore = record bounty { category = TaskCategory.internal; priority = some (pos 1) }

abbrev message : TaskMessageRow
message = record {
  id = 70;
  task_id = 1;
  direction = "agent_to_amos";
  message_type = "question";
  content = null;
  acknowledged = false;
  acknowledged_at = none;
  created_at = 5;
}

abbrev start : Session Tables
start = record {
  tables = record {
    tasks = new_row 1 4 bounty ∷ new_row 2 5 chore ∷ [];
    messages = message ∷ record message { id = 71 } ∷ [];
    notified = [];
  };
  now = 9005;
  uuids = λ n. 10 + n;
  drawn = 0;
  faults = [];
}

-- The database refuses the first statement.
abbrev refusing : Session Tables
refusing = record start { faults = some (literal "connection reset") ∷ [] }

two_claims : winners 1 ((5, 10) ∷ (6, 11) ∷ []) start ≡ 1
unfolding winners claim_bounty category_str status_str
two_claims = refl

winners-le-one_example : winners 1 ((5, 10) ∷ (6, 11) ∷ []) start ≤ 1
winners-le-one_example = winners-le-one 1 ((5, 10) ∷ (6, 11) ∷ []) start

claim_succeeds_example : (t : Task) × ((claim_bounty 1 5 start).0 ≡ ok t) × IsClaimed 1 5 9000 t
unfolding category_str status_str stored_time
claim_succeeds_example = claim_succeeds 1 5 start (new_row 1 4 bounty) refl refl

create-get_example :
    (t : Task) × ((create_task chore start).0 ≡ ok t)
    × IsCreated chore 10 9005 t
    × ((get_task 10 (create_task chore start).1).0 ≡ ok (with_stored_times t))
create-get_example = create-get chore start refl refl refl

update_found_example :
    (change : TaskRow → TaskRow) × ((x : TaskRow)
      → IsUpdated TaskStatus.running none none (stored_time 9005) x (change x))
    × ((update_task_status 2 TaskStatus.running none none start).0
        ≡ ok (into_task (change (new_row 2 5 chore))))
    × ((update_task_status 2 TaskStatus.running none none start).1.tables.tasks
        ≡ update_where (λ r. r.id == 2) change start.tables.tasks)
update_found_example =
    update_found 2 TaskStatus.running none none start (new_row 2 5 chore) refl refl

handle_error_unchanged_example : (handle (cancel 1) refusing).1.tables ≡ refusing.tables
unfolding handle cancel_task
handle_error_unchanged_example =
    handle_error_unchanged (cancel 1) refusing
      (internal (literal "Failed to update task: " ⊕ literal "connection reset")) refl

abbrev requests : List (ℕ × Request)
requests = (1, claim 1 5) ∷ (2, update 2 TaskStatus.running none none) ∷ (1, create chore) ∷ []

abbrev fresh : Session Tables
fresh = record start { tables = record { tasks = []; messages = []; notified = [] } }

serve-AllRecorded_example : AllRecorded (serve requests fresh)
serve-AllRecorded_example = serve-AllRecorded requests fresh tt

acknowledged_not_pending_example :
    All (λ m. is_any (70 ∷ []) m.id ≡ false) (into_message (record message { id = 71 }) ∷ [])
unfolding acknowledge_messages pending_messages_for_session
acknowledged_not_pending_example =
    acknowledged_not_pending (70 ∷ []) 3 start (into_message (record message { id = 71 }) ∷ []) refl
      refl
