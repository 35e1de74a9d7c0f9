-- ===== src/TaskQueue/Rows.antt =====
-- The tables of amos-harness/src/task_queue/mod.rs and how a row becomes a task or a message.
use amos_platform.Prelude.{ℕ, ◌*◌, ◌/◌, Bool, String, Option, List, unwrap_or, ℤ}
use amos_platform.Prelude.Values.{Json}
use amos_platform.TaskQueue.Types.{
  TaskCategory, TaskStatus, MessageDirection, MessageType, Task, TaskMessage, TaskNotification,
  parse_category, parse_status, parse_direction, parse_message_type,
}

-- What a column of type TIMESTAMPTZ keeps of a time: its microseconds. Times are numbers of
-- nanoseconds.
unfoldable pub stored_time : ℕ → ℕ
stored_time t = t / 1000 * 1000

-- A row of `tasks`: the category and the status are text columns.
pub record TaskRow : Type 0 where
  pub id : ℕ
  pub title : String
  pub description : Option String
  pub context : Json
  pub category : String
  pub task_type : Option String
  pub priority : ℤ
  pub status : String
  pub assigned_to : Option ℕ
  pub session_id : Option ℕ
  pub parent_task_id : Option ℕ
  pub result : Option Json
  pub error_message : Option String
  pub reward_tokens : ℤ
  pub reward_claimed : Bool
  pub deadline_at : Option ℕ
  pub created_at : ℕ
  pub updated_at : ℕ
  pub assigned_at : Option ℕ
  pub started_at : Option ℕ
  pub completed_at : Option ℕ

-- `TaskRow::into_task`
unfoldable pub into_task : TaskRow → Task
into_task r = record {
  id = r.id;
  title = r.title;
  description = r.description;
  context = r.context;
  category = unwrap_or (parse_category r.category) TaskCategory.internal;
  task_type = r.task_type;
  priority = r.priority;
  status = unwrap_or (parse_status r.status) TaskStatus.pending;
  assigned_to = r.assigned_to;
  session_id = r.session_id;
  parent_task_id = r.parent_task_id;
  result = r.result;
  error_message = r.error_message;
  reward_tokens = r.reward_tokens;
  reward_claimed = r.reward_claimed;
  deadline_at = r.deadline_at;
  created_at = r.created_at;
  updated_at = r.updated_at;
  assigned_at = r.assigned_at;
  started_at = r.started_at;
  completed_at = r.completed_at;
}

-- A row of `task_messages`.
pub record TaskMessageRow : Type 0 where
  pub id : ℕ
  pub task_id : ℕ
  pub direction : String
  pub message_type : String
  pub content : Json
  pub acknowledged : Bool
  pub acknowledged_at : Option ℕ
  pub created_at : ℕ

-- `TaskMessageRow::into_message`
unfoldable pub into_message : TaskMessageRow → TaskMessage
into_message r = record {
  id = r.id;
  task_id = r.task_id;
  direction = unwrap_or (parse_direction r.direction) MessageDirection.agent_to_amos;
  message_type = unwrap_or (parse_message_type r.message_type) MessageType.status_update;
  content = r.content;
  acknowledged = r.acknowledged;
  acknowledged_at = r.acknowledged_at;
  created_at = r.created_at;
}

-- What the queue keeps: its tables, and the notifications sent so far, the latest first.
pub record Tables : Type 0 where
  pub tasks : List TaskRow
  pub messages : List TaskMessageRow
  pub notified : List TaskNotification
