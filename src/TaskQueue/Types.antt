-- ===== src/TaskQueue/Types.antt =====
-- The types of amos-harness/src/task_queue/mod.rs and the strings that stand for them in the tables.
use amos_platform.Prelude.{
  ℕ, Bool, true, false, String, Option, none, some, str_eq, if◌then◌else◌, ℤ,
}
use amos_platform.Prelude.Values.{Json}

pub data TaskCategory : Type 0 where
  internal external : TaskCategory

pub data TaskStatus : Type 0 where
  pending assigned running completed failed cancelled : TaskStatus

pub data MessageDirection : Type 0 where
  agent_to_amos amos_to_agent amos_to_user : MessageDirection

pub data MessageType : Type 0 where
  status_update question result error progress approval_request : MessageType

-- `TaskCategory::as_str`
unfoldable pub category_str : TaskCategory → String
category_str TaskCategory.internal = "internal"
category_str TaskCategory.external = "external"

-- `TaskCategory::from_str`
unfoldable pub parse_category : String → Option TaskCategory
parse_category s =
    if str_eq s "internal"
    then some TaskCategory.internal
    else if str_eq s "external"
    then some TaskCategory.external
    else none

-- `TaskStatus::as_str`
unfoldable pub status_str : TaskStatus → String
status_str TaskStatus.pending = "pending"
status_str TaskStatus.assigned = "assigned"
status_str TaskStatus.running = "running"
status_str TaskStatus.completed = "completed"
status_str TaskStatus.failed = "failed"
status_str TaskStatus.cancelled = "cancelled"

-- `TaskStatus::from_str`
unfoldable pub parse_status : String → Option TaskStatus
parse_status s =
    if str_eq s "pending"
    then some TaskStatus.pending
    else if str_eq s "assigned"
    then some TaskStatus.assigned
    else if str_eq s "running"
    then some TaskStatus.running
    else if str_eq s "completed"
    then some TaskStatus.completed
    else if str_eq s "failed"
    then some TaskStatus.failed
    else if str_eq s "cancelled"
    then some TaskStatus.cancelled
    else none

unfoldable pub is_terminal : TaskStatus → Bool
is_terminal TaskStatus.completed = true
is_terminal TaskStatus.failed = true
is_terminal TaskStatus.cancelled = true
is_terminal _ = false

-- `MessageDirection::as_str`
unfoldable pub direction_str : MessageDirection → String
direction_str MessageDirection.agent_to_amos = "agent_to_amos"
direction_str MessageDirection.amos_to_agent = "amos_to_agent"
direction_str MessageDirection.amos_to_user = "amos_to_user"

-- `MessageDirection::from_str`
unfoldable pub parse_direction : String → Option MessageDirection
parse_direction s =
    if str_eq s "agent_to_amos"
    then some MessageDirection.agent_to_amos
    else if str_eq s "amos_to_agent"
    then some MessageDirection.amos_to_agent
    else if str_eq s "amos_to_user"
    then some MessageDirection.amos_to_user
    else none

-- `MessageType::as_str`
unfoldable pub message_type_str : MessageType → String
message_type_str MessageType.status_update = "status_update"
message_type_str MessageType.question = "question"
message_type_str MessageType.result = "result"
message_type_str MessageType.error = "error"
message_type_str MessageType.progress = "progress"
message_type_str MessageType.approval_request = "approval_request"

-- `MessageType::from_str`
unfoldable pub parse_message_type : String → Option MessageType
parse_message_type s =
    if str_eq s "status_update"
    then some MessageType.status_update
    else if str_eq s "question"
    then some MessageType.question
    else if str_eq s "result"
    then some MessageType.result
    else if str_eq s "error"
    then some MessageType.error
    else if str_eq s "progress"
    then some MessageType.progress
    else if str_eq s "approval_request"
    then some MessageType.approval_request
    else none

pub record Task : Type 0 where
  pub id : ℕ
  pub title : String
  pub description : Option String
  pub context : Json
  pub category : TaskCategory
  pub task_type : Option String
  pub priority : ℤ
  pub status : TaskStatus
  pub assigned_to : Option ℕ
  pub session_id : Option ℕ
  pub parent_task_id : Option ℕ
  pub result : Option Json
  pub error_message : Option String
  pub reward_tokens : ℤ
  pub reward_claimed : Bool
  pub deadline_at : Option ℕ
  pub created_at : ℕ
  pub updated_at : ℕ
  pub assigned_at : Option ℕ
  pub started_at : Option ℕ
  pub completed_at : Option ℕ

pub record CreateTaskParams : Type 0 where
  pub title : String
  pub description : Option String
  pub context : Option Json
  pub category : TaskCategory
  pub task_type : Option String
  pub priority : Option ℤ
  pub session_id : Option ℕ
  pub parent_task_id : Option ℕ
  pub reward_tokens : Option ℤ
  pub deadline_at : Option ℕ

pub record TaskMessage : Type 0 where
  pub id : ℕ
  pub task_id : ℕ
  pub direction : MessageDirection
  pub message_type : MessageType
  pub content : Json
  pub acknowledged : Bool
  pub acknowledged_at : Option ℕ
  pub created_at : ℕ

pub record TaskNotification : Type 0 where
  pub task_id : ℕ
  pub message_type : MessageType
  pub summary : String
