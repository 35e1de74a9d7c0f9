-- ===== src/TaskQueue/Codes.antt =====
-- The strings of amos-harness/src/task_queue/mod.rs stand for the values: what is written is read
-- back, and nothing else is read as that value.
use amos_platform.Prelude.{◌≡◌, refl, String, some, arith, eq_iff}
use amos_platform.TaskQueue.Types.{
  TaskCategory, TaskStatus, MessageDirection, MessageType, category_str, parse_category, status_str,
  parse_status, direction_str, parse_direction, message_type_str, parse_message_type,
}

pub category_read : (c : TaskCategory) → parse_category (category_str c) ≡ some c
unfolding parse_category category_str
category_read TaskCategory.internal = refl
category_read _ = refl

pub status_read : (s : TaskStatus) → parse_status (status_str s) ≡ some s
unfolding parse_status status_str
status_read TaskStatus.pending = refl
status_read _ = refl

direction_read : (d : MessageDirection) → parse_direction (direction_str d) ≡ some d
unfolding parse_direction direction_str
direction_read MessageDirection.agent_to_amos = refl
direction_read _ = refl

message_type_read : (t : MessageType) → parse_message_type (message_type_str t) ≡ some t
unfolding parse_message_type message_type_str
message_type_read MessageType.status_update = refl
message_type_read _ = refl

-- Each of the four codes reads back what it writes.
pub codes_read :
    (c : TaskCategory) (s : TaskStatus) (d : MessageDirection) (t : MessageType)
    → (parse_category (category_str c) ≡ some c)
      × (parse_status (status_str s) ≡ some s)
      × (parse_direction (direction_str d) ≡ some d)
      × (parse_message_type (message_type_str t) ≡ some t)
codes_read c s d t = (category_read c, status_read s, direction_read d, message_type_read t)

pub category_written :
    (c : TaskCategory) (x : String) → parse_category x ≡ some c → category_str c ≡ x
unfolding parse_category category_str
category_written c x h = ground (arith, eq_iff x "internal", eq_iff x "external")

-- A text that is read as a status is the text of that status.
pub status_written : (s : TaskStatus) (x : String) → parse_status x ≡ some s → status_str s ≡ x
unfolding parse_status status_str
status_written s x h = ground (
  arith,
  eq_iff x "pending",
  eq_iff x "assigned",
  eq_iff x "running",
  eq_iff x "completed",
  eq_iff x "failed",
  eq_iff x "cancelled",
)
