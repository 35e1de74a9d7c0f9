-- ===== src/TaskQueue/Messages.antt =====
-- The operations on messages of `TaskQueue` in amos-harness/src/task_queue/mod.rs.
use amos_platform.Prelude.{
  is_any, ℕ, Bool, true, false, not, ◌&&◌, ◌||◌, String, Option, none, some, List, [], ◌∷◌, ◌++◌,
  map, unwrap_or, str_eq, filter, update_where, take, sort_by, leb, ◌==◌,
}
use amos_platform.Prelude.Values.{Json, get, as_str}
use amos_platform.Database.{Action, ◌>>=◌, ◌>>◌, pure, utc_now, new_v4, execute, fetch}
use amos_platform.Error.{ok}
use amos_platform.TaskQueue.Types.{
  MessageDirection, MessageType, TaskMessage, TaskNotification, direction_str, message_type_str,
}
use amos_platform.TaskQueue.Rows.{TaskRow, TaskMessageRow, Tables, into_message, stored_time}
use amos_platform.TaskQueue.Queue.{is_some_of}

abbrev new_message_row : ℕ → ℕ → ℕ → MessageDirection → MessageType → Json → TaskMessageRow
new_message_row id now task_id direction message_type content = record {
  id = id;
  task_id = task_id;
  direction = direction_str direction;
  message_type = message_type_str message_type;
  content = content;
  acknowledged = false;
  acknowledged_at = none;
  created_at = now;
}

abbrev text_of : Option Json → Option String
text_of none = none
text_of (some v) = as_str v

unfoldable pub summary_of : Json → String
summary_of content = unwrap_or (text_of (get content "text")) "Task update"

-- `notify_tx.send`, whose failure (no subscriber) the code ignores.
abbrev notify : TaskNotification → Action Tables (Unit {0})
notify n s = (ok tt, record s { tables = record s.tables { notified = n ∷ s.tables.notified } })

unfoldable pub post_message : ℕ → MessageDirection → MessageType → Json → Action Tables TaskMessage
post_message task_id direction message_type content = do
  id ← new_v4
  now ← utc_now
  execute {A = Unit {0}} "Failed to post task message: " (λ t. (
    tt,
    record t {
      messages =
          t.messages
          ++ new_message_row id (stored_time now) task_id direction message_type content ∷ [];
    },
  ))
  notify (record { task_id = task_id; message_type = message_type; summary = summary_of content })
  pure (record {
    id = id;
    task_id = task_id;
    direction = direction;
    message_type = message_type;
    content = content;
    acknowledged = false;
    acknowledged_at = none;
    created_at = now;
  })

abbrev pub earlier : TaskMessageRow → TaskMessageRow → Bool
earlier a b = leb a.created_at b.created_at

-- `EXISTS` a task of the session with the id: the join, whose `t.id` is a primary key.
abbrev pub in_session : ℕ → List TaskRow → TaskMessageRow → Bool
in_session sid [] m = false
in_session sid (t ∷ tasks) m =
    (t.id == m.task_id && is_some_of sid t.session_id) || in_session sid tasks m

abbrev pub is_pending_for : ℕ → List TaskRow → TaskMessageRow → Bool
is_pending_for sid tasks m =
    in_session sid tasks m && (not m.acknowledged && str_eq m.direction "agent_to_amos")

unfoldable pub pending_messages_for_session : ℕ → Action Tables (List TaskMessage)
pending_messages_for_session session_id = do
  rows ←
      fetch "Failed to fetch messages: "
        (λ t. take 500 (sort_by earlier (filter (is_pending_for session_id t.tasks) t.messages)))
  pure (map into_message rows)

abbrev pub acknowledge : ℕ → TaskMessageRow → TaskMessageRow
acknowledge now m = record m { acknowledged = true; acknowledged_at = some now }

abbrev mark : List ℕ → Action Tables (Unit {0})
mark message_ids = do
  now ← utc_now
  execute "Failed to acknowledge messages: " (λ t. (
    tt,
    record t {
      messages =
          update_where (λ m. is_any message_ids m.id) (acknowledge (stored_time now)) t.messages;
    },
  ))

-- With no ids it returns before any statement.
unfoldable pub acknowledge_messages : List ℕ → Action Tables (Unit {0})
acknowledge_messages [] = pure tt
acknowledge_messages (i ∷ ids) = mark (i ∷ ids)

unfoldable pub messages_for_task : ℕ → Action Tables (List TaskMessage)
messages_for_task task_id = do
  rows ←
      fetch "Failed to fetch task messages: "
        (λ t. take 500 (sort_by earlier (filter (λ m. m.task_id == task_id) t.messages)))
  pure (map into_message rows)
