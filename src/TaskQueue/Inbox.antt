-- ===== src/TaskQueue/Inbox.antt =====
-- The message operations of amos-harness/src/task_queue/mod.rs together: what is posted for the
-- platform is pending until it is acknowledged, and then no more.
use amos_platform.Prelude.{
  is_any, ℕ, ◌≡◌, refl, false, not, ◌&&◌, List, [], ◌∷◌, map, filter, take, sort_by, update_where,
  All, All-filter_cons, All-take, All-sort_by, All-mapped, arith, Bool-cases, inl, inr,
}
use mathlib.Core.Path.{subst}
use amos_platform.Error.{ok}
use amos_platform.Database.{Session, fetch_answer}
use amos_platform.TaskQueue.Types.{TaskMessage}
use amos_platform.TaskQueue.Rows.{stored_time, TaskRow, TaskMessageRow, Tables, into_message}
use amos_platform.TaskQueue.Messages.{
  pending_messages_for_session, acknowledge_messages, acknowledge, is_pending_for, earlier,
}

-- No unacknowledged row has one of the ids.
abbrev pub AllSeen : List ℕ → List TaskMessageRow → Type 0
AllSeen ids rows = All (λ m. (is_any ids m.id && not m.acknowledged) ≡ false) rows

marked-AllSeen :
    (ids : List ℕ) (now : ℕ) (rows : List TaskMessageRow)
    → AllSeen ids (update_where (λ m. is_any ids m.id) (acknowledge now) rows)
marked-AllSeen ids now [] = tt
marked-AllSeen ids now (m ∷ rows) = elim (Bool-cases (is_any ids m.id)) [
  | inl e ↦ rw e (ground arith, marked-AllSeen ids now rows)
  | inr e ↦ rw e (ground arith, marked-AllSeen ids now rows)
]

nothing-AllSeen : (rows : List TaskMessageRow) → AllSeen [] rows
nothing-AllSeen [] = tt
nothing-AllSeen (m ∷ rows) = (refl, nothing-AllSeen rows)

marked_rows :
    (i : ℕ) (ids : List ℕ) (s : Session Tables)
    → (acknowledge_messages (i ∷ ids) s).0 ≡ ok tt
    → update_where (λ m. is_any (i ∷ ids) m.id) (acknowledge (stored_time s.now)) s.tables.messages
      ≡ (acknowledge_messages (i ∷ ids) s).1.tables.messages
unfolding acknowledge_messages
marked_rows i ids s h = ground arith

acknowledge-AllSeen :
    (ids : List ℕ) (s : Session Tables)
    → (acknowledge_messages ids s).0 ≡ ok tt
    → AllSeen ids (acknowledge_messages ids s).1.tables.messages
acknowledge-AllSeen [] s h = nothing-AllSeen (acknowledge_messages [] s).1.tables.messages
acknowledge-AllSeen (i ∷ ids) s h =
    subst (AllSeen (i ∷ ids)) (marked_rows i ids s h)
      (marked-AllSeen (i ∷ ids) (stored_time s.now) s.tables.messages)

pending_unseen :
    (ids : List ℕ) (sid : ℕ) (tasks : List TaskRow) (rows : List TaskMessageRow)
    → AllSeen ids rows
    → All (λ m. is_any ids m.id ≡ false) (filter (is_pending_for sid tasks) rows)
pending_unseen ids sid tasks [] h = tt
pending_unseen ids sid tasks (m ∷ rows) h =
    All-filter_cons (λ m. is_any ids m.id ≡ false) (is_pending_for sid tasks) m rows
      (λ pending. ground arith) (pending_unseen ids sid tasks rows h.1)

ids_kept :
    (P : ℕ → Type 0) (rows : List TaskMessageRow)
    → All (λ m. P m.id) rows
    → All (λ m. P m.id) (map into_message rows)
unfolding into_message
ids_kept P rows h = All-mapped (λ m. P m.id) into_message rows h

-- Once messages are acknowledged, the pending messages of no session hold any of them.
pub acknowledged_not_pending :
    (ids : List ℕ) (sid : ℕ) (s : Session Tables) (ms : List TaskMessage)
    → (acknowledge_messages ids s).0 ≡ ok tt
    → (pending_messages_for_session sid (acknowledge_messages ids s).1).0 ≡ ok ms
    → All (λ m. is_any ids m.id ≡ false) ms
unfolding pending_messages_for_session
acknowledged_not_pending ids sid s ms h k =
    let s' : Session Tables = (acknowledge_messages ids s).1 in
    let wanted = filter (is_pending_for sid s'.tables.tasks) s'.tables.messages in
    let unseen =
      pending_unseen ids sid s'.tables.tasks s'.tables.messages (acknowledge-AllSeen ids s h) in
    subst (All (λ m. is_any ids m.id ≡ false))
      (fetch_answer "Failed to fetch messages: "
        (λ t. take 500 (sort_by earlier (filter (is_pending_for sid t.tasks) t.messages)))
        (map into_message) s' ms k)
      (ids_kept (λ i. is_any ids i ≡ false) (take 500 (sort_by earlier wanted))
        (All-take (λ m. is_any ids m.id ≡ false) 500 (sort_by earlier wanted)
          (All-sort_by (λ m. is_any ids m.id ≡ false) earlier wanted unseen)))
