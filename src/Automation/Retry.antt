-- ===== src/Automation/Retry.antt =====
-- The retries of failed webhooks in amos-harness/src/automations/engine.rs: the run log, the queue
-- `automation_retry_queue`, and one pass of the worker over it. The clock stands still during a
-- pass. The column defaults are those of the table's migration.
use amos_platform.Prelude.{
  is_any, ℕ, ◌+◌, Bool, ◌&&◌, String, Option, none, some, List, [], ◌∷◌, ◌++◌, map, filter, find,
  take, update_where, sort_by, ltb, leb, ◌==◌, if◌then◌else◌, str_eq, Message, lit, number, literal,
}
use amos_platform.Prelude.Values.{Json}
use amos_platform.Error.{Result, ok, err, internal, not_found, database, display, ◌⊕◌}
use amos_platform.Database.{
  Action, ◌>>=◌, ◌>>◌, pure, raise, answer, or_raise, outcome, ignore, utc_now, new_v4,
  run_statement, execute, fetch,
}
use amos_platform.Automation.Types.{Automation, RetryEntry, automation_from_row}
use amos_platform.Automation.Webhook.{Http, Tables, action_call_webhook}

unfoldable pub get_automation : ℕ → Action Tables Automation
get_automation id = do
  found ← fetch "Failed to get automation: " (λ t. find (λ r. r.id == id) t.automations)
  row ← or_raise found (not_found (literal "Automation") (number id ∷ []))
  answer (automation_from_row row)

-- The database draws the id of the new row.
unfoldable pub log_run :
    ℕ → Json → String → Option Json → Option Message → ℕ → Action Tables (Unit {0})
log_run automation_id trigger_data status result error duration_ms = do
  now ← utc_now
  id ← new_v4
  execute "Failed to log automation run: " (λ t. (
    tt,
    record t {
      runs =
          t.runs
          ++ record {
            id = id;
            automation_id = automation_id;
            trigger_data = trigger_data;
            status = status;
            result = result;
            error = error;
            duration_ms = some duration_ms;
            created_at = now;
          }
            ∷ [];
    },
  ))

-- In seconds, which are the unit of the clock.
unfoldable pub retry_delay_for_attempt : ℕ → ℕ
retry_delay_for_attempt attempt =
    if attempt == 1 then 30 else if attempt == 2 then 120 else if attempt == 3 then 600 else 1800

abbrev pub new_entry : ℕ → ℕ → ℕ → String → Json → Message → ℕ → RetryEntry
new_entry id now automation_id action_type trigger_data error attempt = record {
  id = id;
  automation_id = automation_id;
  action_type = action_type;
  trigger_data = trigger_data;
  attempt = attempt;
  max_attempts = 3;
  next_attempt_at = now + retry_delay_for_attempt attempt;
  last_error = some error;
  status = "pending";
  created_at = now;
  updated_at = now;
}

unfoldable pub enqueue_retry : ℕ → String → Json → Message → ℕ → Action Tables (Unit {0})
enqueue_retry automation_id action_type trigger_data error attempt = do
  now ← utc_now
  id ← new_v4
  execute "Failed to enqueue retry: " (λ t. (
    tt,
    record t {
      retries =
          t.retries ++ new_entry id now automation_id action_type trigger_data error attempt ∷ [];
    },
  ))

abbrev pub is_pending : RetryEntry → Bool
is_pending r = str_eq r.status "pending"

abbrev pub is_due : ℕ → RetryEntry → Bool
is_due now r = is_pending r && leb r.next_attempt_at now

abbrev earliest_first : RetryEntry → RetryEntry → Bool
earliest_first a b = leb a.next_attempt_at b.next_attempt_at

-- The subquery: the ids of the first ten entries that are due.
abbrev pub due_ids : ℕ → List RetryEntry → List ℕ
due_ids now retries =
    map (λ r. r.id) (take 10 (sort_by earliest_first (filter (is_due now) retries)))

-- The id is the key of the table, so the entry that has a selected id is the one that is due.
abbrev pub is_claimed : ℕ → List RetryEntry → RetryEntry → Bool
is_claimed now retries r = is_due now r && is_any (due_ids now retries) r.id

abbrev pub start : ℕ → RetryEntry → RetryEntry
start now r = record r { status = "in_progress"; updated_at = now }

-- `UPDATE … RETURNING`, in the order of the table.
unfoldable pub claim_due : ℕ → Action Tables (List RetryEntry)
claim_due now = run_statement database (λ t.
    let p : RetryEntry → Bool = is_claimed now t.retries in
    (
      map (start now) (filter p t.retries),
      record t { retries = update_where p (start now) t.retries },
    ))

abbrev pub is_entry : ℕ → RetryEntry → Bool
is_entry id r = r.id == id

-- A statement on the entry of an id, whose refusal is ignored.
abbrev pub set_entry : ℕ → (RetryEntry → RetryEntry) → Action Tables (Unit {0})
set_entry id change = ignore (
    run_statement {A = Unit {0}} database
      (λ t. (tt, record t { retries = update_where (is_entry id) change t.retries })))

abbrev pub dead_letter : Message → ℕ → RetryEntry → RetryEntry
dead_letter reason now r = record r {
  status = "dead_letter";
  last_error = some reason;
  updated_at = now;
}

abbrev pub succeeded : ℕ → RetryEntry → RetryEntry
succeeded now r = record r { status = "succeeded"; updated_at = now }

abbrev pub rescheduled : ℕ → Message → ℕ → RetryEntry → RetryEntry
rescheduled next_attempt reason now r = record r {
  status = "pending";
  attempt = next_attempt;
  next_attempt_at = now + retry_delay_for_attempt next_attempt;
  last_error = some reason;
  updated_at = now;
}

-- What becomes of an entry whose retry failed.
abbrev pub after_failure : RetryEntry → Message → ℕ → RetryEntry → RetryEntry
after_failure entry reason now r =
    let next_attempt : ℕ = entry.attempt + 1 in
    if ltb entry.max_attempts next_attempt
    then dead_letter reason now r
    else rescheduled next_attempt reason now r

module _ (http : Http) where
  abbrev pub retry_action : Automation → RetryEntry → Action Tables Json
  retry_action automation entry =
      if str_eq entry.action_type "call_webhook"
      then action_call_webhook http automation entry.trigger_data
      else raise (internal (lit "Unsupported retry action type: " ∷ lit entry.action_type ∷ []))

  -- The arms of the `match` on the result of the retry.
  abbrev pub finish : ℕ → RetryEntry → Result Json → Action Tables (Unit {0})
  finish now entry (ok result) =
      set_entry entry.id (succeeded now)
      >> ignore (log_run entry.automation_id entry.trigger_data "success" (some result) none 0)
  finish now entry (err e) =
      ignore (log_run entry.automation_id entry.trigger_data "error" none (some (display e)) 0)
      >> set_entry entry.id (after_failure entry (display e) now)

  abbrev pub retry_with : ℕ → RetryEntry → Result Automation → Action Tables (Unit {0})
  retry_with now entry (err e) =
      set_entry entry.id (dead_letter (literal "Automation unavailable: " ⊕ display e) now)
  retry_with now entry (ok automation) =
      if automation.enabled
      then outcome (retry_action automation entry) >>= finish now entry
      else set_entry entry.id (dead_letter (literal "Automation disabled") now)

  -- The body of the loop.
  unfoldable pub process_entry : RetryEntry → Action Tables (Unit {0})
  process_entry entry = do
    now ← utc_now
    found ← outcome (get_automation entry.automation_id)
    retry_with now entry found

  unfoldable pub process_all : List RetryEntry → Action Tables (Unit {0})
  process_all [] = pure tt
  process_all (entry ∷ rows) = process_entry entry >> process_all rows

  abbrev process_claimed : Result (List RetryEntry) → Action Tables (Unit {0})
  process_claimed (err e) = pure tt
  process_claimed (ok rows) = process_all rows

  unfoldable pub process_retry_queue : Action Tables (Unit {0})
  process_retry_queue = do now ← utc_now; claimed ← outcome (claim_due now); process_claimed claimed
