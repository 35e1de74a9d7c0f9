-- ===== src/Automation/Endings.antt =====
-- What a pass of the retry worker of amos-harness/src/automations/engine.rs leaves of the entries it
-- takes, where the database refuses nothing.
use amos_platform.Prelude.{
  is_any, ltb, ℕ, ◌+◌, ◌≡◌, ◌⊎◌, refl, arith, literal, true, List, [], All, update_where, Option,
  none, some, Message, Bool-cases, if_both, inl, inr, String,
}
use amos_platform.Prelude.Values.{Json}
use amos_platform.Error.{Result, ok, err, display}
use amos_platform.Database.{Session, ◌>>=◌, outcome}
use amos_platform.Automation.Types.{RetryEntry, Automation}
use amos_platform.Automation.Webhook.{Http, Tables, action_call_webhook}
use amos_platform.Automation.Retry.{
  get_automation, log_run, set_entry, is_entry, after_failure, retry_action, finish, retry_with,
  process_entry, dead_letter, succeeded,
}

-- Waiting for its next attempt, delivered, or given up.
abbrev pub IsSettled : RetryEntry → Type 0
IsSettled r = (r.status ≡ "pending") ⊎ (r.status ≡ "succeeded") ⊎ (r.status ≡ "dead_letter")

-- The entries that are not settled are among those of the ids.
abbrev pub AreAmong : List ℕ → Tables → Type 0
AreAmong ids t = All (λ r. IsSettled r ⊎ (is_any ids r.id ≡ true)) t.retries

-- The step changed the entry of one id to one that is settled, and no statement was refused.
pub record Settles (id : ℕ) (s s' : Session Tables) : Type 0 where
  pub change : RetryEntry → RetryEntry
  pub ends : (x : RetryEntry) → IsSettled (change x)
  pub rows : s'.tables.retries ≡ update_where (is_entry id) change s.tables.retries
  pub quiet : s'.faults ≡ []

after_failure_ends :
    (entry x : RetryEntry) (reason : Message) (now : ℕ)
    → IsSettled (after_failure entry reason now x)
after_failure_ends entry x reason now =
    elim (Bool-cases (ltb entry.max_attempts (entry.attempt + 1))) [
      | inl spent ↦ rw spent (inr (inr refl))
      | inr left ↦ rw left (inl refl)
    ]

get_automation_frame :
    (id : ℕ) (s : Session Tables)
    → s.faults ≡ []
    → ((get_automation id s).1.tables.retries ≡ s.tables.retries)
      × ((get_automation id s).1.faults ≡ [])
unfolding get_automation
get_automation_frame id s h = (ground arith, ground arith)

log_run_frame :
    (id : ℕ) (j : Json) (st : String) (r : Option Json) (e : Option Message) (d : ℕ)
    (s : Session Tables)
    → s.faults ≡ []
    → ((log_run id j st r e d s).1.tables.retries ≡ s.tables.retries)
      × ((log_run id j st r e d s).1.faults ≡ [])
unfolding log_run
log_run_frame id j st r e d s h = (ground arith, ground arith)

set_entry_frame :
    (id : ℕ) (change : RetryEntry → RetryEntry) (s : Session Tables)
    → s.faults ≡ []
    → ((set_entry id change s).1.tables.retries
        ≡ update_where (is_entry id) change s.tables.retries)
      × ((set_entry id change s).1.faults ≡ [])
set_entry_frame id change s h = (ground arith, ground arith)

retry_action_frame :
    (http : Http) (a : Automation) (entry : RetryEntry) (s : Session Tables)
    → s.faults ≡ []
    → ((retry_action http a entry s).1.tables.retries ≡ s.tables.retries)
      × ((retry_action http a entry s).1.faults ≡ [])
unfolding action_call_webhook
retry_action_frame http a entry s h = (ground arith, ground arith)

finish-Settles :
    (http : Http) (now : ℕ) (entry : RetryEntry) (r : Result Json) (s : Session Tables)
    → s.faults ≡ []
    → Settles entry.id s (finish http now entry r s).1
finish-Settles http now entry (ok result) s h =
    let (rows, quiet) = set_entry_frame entry.id (succeeded now) s h in
    let (same, still) =
      log_run_frame entry.automation_id entry.trigger_data "success" (some result) none 0
        (set_entry entry.id (succeeded now) s).1 quiet in
    record { change = succeeded now; ends = λ x. inr (inl refl); rows = cc; quiet = still }
finish-Settles http now entry (err e) s h =
    let (same, still) =
      log_run_frame entry.automation_id entry.trigger_data "error" none (some (display e)) 0 s h in
    let (rows, quiet) =
      set_entry_frame entry.id (after_failure entry (display e) now)
        (log_run entry.automation_id entry.trigger_data "error" none (some (display e)) 0 s).1
        still in
    record {
      change = after_failure entry (display e) now;
      ends = λ x. after_failure_ends entry x (display e) now;
      rows = cc;
      quiet = quiet;
    }

set_entry-Settles :
    (id : ℕ) (change : RetryEntry → RetryEntry) (s : Session Tables)
    → s.faults ≡ []
    → ((x : RetryEntry) → IsSettled (change x))
    → Settles id s (set_entry id change s).1
set_entry-Settles id change s h ends =
    let (rows, quiet) = set_entry_frame id change s h in
    record { change = change; ends = ends; rows = rows; quiet = quiet }

-- What settles after a step that touches no entry.
after_idle :
    (id : ℕ) (s s' s'' : Session Tables)
    → s'.tables.retries ≡ s.tables.retries
    → Settles id s' s''
    → Settles id s s''
after_idle id s s' s'' same h = record {
  change = h.change;
  ends = h.ends;
  rows = rw (← same) h.rows;
  quiet = h.quiet;
}

retry_with-Settles :
    (http : Http) (now : ℕ) (entry : RetryEntry) (found : Result Automation) (s : Session Tables)
    → s.faults ≡ []
    → Settles entry.id s (retry_with http now entry found s).1
retry_with-Settles http now entry (err e) s h =
    set_entry-Settles entry.id _ s h (λ x. inr (inr refl))
retry_with-Settles http now entry (ok a) s h =
    let (same, quiet) = retry_action_frame http a entry s h in
    let s' : Session Tables = (retry_action http a entry s).1 in
    if_both (λ act. Settles entry.id s (act s).1) a.enabled
      (outcome (retry_action http a entry) >>= finish http now entry)
      (set_entry entry.id (dead_letter (literal "Automation disabled") now))
      (after_idle entry.id s s' _ same
        (finish-Settles http now entry (retry_action http a entry s).0 s' quiet))
      (set_entry-Settles entry.id _ s h (λ x. inr (inr refl)))

pub process_entry-Settles :
    (http : Http) (entry : RetryEntry) (s : Session Tables)
    → s.faults ≡ []
    → Settles entry.id s (process_entry http entry s).1
unfolding process_entry
process_entry-Settles http entry s h =
    let (same, quiet) = get_automation_frame entry.automation_id s h in
    let s' : Session Tables = (get_automation entry.automation_id s).1 in
    after_idle entry.id s s' _ same
      (retry_with-Settles http s.now entry (get_automation entry.automation_id s).0 s' quiet)
