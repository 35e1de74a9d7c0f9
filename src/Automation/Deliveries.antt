-- ===== src/Automation/Deliveries.antt =====
-- How often a failed webhook is sent again by the worker of
-- amos-harness/src/automations/engine.rs.
use amos_platform.Prelude.{
  ltb, ℕ, ◌+◌, ◌-◌, ◌≤◌, ◌≡◌, refl, sym, subst, arith, literal, List, [], ◌∷◌, map, length, filter,
  sum_by, All, All-update_where, All-filter, All-mapped, update_where, none, some, Message,
  sum_by-update_where_spent, length-filter-update_where, sum_by-map, Option-cases, Bool-cases,
  if_both, inl, inr,
}
use amos_platform.Prelude.Values.{Json}
use amos_platform.Error.{Result, ok, err, display}
use amos_platform.Database.{Session, Action, ◌>>=◌, outcome, refusal, later, then-ok}
use amos_platform.Automation.Types.{RetryEntry, Automation}
use amos_platform.Automation.Webhook.{Http, Tables}
use amos_platform.Automation.Retry.{
  get_automation, log_run, set_entry, is_entry, is_claimed, start, claim_due, after_failure,
  retry_action, finish, retry_with, process_entry, process_all, process_retry_queue, dead_letter,
  succeeded,
}
use amos_platform.Automation.Spending.{
  tries, waiting, committed, IsWithin, IsQueue, Spends, idle, trans, set_entry-Spends,
  get_automation-Spends, log_run-Spends, retry_action-Spends,
}

waiting-after_failure :
    (m now : ℕ) (entry x : RetryEntry) (reason : Message)
    → waiting m (after_failure entry reason now x) ≤ m - entry.attempt
waiting-after_failure m now entry x reason =
    elim (Bool-cases (ltb entry.max_attempts (entry.attempt + 1))) [
      | inl spent ↦ rw spent (ground arith)
      | inr left ↦ rw left (ground arith)
    ]

-- The end of a retry: a success waits no more, a failure for one try less.
finish-Spends :
    (http : Http) (m now : ℕ) (entry : RetryEntry) (r : Result Json) (s : Session Tables)
    → IsWithin m entry
    → IsQueue m s.tables
    → Spends m (m - entry.attempt) s.tables (finish http now entry r s).1.tables
finish-Spends http m now entry (ok result) s w q =
    let s' : Session Tables = (set_entry entry.id (succeeded now) s).1 in
    let h =
      set_entry-Spends m (m - entry.attempt) entry.id (succeeded now) s (λ x. refl) (λ x k. k)
        (λ x. ground arith) q in
    let k =
      log_run-Spends m entry.automation_id entry.trigger_data "success" (some result) none 0 s'
        h.sound in
    record { sound = k.sound; bound = omega (arith, h.bound, k.bound) }
finish-Spends http m now entry (err e) s w q =
    let s' : Session Tables =
      (log_run entry.automation_id entry.trigger_data "error" none (some (display e)) 0 s).1 in
    let k =
      log_run-Spends m entry.automation_id entry.trigger_data "error" none (some (display e)) 0 s
        q in
    let h =
      set_entry-Spends m (m - entry.attempt) entry.id (after_failure entry (display e) now) s'
        (λ x. ground arith) (λ x v. ground arith)
        (λ x. waiting-after_failure m now entry x (display e)) k.sound in
    record { sound = h.sound; bound = omega (arith, h.bound, k.bound) }

retry_with-Spends :
    (http : Http) (m now : ℕ) (entry : RetryEntry) (found : Result Automation) (s : Session Tables)
    → IsWithin m entry
    → IsQueue m s.tables
    → Spends m (tries m entry) s.tables (retry_with http now entry found s).1.tables
retry_with-Spends http m now entry (err e) s w q =
    set_entry-Spends m (tries m entry) entry.id _ s (λ x. refl) (λ x k. k) (λ x. ground arith) q
retry_with-Spends http m now entry (ok a) s w q =
    let retry : Action Tables (Unit {0}) =
      outcome (retry_action http a entry) >>= finish http now entry in
    let drop : Action Tables (Unit {0}) =
      set_entry entry.id (dead_letter (literal "Automation disabled") now) in
    let h = retry_action-Spends http m a entry s q in
    let s' : Session Tables = (retry_action http a entry s).1 in
    let k = finish-Spends http m now entry (retry_action http a entry s).0 s' w h.sound in
    let dropped =
      set_entry-Spends m (tries m entry) entry.id (dead_letter (literal "Automation disabled") now)
        s (λ x. refl) (λ x v. v) (λ x. ground arith) q in
    let retried : Spends m (tries m entry) s.tables (retry s).1.tables = record {
      sound = k.sound;
      bound = omega (arith, h.bound, k.bound, w.0);
    } in
    if_both (λ act. Spends m (tries m entry) s.tables (act s).1.tables) a.enabled retry drop retried
      dropped

process_entry-Spends :
    (http : Http) (m : ℕ) (entry : RetryEntry) (s : Session Tables)
    → IsWithin m entry
    → IsQueue m s.tables
    → Spends m (tries m entry) s.tables (process_entry http entry s).1.tables
unfolding process_entry
process_entry-Spends http m entry s w q =
    let h = get_automation-Spends m entry.automation_id s q in
    let s' : Session Tables = (get_automation entry.automation_id s).1 in
    let k =
      retry_with-Spends http m s.now entry (get_automation entry.automation_id s).0 s' w h.sound in
    record { sound = k.sound; bound = omega (arith, h.bound, k.bound) }

finish-ok :
    (http : Http) (now : ℕ) (entry : RetryEntry) (r : Result Json) (s : Session Tables)
    → (finish http now entry r s).0 ≡ ok tt
finish-ok http now entry (ok result) s = refl
finish-ok http now entry (err e) s = refl

retry_with-ok :
    (http : Http) (now : ℕ) (entry : RetryEntry) (found : Result Automation) (s : Session Tables)
    → (retry_with http now entry found s).0 ≡ ok tt
retry_with-ok http now entry (err e) s = refl
retry_with-ok http now entry (ok a) s =
    if_both (λ act. (act s).0 ≡ ok tt) a.enabled
      (outcome (retry_action http a entry) >>= finish http now entry)
      (set_entry entry.id (dead_letter (literal "Automation disabled") now))
      (finish-ok http now entry (retry_action http a entry s).0 (retry_action http a entry s).1)
      refl

-- Whatever happens to an entry, the loop goes on.
pub process_entry-ok :
    (http : Http) (entry : RetryEntry) (s : Session Tables) → (process_entry http entry s).0 ≡ ok tt
unfolding process_entry
process_entry-ok http entry s =
    retry_with-ok http s.now entry (get_automation entry.automation_id s).0
      (get_automation entry.automation_id s).1

-- The entries of a pass, one after another.
process_all-Spends :
    (http : Http) (m : ℕ) (rows : List RetryEntry) (s : Session Tables)
    → All (IsWithin m) rows
    → IsQueue m s.tables
    → Spends m (sum_by (tries m) rows) s.tables (process_all http rows s).1.tables
unfolding process_all
process_all-Spends http m [] s w q = idle m s.tables s.tables refl refl q
process_all-Spends http m (entry ∷ rows) s w q =
    let s' : Session Tables = (process_entry http entry s).1 in
    let h = process_entry-Spends http m entry s w.0 q in
    let k = process_all-Spends http m rows s' w.1 h.sound in
    subst (λ r. Spends m (tries m entry + sum_by (tries m) rows) s.tables r.1.tables)
      (sym (
        then-ok (process_entry http entry) (process_all http rows) s tt
          (process_entry-ok http entry s)))
      (trans m (tries m entry) (sum_by (tries m) rows) s.tables s'.tables
        (process_all http rows s').1.tables h k)

-- What the claim answers, and leaves.
abbrev pub claimed : Session Tables → List RetryEntry
claimed s = map (start s.now) (filter (is_claimed s.now s.tables.retries) s.tables.retries)

abbrev pub after_claim : Session Tables → Tables
after_claim s = record s.tables {
  retries = update_where (is_claimed s.now s.tables.retries) (start s.now) s.tables.retries;
}

claim-IsWithin : (m : ℕ) (s : Session Tables) → IsQueue m s.tables → All (IsWithin m) (claimed s)
claim-IsWithin m s q =
    All-mapped (IsWithin m) (start s.now)
      (filter (is_claimed s.now s.tables.retries) s.tables.retries)
      (All-filter (IsWithin m) (is_claimed s.now s.tables.retries) s.tables.retries q.within)

claim_spends :
    (m : ℕ) (s : Session Tables)
    → committed m (after_claim s) + sum_by (tries m) (claimed s) ≤ committed m s.tables
claim_spends m s = omega (
  arith,
  sum_by-update_where_spent (waiting m) (tries m) (is_claimed s.now s.tables.retries) (start s.now)
      s.tables.retries (λ x p. ground arith),
  sum_by-map (tries m) (start s.now) (filter (is_claimed s.now s.tables.retries) s.tables.retries),
)

claim_sound : (m : ℕ) (s : Session Tables) → IsQueue m s.tables → IsQueue m (after_claim s)
claim_sound m s q = record {
  keys = λ k.
      rw
        (length-filter-update_where (is_entry k) (is_claimed s.now s.tables.retries) (start s.now)
          s.tables.retries (λ x. refl))
        (q.keys k);
  within =
      All-update_where (IsWithin m) (is_claimed s.now s.tables.retries) (start s.now)
        s.tables.retries (λ x h. h) q.within;
}

-- A pass of the worker keeps the queue sound, and the requests that it makes were committed.
pub process_retry_queue-Spends :
    (http : Http) (m : ℕ) (s : Session Tables)
    → IsQueue m s.tables
    → Spends m 0 s.tables (process_retry_queue http s).1.tables
unfolding process_retry_queue claim_due
process_retry_queue-Spends http m s q = elim (Option-cases (refusal s.faults)) [
  | inl quiet ↦
      let s' : Session Tables = record s { tables = after_claim s; faults = later s.faults } in
      let k = process_all-Spends http m (claimed s) s' (claim-IsWithin m s q) (claim_sound m s q) in
      rw quiet (record { sound = k.sound; bound = omega (arith, k.bound, claim_spends m s) })
  | inr (e, refused) ↦ rw refused (idle m s.tables s.tables refl refl q)
]

-- Passes of the worker, each at its own time.
unfoldable pub work : Http → List ℕ → Session Tables → Session Tables
work http [] s = s
work http (now ∷ times) s = work http times (process_retry_queue http (record s { now = now })).1

-- Where no entry has or may have more than `m` attempts, however often the worker passes, at whatever
-- times, with whatever answers of the servers and refusals of the database: all requests that it
-- makes are at most the tries that the waiting entries had left, attempts stay at most `m`, and ids
-- stay keys.
pub work-IsQueue :
    (http : Http) (m : ℕ) (times : List ℕ) (s : Session Tables)
    → IsQueue m s.tables
    → IsQueue m (work http times s).tables
      × (length (work http times s).tables.requests
            + sum_by (waiting m) (work http times s).tables.retries
          ≤ length s.tables.requests + sum_by (waiting m) s.tables.retries)
unfolding work
work-IsQueue http m [] s q = (q, omega arith)
work-IsQueue http m (now ∷ times) s q =
    let s' : Session Tables = record s { now = now } in
    let h = process_retry_queue-Spends http m s' q in
    let (sound, bound) = work-IsQueue http m times (process_retry_queue http s').1 h.sound in
    (sound, omega (arith, bound, h.bound))
