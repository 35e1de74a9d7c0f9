-- ===== src/Automation/Passes.antt =====
-- Whole passes of the retry worker of amos-harness/src/automations/engine.rs, where the database
-- refuses nothing.
use amos_platform.Prelude.{
  is_any, ◌==◌, ◌⊎◌, inl, inr, ℕ, ◌≡◌, refl, sym, subst, arith, Bool, true, false, none, List, [],
  ◌∷◌, map, filter, All, All-map, All-updated, All-both,
}
use amos_platform.Database.{Session, refusal, later, then-ok}
use amos_platform.Automation.Types.{RetryEntry}
use amos_platform.Automation.Webhook.{Http, Tables}
use amos_platform.Automation.Retry.{
  is_entry, is_claimed, start, claim_due, process_entry, process_all, process_retry_queue,
}
use amos_platform.Automation.Deliveries.{process_entry-ok, claimed, after_claim, work}
use amos_platform.Automation.Endings.{IsSettled, AreAmong, Settles, process_entry-Settles}

-- Every entry is waiting, delivered or given up.
abbrev pub AllAtRest : List RetryEntry → Type 0
AllAtRest retries = All IsSettled retries

abbrev ids_of : List RetryEntry → List ℕ
ids_of [] = []
ids_of (r ∷ rows) = r.id ∷ ids_of rows

other :
    (id : ℕ) (ids : List ℕ) (k : ℕ)
    → (k == id) ≡ false
    → is_any (id ∷ ids) k ≡ true
    → is_any ids k ≡ true
other id ids k e h = ground arith

settled :
    (id : ℕ) (ids : List ℕ) (s s' : Session Tables)
    → Settles id s s'
    → AreAmong (id ∷ ids) s.tables
    → AreAmong ids s'.tables
settled id ids s s' h among = rw h.rows (
    All-updated (λ r. IsSettled r ⊎ (is_any (id ∷ ids) r.id ≡ true))
      (λ r. IsSettled r ⊎ (is_any ids r.id ≡ true)) (is_entry id) h.change s.tables.retries
      (λ x k e. inl (h.ends x))
      (λ x k e. elim k [ inl rests ↦ inl rests | inr listed ↦ inr (other id ids x.id e listed) ])
      among)

process_all-settles :
    (http : Http) (rows : List RetryEntry) (s : Session Tables)
    → s.faults ≡ []
    → AreAmong (ids_of rows) s.tables
    → AreAmong [] (process_all http rows s).1.tables × ((process_all http rows s).1.faults ≡ [])
unfolding process_all
process_all-settles http [] s quiet among = (among, quiet)
process_all-settles http (entry ∷ rows) s quiet among =
    let h = process_entry-Settles http entry s quiet in
    let s' : Session Tables = (process_entry http entry s).1 in
    subst (λ r. AreAmong [] r.1.tables × (r.1.faults ≡ []))
      (sym (
        then-ok (process_entry http entry) (process_all http rows) s tt
          (process_entry-ok http entry s)))
      (process_all-settles http rows s' h.quiet (settled entry.id (ids_of rows) s s' h among))

-- A row that passes has its id among those of the rows that pass.
listed :
    (p : RetryEntry → Bool) (now : ℕ) (rows : List RetryEntry)
    → All (λ x. p x ≡ true → is_any (ids_of (map (start now) (filter p rows))) x.id ≡ true) rows
listed p now [] = tt
listed p now (r ∷ rows) =
    ((λ t. ground arith), All-map (λ x k t. ground (arith, k t)) rows (listed p now rows))

claim_among :
    (s : Session Tables)
    → AllAtRest s.tables.retries
    → AreAmong (ids_of (claimed s)) (after_claim s)
claim_among s rest =
    let p : RetryEntry → Bool = is_claimed s.now s.tables.retries in
    All-updated (λ r. IsSettled r × (p r ≡ true → is_any (ids_of (claimed s)) r.id ≡ true))
      (λ r. IsSettled r ⊎ (is_any (ids_of (claimed s)) r.id ≡ true)) p (start s.now)
      s.tables.retries (λ x k e. inr (k.1 e)) (λ x k e. inl k.0)
      (All-both IsSettled (λ r. p r ≡ true → is_any (ids_of (claimed s)) r.id ≡ true)
        s.tables.retries rest (listed p s.now s.tables.retries))

at_rest : (r : RetryEntry) → IsSettled r ⊎ (false ≡ true) → IsSettled r
at_rest r (inl h) = h
at_rest r (inr h) = cc

-- A pass takes entries and settles all of them.
process_retry_queue-settles :
    (http : Http) (s : Session Tables)
    → s.faults ≡ []
    → AllAtRest s.tables.retries
    → AllAtRest (process_retry_queue http s).1.tables.retries
      × ((process_retry_queue http s).1.faults ≡ [])
unfolding process_retry_queue claim_due
process_retry_queue-settles http s quiet rest =
    let s' : Session Tables = record s { tables = after_claim s; faults = later s.faults } in
    let granted : refusal s.faults ≡ none = rw quiet refl in
    let (among, still) =
      process_all-settles http (claimed s) s' (rw quiet refl) (claim_among s rest) in
    rw granted (All-map at_rest (process_all http (claimed s) s').1.tables.retries among, still)

-- Where the database refuses no statement and every entry is waiting, has succeeded or is a dead letter
-- at the start, so it is after any passes at any times, whatever the servers answer: no entry that was
-- taken is left in progress or in any other status.
pub work-AllAtRest :
    (http : Http) (times : List ℕ) (s : Session Tables)
    → s.faults ≡ []
    → AllAtRest s.tables.retries
    → AllAtRest (work http times s).tables.retries
unfolding work
work-AllAtRest http [] s quiet rest = rest
work-AllAtRest http (now ∷ times) s quiet rest =
    let (rest', quiet') = process_retry_queue-settles http (record s { now = now }) quiet rest in
    work-AllAtRest http times (process_retry_queue http (record s { now = now })).1 quiet' rest'
