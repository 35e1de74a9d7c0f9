-- ===== src/TaskQueue/Claims.antt =====
-- `claim_bounty` of amos-harness/src/task_queue/mod.rs: a bounty has one winner.
use amos_platform.Prelude.{
  ℕ, suc, ◌≤◌, ◌≡◌, refl, ap, Bool-cases, eq_iff, unwrap_or, ◌≢◌, Bool, true, false, ◌&&◌, none,
  some, List, [], ◌∷◌, find, find-update_where-none, find-update_where_apart, update_where-none,
  find_passes, inl, inr, ◌==◌, arith, if◌then◌else◌,
}
use amos_platform.Error.{Result, ok, err}
use amos_platform.Database.{Session, refusal}
use amos_platform.TaskQueue.Types.{Task, TaskStatus, TaskCategory, parse_status, parse_category}
use amos_platform.TaskQueue.Rows.{stored_time, TaskRow, Tables, into_task}
use amos_platform.TaskQueue.Queue.{is_open_bounty, claimed_by, claim_bounty}

-- What the claim looks for.
abbrev pub is_claimable : ℕ → TaskRow → Bool
is_claimable task_id r = r.id == task_id && is_open_bounty r

claimed_is_taken :
    (id agent now : ℕ) (r : TaskRow) → is_claimable id (claimed_by agent now r) ≡ false
claimed_is_taken id agent now r = ground arith

-- The bounty can no longer be claimed.
abbrev pub IsTaken : ℕ → Session Tables → Type 0
IsTaken id s = find (is_claimable id) s.tables.tasks ≡ none

abbrev pub is_ok {ℓ} : {A : Type ℓ} → Result A → Bool
is_ok (ok _) = true
is_ok (err _) = false

claim-IsTaken :
    (id agent : ℕ) (s : Session Tables)
    → IsTaken id s
    → (is_ok (claim_bounty id agent s).0 ≡ false) × (IsTaken id (claim_bounty id agent s).1)
unfolding claim_bounty
claim-IsTaken id agent s h = ground (
  arith,
  find-update_where-none (is_claimable id) (claimed_by agent (stored_time s.now)) s.tables.tasks
      (claimed_is_taken id agent (stored_time s.now)),
)

claim_ok-IsTaken :
    (id agent : ℕ) (s : Session Tables)
    → is_ok (claim_bounty id agent s).0 ≡ true
    → IsTaken id (claim_bounty id agent s).1
unfolding claim_bounty
claim_ok-IsTaken id agent s h = ground (
  arith,
  find-update_where-none (is_claimable id) (claimed_by agent (stored_time s.now)) s.tables.tasks
      (claimed_is_taken id agent (stored_time s.now)),
)

-- Claims of one bounty by several agents, each at its own time, in the order in which the database
-- takes them; the number of those that succeed.
unfoldable pub winners : ℕ → List (ℕ × ℕ) → Session Tables → ℕ
winners id [] s = 0
winners id ((agent, now) ∷ claims) s =
    let (r, s') = claim_bounty id agent (record s { now = now }) in
    let rest = winners id claims s' in if is_ok r then suc rest else rest

taken_no_winner :
    (id : ℕ) (claims : List (ℕ × ℕ)) (s : Session Tables) → IsTaken id s → winners id claims s ≡ 0
unfolding winners
taken_no_winner id [] s h = refl
taken_no_winner id ((agent, now) ∷ claims) s h =
    let (fails, still) = claim-IsTaken id agent (record s { now = now }) h in
    rw fails (taken_no_winner id claims (claim_bounty id agent (record s { now = now })).1 still)

-- However many agents claim a bounty, at whatever times and with whatever refusals of the database,
-- at most one of them gets it.
pub winners-le-one : (id : ℕ) (claims : List (ℕ × ℕ)) (s : Session Tables) → winners id claims s ≤ 1
unfolding winners
winners-le-one id [] s = omega arith
winners-le-one id ((agent, now) ∷ claims) s =
    let s₁ : Session Tables = record s { now = now } in
    let s₂ : Session Tables = (claim_bounty id agent s₁).1 in
    elim (Bool-cases (is_ok (claim_bounty id agent s₁).0)) [
      | inl won ↦
          rw won (omega (arith, taken_no_winner id claims s₂ (claim_ok-IsTaken id agent s₁ won)))
      | inr lost ↦ rw lost (winners-le-one id claims s₂)
    ]

-- What a claim answers: the task as the claiming agent's.
pub record IsClaimed (id agent now : ℕ) (t : Task) : Type 0 where
  pub same : t.id ≡ id
  pub status : t.status ≡ TaskStatus.assigned
  pub category : t.category ≡ TaskCategory.external
  pub agent_set : t.assigned_to ≡ some agent
  pub time_set : t.assigned_at ≡ some now

claimable_facts :
    (id : ℕ) (r : TaskRow) → is_claimable id r ≡ true → (r.id ≡ id) × (r.category ≡ "external")
claimable_facts id r h = ground (arith, eq_iff r.category "external")

claimed_by-IsClaimed :
    (id agent now : ℕ) (r : TaskRow)
    → is_claimable id r ≡ true
    → IsClaimed id agent now (into_task (claimed_by agent now r))
unfolding into_task parse_status parse_category
claimed_by-IsClaimed id agent now r h =
    let (same, external) = claimable_facts id r h in
    record {
      same = same;
      status = refl;
      category = ap (λ c. unwrap_or (parse_category c) TaskCategory.internal) external;
      agent_set = refl;
      time_set = refl;
    }

-- Where an open external task with the id is in the table and the database does not refuse, a claim
-- succeeds; the answer is that task, assigned to the agent at this time.
pub claim_succeeds :
    (id agent : ℕ) (s : Session Tables) (r : TaskRow)
    → refusal s.faults ≡ none
    → find (is_claimable id) s.tables.tasks ≡ some r
    → (t : Task) × ((claim_bounty id agent s).0 ≡ ok t) × IsClaimed id agent (stored_time s.now) t
unfolding claim_bounty
claim_succeeds id agent s r quiet found = (
  into_task (claimed_by agent (stored_time s.now) r),
  ground arith,
  claimed_by-IsClaimed id agent (stored_time s.now) r
      (find_passes (is_claimable id) s.tables.tasks r found),
)

abbrev pub has_id : ℕ → TaskRow → Bool
has_id id r = r.id == id

-- A claim changes no other task, and one that fails changes none.
pub claim_others :
    (id other agent : ℕ) (s : Session Tables)
    → other ≢ id
    → find (has_id other) (claim_bounty id agent s).1.tables.tasks
      ≡ find (has_id other) s.tables.tasks
unfolding claim_bounty
claim_others id other agent s ne = ground (
  arith,
  find-update_where_apart (has_id other) (is_claimable id) (claimed_by agent (stored_time s.now))
      s.tables.tasks (λ r h. ground arith) (λ r h. ground arith),
)

pub claim_fails :
    (id agent : ℕ) (s : Session Tables)
    → is_ok (claim_bounty id agent s).0 ≡ false
    → (claim_bounty id agent s).1.tables.tasks ≡ s.tables.tasks
unfolding claim_bounty
claim_fails id agent s h = ground (
  arith,
  update_where-none (is_claimable id) (claimed_by agent (stored_time s.now)) s.tables.tasks,
)
