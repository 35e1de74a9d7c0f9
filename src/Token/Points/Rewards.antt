-- ===== src/Token/Points/Rewards.antt =====
-- The split of a day's emission in amos-core/src/token/points.rs.
use amos_platform.Prelude.{
  ℕ, ◌+◌, ◌*◌, ◌/◌, ◌≤◌, ◌<◌, ◌≡◌, refl, ◌∙◌, ◌==◌, Bool-cases, inl, inr, literal, ap, List, [],
  ◌∷◌, map, filter, sum_by, arith, u64_max, div-mul-le, mul_mono, cancel_factor, if◌then◌else◌,
}
use amos_platform.Error.{ok, err, passes-eq-ok, ok-injective, fail_if, validation}
use amos_platform.Token.Points.{
  ContributorPoints, DailyPointsSnapshot, calculate_token_reward, reward_entries,
  calculate_daily_rewards, new_snapshot,
}
use amos_platform.Token.Points.Totals.{points_of, id_and_points, has_points, new_snapshot_exact}

abbrev pub amount : ℕ × ℕ → ℕ
amount e = e.1

abbrev pub holder : ℕ × ℕ → ℕ
holder e = e.0

-- One reward: its value, and when there is none.
reward_value : (p t e : ℕ) {r : ℕ} → calculate_token_reward p t e ≡ ok r → (r ≡ p * e / t) × (0 < t)
unfolding calculate_token_reward
reward_value p t e h = ground arith

bound_step :
    (p t e r paid points : ℕ)
    → r ≡ p * e / t
    → paid * t ≤ points * e
    → (r + paid) * t ≤ (p + points) * e
bound_step p t e r paid points h k = rw h (omega (arith, div-mul-le (p * e) t))

-- The rewards, with what they are bounded by.
rewards_bound :
    (t e : ℕ) (entries rs : List (ℕ × ℕ))
    → reward_entries t e entries ≡ ok rs
    → (map holder rs ≡ map holder entries) × (sum_by amount rs * t ≤ sum_by amount entries * e)
unfolding reward_entries
rewards_bound t e [] rs h = ground arith
rewards_bound t e ((id, p) ∷ entries) rs h =
    let (r, first, tail) = passes-eq-ok (calculate_token_reward p t e) _ h in
    let (rest, second, whole) = passes-eq-ok (reward_entries t e entries) _ tail in
    let ih = rewards_bound t e entries rest second in
    rw (← ok-injective ((id, r) ∷ rest) rs whole)
      (ap (λ hs. id ∷ hs) ih.0, bound_step p t e r _ _ (reward_value p t e first).0 ih.1)

rewards_within :
    (t e : ℕ) (entries rs : List (ℕ × ℕ))
    → 0 < t
    → sum_by amount entries ≤ t
    → reward_entries t e entries ≡ ok rs
    → sum_by amount rs ≤ e
rewards_within t e entries rs pos fits h = cancel_factor (sum_by amount rs) e t pos (
    omega (
      arith,
      rewards_bound t e entries rs h,
      mul_mono (sum_by amount entries) e t e fits (omega arith),
    ))

-- The rewards of a day go to the snapshot's contributors, in its order, and where the listed points
-- are at most the total they are together at most the day's emission.
pub daily_rewards_within :
    (s : DailyPointsSnapshot) (e : ℕ) (rs : List (ℕ × ℕ))
    → sum_by amount s.entries ≤ s.total_points
    → calculate_daily_rewards s e ≡ ok rs
    → (map holder rs ≡ map holder s.entries) × (sum_by amount rs ≤ e)
unfolding calculate_daily_rewards
daily_rewards_within s e rs fits h =
    let (u, guarded, body) = passes-eq-ok (fail_if (s.total_points == 0) _) _ h in
    (
      (rewards_bound s.total_points e s.entries rs body).0,
      rewards_within s.total_points e s.entries rs (ground arith) fits body,
    )

sum-positive :
    (cs : List ContributorPoints)
    → sum_by amount (map id_and_points (filter has_points cs)) ≡ sum_by points_of cs
sum-positive [] = refl
sum-positive (c ∷ cs) = ground (arith, sum-positive cs)

-- Where the points of all contributors fit in a `u64`, the rewards from the day's snapshot are
-- together at most the emission.
pub snapshot_rewards_within :
    (day e : ℕ) (cs : List ContributorPoints) (rs : List (ℕ × ℕ))
    → sum_by points_of cs ≤ u64_max
    → calculate_daily_rewards (new_snapshot day cs) e ≡ ok rs
    → (map holder rs ≡ map holder (map id_and_points (filter has_points cs)))
      × (sum_by amount rs ≤ e)
snapshot_rewards_within day e cs rs fits h =
    let exact = new_snapshot_exact day cs in
    let total : sum_by amount (new_snapshot day cs).entries ≡ sum_by points_of cs =
      rw exact.0 (sum-positive cs) in
    let within = daily_rewards_within (new_snapshot day cs) e rs (omega arith) h in
    (within.0 ∙ ap (map holder) exact.0, within.1)

-- Rewards for which no product overflows.
abbrev pub rewards_of : ℕ → ℕ → List (ℕ × ℕ) → List (ℕ × ℕ)
rewards_of t e [] = []
rewards_of t e ((id, p) ∷ entries) = (id, p * e / t) ∷ rewards_of t e entries

reward_total : (p t e : ℕ) → 0 < t → p * e ≤ u64_max → calculate_token_reward p t e ≡ ok (p * e / t)
unfolding calculate_token_reward
reward_total p t e h k = ground arith

rewards_total :
    (t e : ℕ) (entries : List (ℕ × ℕ))
    → 0 < t
    → sum_by amount entries * e ≤ u64_max
    → reward_entries t e entries ≡ ok (rewards_of t e entries)
unfolding reward_entries
rewards_total t e [] h k = refl
rewards_total t e ((id, p) ∷ entries) h k =
    rw (reward_total p t e h (omega arith), rewards_total t e entries h (omega arith))

-- Every day that counts a point, and whose points times emission fit in a `u64`, is paid out, each
-- contributor by the formula; a day without points is refused.
pub daily_rewards_total :
    (s : DailyPointsSnapshot) (e : ℕ)
    → sum_by amount s.entries * e ≤ u64_max
    → calculate_daily_rewards s e ≡ (
        if s.total_points == 0
        then err (validation (literal "snapshot.total_points must be greater than zero"))
        else ok (rewards_of s.total_points e s.entries))
unfolding calculate_daily_rewards
daily_rewards_total s e k = elim (Bool-cases (s.total_points == 0)) [
  | inl z ↦ rw z
  | inr n ↦ rw n (rewards_total s.total_points e s.entries (ground arith) k)
]
