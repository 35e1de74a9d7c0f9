-- ===== src/Token/Decay/Balance.antt =====
-- What `apply_daily_decay` of amos-core/src/token/decay.rs does to one stake, for every `f64`.
use amos_platform.Prelude.{
  ℕ, ◌+◌, ◌-◌, ◌/◌, ◌≤◌, ◌≡◌, true, false, arith, min, max, Float, ltb, leb, ◌||◌, ◌⊎◌,
}
use amos_platform.Token.Decay.{
  StakeContext, DecayResult, apply_daily_decay, floor_amount, bps_of, effective_annual_rate_bps,
  annual_to_daily_rate_bps,
}
use amos_platform.Token.Decay.Rate.{bps_of-le, bps_of_lem, bps_safe}

-- The books of one day: nothing is lost, nothing goes below the floor, and a skipped day is one
-- that takes nothing and says why.
pub record IsSettled (s : StakeContext) (r : DecayResult) : Type 0 where
  pub conserved : r.tokens_decayed + r.new_balance ≡ s.current_balance
  pub split : r.tokens_burned + r.tokens_recycled ≡ r.tokens_decayed
  pub kept : min s.current_balance (floor_amount s) ≤ r.new_balance
  pub taken : (r.skipped ≡ false) ⊎ (r.tokens_decayed ≡ 0)
  pub charged : (r.skipped ≡ true) ⊎ (1 ≤ r.tokens_decayed)

module _ (f : Float) where
  -- Every day of decay keeps the books: what is taken and what is left make the old balance, what is
  -- burned and what is recycled make what is taken, the balance stays at the floor or, if it was
  -- below, where it was, and a day is skipped exactly when nothing is taken.
  pub apply-IsSettled : (base : ℕ) (s : StakeContext) → IsSettled s (apply_daily_decay f base s)
  unfolding apply_daily_decay
  apply-IsSettled base s =
      let daily = annual_to_daily_rate_bps f (effective_annual_rate_bps base s) in
      let taken =
        s.current_balance
        - max (s.current_balance - max (bps_of s.current_balance daily) 1) (floor_amount s) in
      ground (arith, bps_of-le taken 1000)

  -- A day is skipped exactly within the grace period or at the floor: otherwise at least one token
  -- is taken, so the third reason to skip never occurs.
  pub apply_skipped :
      (base : ℕ) (s : StakeContext)
      → (apply_daily_decay f base s).skipped
        ≡ (ltb s.tenure_days 365 || leb s.current_balance (floor_amount s))
  unfolding apply_daily_decay
  apply_skipped base s = ground arith

  -- Of what is taken a tenth, rounded down, is burned, for every balance whose products fit.
  pub apply_burns_tenth :
      (base : ℕ) (s : StakeContext)
      → s.current_balance ≤ bps_safe
      → (apply_daily_decay f base s).tokens_burned
        ≡ (apply_daily_decay f base s).tokens_decayed / 10
  unfolding apply_daily_decay
  apply_burns_tenth base s h =
      let daily = annual_to_daily_rate_bps f (effective_annual_rate_bps base s) in
      let taken =
        s.current_balance
        - max (s.current_balance - max (bps_of s.current_balance daily) 1) (floor_amount s) in
      ground (arith, bps_of_lem taken 1000)
