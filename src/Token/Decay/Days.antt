-- ===== src/Token/Decay/Days.antt =====
-- Many days of decay of one stake, by repeated calls of `apply_daily_decay`.
use amos_platform.Prelude.{ℕ, ◌+◌, ◌≤◌, ◌≡◌, min, List, [], ◌∷◌, length, Float, arith}
use amos_platform.Token.Decay.{StakeContext, apply_daily_decay, floor_amount, tenure_floor_bps}
use amos_platform.Token.Decay.Rate.{bps_safe, bps_of_mono, tenure_monotone}
use amos_platform.Token.Decay.Balance.{apply-IsSettled}

module _ (f : Float) where
  -- The stake on the next day.
  abbrev pub next_day : ℕ → StakeContext → StakeContext
  next_day base s = record s {
    current_balance = (apply_daily_decay f base s).new_balance;
    tenure_days = s.tenure_days + 1;
  }

  -- One call a day, at that day's base rate.
  pub run_days : List ℕ → StakeContext → StakeContext
  run_days [] s = s
  run_days (base ∷ rates) s = run_days rates (next_day base s)

  -- What those days take, in total.
  pub total_decayed : List ℕ → StakeContext → ℕ
  total_decayed [] s = 0
  total_decayed (base ∷ rates) s =
      (apply_daily_decay f base s).tokens_decayed + total_decayed rates (next_day base s)

  floor_grows :
      (base : ℕ) (s : StakeContext)
      → s.original_balance ≤ bps_safe
      → floor_amount s ≤ floor_amount (next_day base s)
  unfolding floor_amount
  floor_grows base s h =
      let t = tenure_monotone s.tenure_days (s.tenure_days + 1) (omega arith) in
      bps_of_mono s.original_balance s.original_balance (tenure_floor_bps s.tenure_days)
        (tenure_floor_bps (s.tenure_days + 1)) (omega arith) t.0 h (omega arith)

  -- For an original balance whose products fit in a `u64`, over any number of days, at any rates: what
  -- is taken and what is left make the first balance, the balance never falls below the floor of the
  -- first day, unless it began below it, and the tenure grows by a day a day.
  pub run_days_conserves :
      (rates : List ℕ) (s : StakeContext)
      → s.original_balance ≤ bps_safe
      → (total_decayed rates s + (run_days rates s).current_balance ≡ s.current_balance)
        × (min s.current_balance (floor_amount s) ≤ (run_days rates s).current_balance)
        × ((run_days rates s).tenure_days ≡ s.tenure_days + length rates)
  unfolding run_days total_decayed
  run_days_conserves [] s h = omega arith
  run_days_conserves (base ∷ rates) s h = omega (
    arith,
    apply-IsSettled f base s,
    floor_grows base s h,
    run_days_conserves rates (next_day base s) h,
  )
