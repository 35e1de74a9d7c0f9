-- ===== src/Token/Decay/Tests.antt =====
-- The decay of amos-core/src/token/decay.rs on concrete stakes, and the theorems at them.
use amos_platform.Prelude.{ℕ, ◌+◌, ◌-◌, ◌/◌, ◌≤◌, ◌≡◌, refl, min, List, [], ◌∷◌, Float, arith}
use amos_platform.Token.Decay.{
  VaultTier, StakeContext, calculate_dynamic_decay_rate, unclamped_rate, tenure_floor_bps,
  tenure_reduction_bps, vault_reduction_bps, bps_of, effective_annual_rate_bps, floor_amount,
  annual_to_daily_rate_bps, apply_daily_decay,
}
use amos_platform.Token.Decay.Rate.{decay_rate_range}
use amos_platform.Token.Decay.Balance.{IsSettled, apply-IsSettled}
use amos_platform.Token.Decay.Days.{run_days, total_decayed, run_days_conserves}

-- Numbers in place of `f64`; with these operations the rate of a day is 3 basis points.
abbrev whole_numbers : Float
whole_numbers = record {
  F64 = ℕ;
  of_u64 = λ n. n;
  to_u64 = λ x. x;
  add = λ x y. x + y;
  sub = λ x y. x - y;
  mul = λ x y. 3;
  div = λ x y. x / y;
  powf = λ x y. x;
  exp = λ x. x;
  ceil = λ x. x;
}

abbrev stake : StakeContext
stake = record {
  tenure_days = 400;
  current_balance = 100000;
  original_balance = 100000;
  vault_tier = VaultTier.unlocked;
  days_inactive = 100;
}

breakeven_rate :
    calculate_dynamic_decay_rate
      (record { monthly_revenue_cents = 1000000; monthly_costs_cents = 1000000 })
    ≡ 1000
unfolding calculate_dynamic_decay_rate unclamped_rate
breakeven_rate = refl

profitable_rate :
    calculate_dynamic_decay_rate
      (record { monthly_revenue_cents = 20000000; monthly_costs_cents = 5000000 })
    ≡ 200
unfolding calculate_dynamic_decay_rate unclamped_rate
profitable_rate = refl

one_day :
    let r = apply_daily_decay whole_numbers 1000 stake in
    (r.tokens_decayed ≡ 30)
    × (r.tokens_burned ≡ 3)
    × (r.tokens_recycled ≡ 27)
    × (r.new_balance ≡ 99970)
unfolding apply_daily_decay annual_to_daily_rate_bps effective_annual_rate_bps bps_of floor_amount
    tenure_floor_bps tenure_reduction_bps vault_reduction_bps
one_day = (refl, refl, refl, refl)

decay_rate_range_example :
    let rate =
      calculate_dynamic_decay_rate
        (record { monthly_revenue_cents = 7; monthly_costs_cents = 90 }) in
    (200 ≤ rate) × (rate ≤ 1500)
decay_rate_range_example = decay_rate_range 7 90

abbrev locked : StakeContext
locked = record stake { tenure_days = 900; vault_tier = VaultTier.gold }

apply-IsSettled_example : IsSettled stake (apply_daily_decay whole_numbers 1000 stake)
apply-IsSettled_example = apply-IsSettled whole_numbers 1000 stake

abbrev rates : List ℕ
rates = 1000 ∷ 1200 ∷ 900 ∷ []

run_days_conserves_example :
    (total_decayed whole_numbers rates stake + (run_days whole_numbers rates stake).current_balance
      ≡ 100000)
    × (min 100000 (floor_amount stake) ≤ (run_days whole_numbers rates stake).current_balance)
    × ((run_days whole_numbers rates stake).tenure_days ≡ 403)
run_days_conserves_example = run_days_conserves whole_numbers rates stake (omega arith)
