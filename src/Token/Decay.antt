-- ===== src/Token/Decay.antt =====
-- amos-core/src/token/decay.rs: the dynamic decay rate, its reductions, and one day of decay of one
-- stake. The rate of a day is computed in `f64`, which is a parameter.
pub mod Rate
pub mod Balance
pub mod Days
mod Tests
use amos_platform.Prelude.{
  ℕ, ◌+◌, ◌-◌, ◌*◌, ◌/◌, max, Bool, true, false, Option, none, some, [], ◌∷◌, ltb, leb, ◌==◌,
  if◌then◌else◌, checked_mul, saturating_sub, unwrap_or, ℤ, pos, pos_part, ◌-ℤ◌, mul_ℕ, div_ℕ,
  max_ℤ, min_ℤ, Float, Message, lit, number, literal,
}
use amos_platform.Token.Economics.{
  bps_denominator, base_decay_rate_bps, min_decay_rate_bps, max_decay_rate_bps,
  default_decay_rate_bps, decay_profit_multiplier_bps, new_stake_grace_period_days,
  decay_burn_portion_bps, tenure_floor_year_0_bps, tenure_floor_year_1_bps, tenure_floor_year_2_bps,
  tenure_floor_year_5_bps, tenure_reduction_year_0_bps, tenure_reduction_year_1_bps,
  tenure_reduction_year_2_bps, tenure_reduction_year_5_bps, vault_bronze_reduction_bps,
  vault_silver_reduction_bps, vault_gold_reduction_bps, vault_permanent_reduction_bps,
}

pub record PlatformEconomics : Type 0 where
  pub monthly_revenue_cents : ℕ
  pub monthly_costs_cents : ℕ

-- `VaultTier::None` is `unlocked`.
pub data VaultTier : Type 0 where
  unlocked bronze silver gold permanent : VaultTier

pub record StakeContext : Type 0 where
  pub tenure_days : ℕ
  pub current_balance : ℕ
  pub original_balance : ℕ
  pub vault_tier : VaultTier
  pub days_inactive : ℕ

pub record DecayResult : Type 0 where
  pub tokens_decayed : ℕ
  pub tokens_burned : ℕ
  pub tokens_recycled : ℕ
  pub new_balance : ℕ
  pub effective_rate_bps : ℕ
  pub skipped : Bool
  pub skip_reason : Option Message

-- The value that is clamped: base rate less the adjustment, in `i128`.
unclamped_rate : ℕ → ℕ → ℤ
unclamped_rate revenue costs =
    let profit_ratio_x10000 : ℤ = div_ℕ (mul_ℕ (pos revenue -ℤ pos costs) 10000) costs in
    let adjustment : ℤ = div_ℕ (mul_ℕ profit_ratio_x10000 decay_profit_multiplier_bps) 10000 in
    pos base_decay_rate_bps -ℤ adjustment

-- The clamped value is not negative, so `as u64` keeps it.
pub calculate_dynamic_decay_rate : PlatformEconomics → ℕ
calculate_dynamic_decay_rate economics =
    if economics.monthly_costs_cents == 0
    then default_decay_rate_bps
    else pos_part (
        min_ℤ
          (max_ℤ (unclamped_rate economics.monthly_revenue_cents economics.monthly_costs_cents)
            (pos min_decay_rate_bps))
          (pos max_decay_rate_bps))

-- `match years { 0 => …, 1 => …, 2..=4 => …, _ => … }`
by_years : ℕ → ℕ → ℕ → ℕ → ℕ → ℕ
by_years years a b c d =
    if years == 0 then a else if years == 1 then b else if leb years 4 then c else d

pub tenure_floor_bps : ℕ → ℕ
unfolding by_years
tenure_floor_bps tenure_days =
    by_years (tenure_days / 365) tenure_floor_year_0_bps tenure_floor_year_1_bps
      tenure_floor_year_2_bps tenure_floor_year_5_bps

pub tenure_reduction_bps : ℕ → ℕ
unfolding by_years
tenure_reduction_bps tenure_days =
    by_years (tenure_days / 365) tenure_reduction_year_0_bps tenure_reduction_year_1_bps
      tenure_reduction_year_2_bps tenure_reduction_year_5_bps

pub vault_reduction_bps : VaultTier → ℕ
vault_reduction_bps VaultTier.unlocked = 0
vault_reduction_bps VaultTier.bronze = vault_bronze_reduction_bps
vault_reduction_bps VaultTier.silver = vault_silver_reduction_bps
vault_reduction_bps VaultTier.gold = vault_gold_reduction_bps
vault_reduction_bps VaultTier.permanent = vault_permanent_reduction_bps

-- `x.checked_mul(bps).unwrap_or(0) / BPS_DENOMINATOR`
pub bps_of : ℕ → ℕ → ℕ
bps_of x bps = unwrap_or (checked_mul x bps) 0 / bps_denominator

pub effective_annual_rate_bps : ℕ → StakeContext → ℕ
effective_annual_rate_bps base_rate_bps context =
    let after_tenure : ℕ =
      bps_of base_rate_bps (bps_denominator - tenure_reduction_bps context.tenure_days) in
    let after_vault : ℕ =
      bps_of after_tenure (bps_denominator - vault_reduction_bps context.vault_tier) in
    max after_vault min_decay_rate_bps

-- A result that leaves the balance alone.
abbrev skip : StakeContext → ℕ → Message → DecayResult
skip context rate reason = record {
  tokens_decayed = 0;
  tokens_burned = 0;
  tokens_recycled = 0;
  new_balance = context.current_balance;
  effective_rate_bps = rate;
  skipped = true;
  skip_reason = some reason;
}

-- The decay below the grace period and above the floor, by the rate of a day.
decay_above_floor : StakeContext → ℕ → ℕ → ℕ → DecayResult
decay_above_floor context floor_amount effective_annual daily_rate_bps =
    let decay_amount : ℕ = max (bps_of context.current_balance daily_rate_bps) 1 in
    let new_balance : ℕ = max (saturating_sub context.current_balance decay_amount) floor_amount in
    let actual_decay : ℕ = context.current_balance - new_balance in
    let burned : ℕ = bps_of actual_decay decay_burn_portion_bps in
    if actual_decay == 0
    then skip context effective_annual (literal "Decay amount rounded to zero")
    else record {
      tokens_decayed = actual_decay;
      tokens_burned = burned;
      tokens_recycled = saturating_sub actual_decay burned;
      new_balance = new_balance;
      effective_rate_bps = effective_annual;
      skipped = false;
      skip_reason = none;
    }

-- The amount below which decay does not go.
pub floor_amount : StakeContext → ℕ
floor_amount context = bps_of context.original_balance (tenure_floor_bps context.tenure_days)

module _ (f : Float) where
  open f use {of_u64, to_u64, sub, mul, div, powf, ceil}

  pub annual_to_daily_rate_bps : ℕ → ℕ
  annual_to_daily_rate_bps annual_bps =
      let annual_frac = div (of_u64 annual_bps) (of_u64 bps_denominator) in
      let daily_frac =
        sub (of_u64 1) (powf (sub (of_u64 1) annual_frac) (div (of_u64 1) (of_u64 365))) in
      to_u64 (ceil (mul daily_frac (of_u64 bps_denominator)))

  pub apply_daily_decay : ℕ → StakeContext → DecayResult
  unfolding decay_above_floor
  apply_daily_decay base_annual_rate_bps context =
      let effective_annual : ℕ = effective_annual_rate_bps base_annual_rate_bps context in
      if ltb context.tenure_days new_stake_grace_period_days
      then skip context 0 (
          lit "Within grace period ("
          ∷ number context.tenure_days
          ∷ lit " of "
          ∷ number new_stake_grace_period_days
          ∷ lit " days)"
          ∷ [])
      else if leb context.current_balance (floor_amount context)
      then skip context 0 (literal "At decay floor")
      else decay_above_floor context (floor_amount context) effective_annual
          (annual_to_daily_rate_bps effective_annual)
