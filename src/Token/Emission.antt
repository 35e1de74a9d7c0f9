-- ===== src/Token/Emission.antt =====
-- amos-core/src/token/emission.rs: the daily emission pool and the award of one bounty.
pub mod Award
pub mod Day
mod Tests
use amos_platform.Prelude.{
  ℕ, ◌-◌, max, Bool, Option, none, some, [], ◌∷◌, ltb, ◌==◌, ◌||◌, if◌then◌else◌, checked_mul,
  checked_add, checked_div, saturating_sub, Float, lit, number, literal,
}
use amos_platform.Error.{Result, ok, ◌>>=◌, ◌>>◌, fail_if, ok_or, validation, arithmetic_overflow}
use amos_platform.Token.Economics.{
  bps_denominator, emission_ceiling, emission_floor, emission_midpoint_days, emission_k_scaled,
  max_bounty_points, reviewer_reward_bps, multiplier_bug_fix_bps, multiplier_feature_bps,
  multiplier_docs_bps, multiplier_content_bps, multiplier_support_bps, multiplier_testing_bps,
  multiplier_design_bps, multiplier_infra_bps,
}

pub record DailyEmission : Type 0 where
  pub day_index : ℕ
  pub emission : ℕ

pub record BountyAward : Type 0 where
  pub raw_points : ℕ
  pub adjusted_points : ℕ
  pub total_points_today : ℕ
  pub daily_emission : ℕ
  pub contributor_tokens : ℕ
  pub reviewer_tokens : ℕ
  pub total_tokens : ℕ

pub data ContributionType : Type 0 where
  bug_fix feature documentation content marketing : ContributionType
  support translation design testing infrastructure : ContributionType

pub multiplier_bps : ContributionType → ℕ
multiplier_bps ContributionType.bug_fix = multiplier_bug_fix_bps
multiplier_bps ContributionType.feature = multiplier_feature_bps
multiplier_bps ContributionType.documentation = multiplier_docs_bps
multiplier_bps ContributionType.translation = multiplier_docs_bps
multiplier_bps ContributionType.content = multiplier_content_bps
multiplier_bps ContributionType.marketing = multiplier_content_bps
multiplier_bps ContributionType.support = multiplier_support_bps
multiplier_bps ContributionType.testing = multiplier_testing_bps
multiplier_bps ContributionType.design = multiplier_design_bps
multiplier_bps ContributionType.infrastructure = multiplier_infra_bps

-- The discriminants of `#[repr(u8)]`.
pub to_u8 : ContributionType → ℕ
to_u8 ContributionType.bug_fix = 0
to_u8 ContributionType.feature = 1
to_u8 ContributionType.documentation = 2
to_u8 ContributionType.content = 3
to_u8 ContributionType.marketing = 4
to_u8 ContributionType.support = 5
to_u8 ContributionType.translation = 6
to_u8 ContributionType.design = 7
to_u8 ContributionType.testing = 8
to_u8 ContributionType.infrastructure = 9

pub from_u8 : ℕ → Option ContributionType
from_u8 val =
    if val == 0
    then some ContributionType.bug_fix
    else if val == 1
    then some ContributionType.feature
    else if val == 2
    then some ContributionType.documentation
    else if val == 3
    then some ContributionType.content
    else if val == 4
    then some ContributionType.marketing
    else if val == 5
    then some ContributionType.support
    else if val == 6
    then some ContributionType.translation
    else if val == 7
    then some ContributionType.design
    else if val == 8
    then some ContributionType.testing
    else if val == 9
    then some ContributionType.infrastructure
    else none

module _ (f : Float) where
  open f use {of_u64, to_u64, add, sub, mul, div, exp}

  pub sigmoid_daily_emission : ℕ → ℕ
  sigmoid_daily_emission elapsed_days =
      let ceiling = of_u64 emission_ceiling in
      let floor = of_u64 emission_floor in
      let k = div (of_u64 emission_k_scaled) (of_u64 10000) in
      let exponent = mul k (sub (of_u64 elapsed_days) (of_u64 emission_midpoint_days)) in
      let sigmoid = add floor (div (sub ceiling floor) (add (of_u64 1) (exp exponent))) in
      max (to_u64 sigmoid) emission_floor

  pub daily_emission_for_day : ℕ → DailyEmission
  daily_emission_for_day day_index = record {
    day_index = day_index;
    emission = sigmoid_daily_emission day_index;
  }

-- The share of the remaining pool, `0` where no points are counted.
share_of_pool : ℕ → ℕ → ℕ → Result ℕ
share_of_pool adjusted_points total_points remaining_emission =
    let paid = do
      numerator ←
          ok_or (checked_mul adjusted_points remaining_emission)
            (arithmetic_overflow (literal "bounty award numerator"))
      ok_or (checked_div numerator total_points)
          (arithmetic_overflow (literal "bounty award division"))
    in if ltb 0 total_points then paid else ok 0

-- What precedes the share: the adjusted points, and the points of the day with them.
counted_points : ℕ → ContributionType → ℕ → Result (ℕ × ℕ)
counted_points raw_points contribution_type total_points_today = do
  fail_if (raw_points == 0 || ltb max_bounty_points raw_points) (
      validation (
        lit "Points must be in [1, "
        ∷ number max_bounty_points
        ∷ lit "], got "
        ∷ number raw_points
        ∷ []))
  weighted ←
      ok_or (checked_mul raw_points (multiplier_bps contribution_type))
        (arithmetic_overflow (literal "contribution multiplier"))
  adjusted_points ←
      ok_or (checked_div weighted bps_denominator)
        (arithmetic_overflow (literal "contribution multiplier div"))
  total_points ←
      ok_or (checked_add total_points_today adjusted_points)
        (arithmetic_overflow (literal "total points accumulation"))
  ok (adjusted_points, total_points)

reviewer_share : ℕ → Result ℕ
reviewer_share total_tokens = do
  weighted ←
      ok_or (checked_mul total_tokens reviewer_reward_bps)
        (arithmetic_overflow (literal "reviewer reward"))
  ok_or (checked_div weighted bps_denominator) (arithmetic_overflow (literal "reviewer reward div"))

pub calculate_bounty_award : ℕ → ContributionType → ℕ → ℕ → ℕ → Result BountyAward
calculate_bounty_award raw_points contribution_type total_points_today daily_emission
      tokens_already_distributed_today =
    do
      (adjusted_points, total_points) ←
          counted_points raw_points contribution_type total_points_today
      let remaining_emission = saturating_sub daily_emission tokens_already_distributed_today
      total_tokens ← share_of_pool adjusted_points total_points remaining_emission
      reviewer_tokens ← reviewer_share total_tokens
      ok (record {
        raw_points = raw_points;
        adjusted_points = adjusted_points;
        total_points_today = total_points;
        daily_emission = daily_emission;
        contributor_tokens = saturating_sub total_tokens reviewer_tokens;
        reviewer_tokens = reviewer_tokens;
        total_tokens = total_tokens;
      })
