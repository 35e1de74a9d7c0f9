-- ===== src/Token/Emission/Award.antt =====
-- What one award of amos-core/src/token/emission.rs pays, and when there is none.
use amos_platform.Prelude.{
  ℕ, ◌+◌, ◌-◌, ◌*◌, ◌/◌, ◌≤◌, ◌<◌, ◌≡◌, refl, ◌⊎◌, some, arith, lit, number, [], ◌∷◌,
  share-le_amount, mul_mono,
}
use amos_platform.Error.{AmosError, ok, err, validation, status_code}
use amos_platform.Token.Emission.{
  ContributionType, BountyAward, multiplier_bps, to_u8, from_u8, counted_points, share_of_pool,
  reviewer_share, calculate_bounty_award,
}

-- `from_u8` reads back every discriminant, and answers only with the type whose discriminant it is.
pub from_u8-to_u8 : (t : ContributionType) → from_u8 (to_u8 t) ≡ some t
unfolding from_u8 to_u8
from_u8-to_u8 ContributionType.bug_fix = refl
from_u8-to_u8 _ = refl

pub to_u8-from_u8 : (v : ℕ) (t : ContributionType) → from_u8 v ≡ some t → to_u8 t ≡ v
unfolding from_u8 to_u8
to_u8-from_u8 v t h = ground arith

-- An award that is paid: the parts add up, the pool is not overdrawn, the reviewer has a twentieth.
pub record IsFair (raw points emission before : ℕ) (t : ContributionType) (a : BountyAward)
    : Type 0 where
  pub adjusted : a.adjusted_points ≡ raw * multiplier_bps t / 10000
  pub counted : a.total_points_today ≡ points + a.adjusted_points
  pub parts : a.contributor_tokens + a.reviewer_tokens ≡ a.total_tokens
  pub reviewer : a.reviewer_tokens ≡ a.total_tokens * 500 / 10000
  pub share : a.total_tokens ≡ a.adjusted_points * (emission - before) / a.total_points_today
  pub within_pool : a.total_tokens ≤ emission - before

-- An award that is paid follows the formula: the points by the multiplier of their kind and added to
-- the day's, their share of what is left of the emission and no more than that, a twentieth of it
-- for the reviewer and the rest for the contributor.
pub award-IsFair :
    (raw points emission before : ℕ) (t : ContributionType) (a : BountyAward)
    → calculate_bounty_award raw t points emission before ≡ ok a
    → IsFair raw points emission before t a
unfolding calculate_bounty_award counted_points share_of_pool reviewer_share
award-IsFair raw points emission before t a h =
    let adjusted = raw * multiplier_bps t / 10000 in
    ground (arith, share-le_amount adjusted (points + adjusted) (emission - before))

-- The award by its formulas, with no overflow in the way.
abbrev expected : ℕ → ℕ → ℕ → ℕ → ContributionType → BountyAward
expected raw points emission before t =
    let adjusted : ℕ = raw * multiplier_bps t / 10000 in
    let tokens : ℕ = adjusted * (emission - before) / (points + adjusted) in
    record {
      raw_points = raw;
      adjusted_points = adjusted;
      total_points_today = points + adjusted;
      daily_emission = emission;
      contributor_tokens = tokens - tokens * 500 / 10000;
      reviewer_tokens = tokens * 500 / 10000;
      total_tokens = tokens;
    }

multiplier_range : (t : ContributionType) → multiplier_bps t ≤ 13000
unfolding multiplier_bps
multiplier_range ContributionType.bug_fix = omega arith
multiplier_range _ = omega arith

-- Points outside [1, 2000] are refused, as a client error.
pub award_rejects :
    (raw points emission before : ℕ) (t : ContributionType)
    → (raw ≡ 0) ⊎ (2000 < raw)
    → (e : AmosError) × (calculate_bounty_award raw t points emission before ≡ err e)
      × (status_code e ≡ 422)
unfolding calculate_bounty_award counted_points status_code
award_rejects raw points emission before t h = (
  validation (lit "Points must be in [1, " ∷ number 2000 ∷ lit "], got " ∷ number raw ∷ []),
  ground arith,
  refl,
)

-- In the ranges of the schedule nothing overflows and the award is paid.
pub award_total :
    (raw points emission before : ℕ) (t : ContributionType)
    → 1 ≤ raw
    → raw ≤ 2000
    → points ≤ 1000000000000
    → emission ≤ 16000
    → (a : BountyAward) × (calculate_bounty_award raw t points emission before ≡ ok a)
unfolding calculate_bounty_award counted_points share_of_pool reviewer_share
award_total raw points emission before t lo hi p e = (expected raw points emission before t, total)
  where
    small : raw * multiplier_bps t ≤ 26000000
    small = grind (arith, multiplier_range t)

    adjusted_small : raw * multiplier_bps t / 10000 ≤ 2600
    adjusted_small = omega (arith, small)

    product : raw * multiplier_bps t / 10000 * (emission - before) ≤ 2600 * 16000
    product =
        mul_mono (raw * multiplier_bps t / 10000) (emission - before) 2600 16000 adjusted_small
          (omega arith)

    tokens :
        raw
          * multiplier_bps t
          / 10000
          * (emission - before)
          / (points + raw * multiplier_bps t / 10000)
        ≤ emission - before
    tokens =
        share-le_amount (raw * multiplier_bps t / 10000) (points + raw * multiplier_bps t / 10000)
          (emission - before) (omega arith)

    total :
        calculate_bounty_award raw t points emission before
        ≡ ok (expected raw points emission before t)
    total = ground (arith, small, adjusted_small, product, tokens)
