-- ===== src/Token/Revenue.antt =====
-- amos-core/src/token/revenue.rs: the 50/40/10 split of the protocol fee, and one holder's claim.
pub mod Split
pub mod Claims
mod Tests
use amos_platform.Prelude.{
  ℕ, Option, none, some, [], ◌∷◌, ltb, ◌==◌, and_then, if◌then◌else◌, checked_mul, checked_sub,
  checked_div, lit, number, literal,
}
use amos_platform.Error.{
  Result, ok, ◌>>=◌, ◌>>◌, fail_if, ok_or, validation, arithmetic_overflow, no_revenue_to_claim,
  insufficient_stake,
}
use amos_platform.Token.Economics.{
  bps_denominator, fee_holder_share_bps, fee_burn_share_bps, min_stake_amount,
}

pub record ProtocolFeeDistribution : Type 0 where
  pub total_amount : ℕ
  pub holder_amount : ℕ
  pub burn_amount : ℕ
  pub labs_amount : ℕ

pub record HolderClaim : Type 0 where
  pub stake_amount : ℕ
  pub total_eligible_stake : ℕ
  pub pool_balance : ℕ
  pub payout : ℕ
  pub share_bps : ℕ

pub checked_bps_mul : ℕ → ℕ → Result ℕ
checked_bps_mul amount bps =
    ok_or (and_then (checked_mul amount bps) (λ v. checked_div v bps_denominator)) (
      arithmetic_overflow (
        lit "bps mul: "
        ∷ number amount
        ∷ lit " * "
        ∷ number bps
        ∷ lit " / "
        ∷ number bps_denominator
        ∷ []))

pub split_protocol_fee : ℕ → Result ProtocolFeeDistribution
unfolding checked_bps_mul
split_protocol_fee amount = do
  fail_if (amount == 0) (validation (literal "Amount must be > 0"))
  holder_amount ← checked_bps_mul amount fee_holder_share_bps
  burn_amount ← checked_bps_mul amount fee_burn_share_bps
  labs_amount ←
      ok_or (and_then (checked_sub amount holder_amount) (λ v. checked_sub v burn_amount))
        (arithmetic_overflow (literal "Protocol fee split remainder"))
  ok (record {
    total_amount = amount;
    holder_amount = holder_amount;
    burn_amount = burn_amount;
    labs_amount = labs_amount;
  })

pub calculate_holder_claim : ℕ → ℕ → ℕ → Result HolderClaim
calculate_holder_claim stake_amount total_eligible_stake pool_balance = do
  fail_if (total_eligible_stake == 0) no_revenue_to_claim
  fail_if (ltb stake_amount min_stake_amount) (insufficient_stake stake_amount min_stake_amount)
  weighted ←
      ok_or (checked_mul stake_amount bps_denominator)
        (arithmetic_overflow (literal "holder share calculation"))
  share_bps ←
      ok_or (checked_div weighted total_eligible_stake)
        (arithmetic_overflow (literal "holder share division"))
  numerator ←
      ok_or (checked_mul pool_balance share_bps)
        (arithmetic_overflow (literal "holder payout calculation"))
  payout ←
      ok_or (checked_div numerator bps_denominator)
        (arithmetic_overflow (literal "holder payout division"))
  ok (record {
    stake_amount = stake_amount;
    total_eligible_stake = total_eligible_stake;
    pool_balance = pool_balance;
    payout = payout;
    share_bps = share_bps;
  })
