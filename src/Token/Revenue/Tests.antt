-- ===== src/Token/Revenue/Tests.antt =====
-- The fee split and the claims of amos-core/src/token/revenue.rs at concrete amounts.
use amos_platform.Prelude.{◌≤◌, ◌≡◌, refl, [], ◌∷◌, arith}
use amos_platform.Error.{ok}
use amos_platform.Token.Revenue.{
  ProtocolFeeDistribution, HolderClaim, split_protocol_fee, calculate_holder_claim,
}
use amos_platform.Token.Revenue.Split.{IsSplit, split_protocol_fee-IsSplit}
use amos_platform.Token.Revenue.Claims.{total_paid, total_paid-le_pool}

abbrev odd_split : ProtocolFeeDistribution
odd_split = record { total_amount = 999; holder_amount = 499; burn_amount = 399; labs_amount = 101 }

odd_is_split : split_protocol_fee 999 ≡ ok odd_split
unfolding split_protocol_fee
odd_is_split = refl

split_protocol_fee-IsSplit_example : IsSplit 999 odd_split
split_protocol_fee-IsSplit_example = split_protocol_fee-IsSplit 999 odd_split odd_is_split

abbrev tenth : HolderClaim
tenth = record {
  stake_amount = 1000;
  total_eligible_stake = 10000;
  pool_balance = 50000;
  payout = 5000;
  share_bps = 1000;
}

tenth_is_paid : calculate_holder_claim 1000 10000 50000 ≡ ok tenth
unfolding calculate_holder_claim
tenth_is_paid = refl

total_paid-le_pool_example : total_paid 10000 50000 (1000 ∷ 50 ∷ 3333 ∷ []) ≤ 50000
total_paid-le_pool_example =
    total_paid-le_pool 10000 50000 (1000 ∷ 50 ∷ 3333 ∷ []) (omega arith) (omega arith)
