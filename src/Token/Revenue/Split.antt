-- ===== src/Token/Revenue/Split.antt =====
-- The split of the protocol fee in amos-core/src/token/revenue.rs.
use amos_platform.Prelude.{
  ℕ, ◌+◌, ◌-◌, ◌⊎◌, ◌*◌, ◌/◌, ◌≤◌, ◌<◌, ◌≡◌, arith, ◌==◌, if◌then◌else◌, literal, lit, number, [],
  ◌∷◌, u64_max,
}
use amos_platform.Error.{ok, err, validation, arithmetic_overflow, AmosError}
use amos_platform.Token.Revenue.{ProtocolFeeDistribution, split_protocol_fee}

-- The parts of a split, which make up the amount.
pub record IsSplit (amount : ℕ) (d : ProtocolFeeDistribution) : Type 0 where
  pub whole : d.holder_amount + d.burn_amount + d.labs_amount ≡ amount
  pub holders : d.holder_amount ≡ amount / 2
  pub burned : d.burn_amount ≡ amount * 4 / 10
  pub labs_least : amount / 10 ≤ d.labs_amount
  pub labs_most : d.labs_amount ≤ amount / 10 + 2

-- A split that is made loses nothing: holders have half and two fifths are burned, each rounded
-- down, and Labs has the rest, which is a tenth and at most two tokens of rounding.
pub split_protocol_fee-IsSplit :
    (amount : ℕ) (d : ProtocolFeeDistribution) → split_protocol_fee amount ≡ ok d → IsSplit amount d
unfolding split_protocol_fee
split_protocol_fee-IsSplit amount d h = ground arith

-- A positive amount whose product with the largest share in basis points fits in a `u64` is split.
pub split_total :
    (amount : ℕ)
    → 1 ≤ amount
    → amount * 5000 ≤ u64_max
    → (d : ProtocolFeeDistribution) × (split_protocol_fee amount ≡ ok d)
unfolding split_protocol_fee
split_total amount h k = (
  record {
    total_amount = amount;
    holder_amount = amount * 5000 / 10000;
    burn_amount = amount * 4000 / 10000;
    labs_amount = amount - amount * 5000 / 10000 - amount * 4000 / 10000;
  },
  ground arith,
)

pub split_refused :
    (amount : ℕ)
    → (amount ≡ 0) ⊎ (u64_max < amount * 5000)
    → (e : AmosError) × (split_protocol_fee amount ≡ err e)
unfolding split_protocol_fee
split_refused amount h = (
  if amount == 0
      then validation (literal "Amount must be > 0")
      else arithmetic_overflow (
          lit "bps mul: "
          ∷ number amount
          ∷ lit " * "
          ∷ number 5000
          ∷ lit " / "
          ∷ number 10000
          ∷ []),
  ground arith,
)
