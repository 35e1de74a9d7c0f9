-- ===== src/Token/Decay/Rate.antt =====
-- The rates of amos-core/src/token/decay.rs: their ranges, and how they move with their inputs.
use amos_platform.Prelude.{
  ℕ, ◌+◌, ◌-◌, ◌*◌, ◌/◌, ◌≤◌, ◌<◌, ◌≡◌, arith, max, u64_max, leb, ◌==◌, if◌then◌else◌, pos, ◌-ℤ◌,
  div_mono,
}
use native.Mathlib.Nat.{div-le_of_le-mul}
use amos_platform.Token.Decay.{
  VaultTier, StakeContext, calculate_dynamic_decay_rate, unclamped_rate, tenure_floor_bps,
  tenure_reduction_bps, vault_reduction_bps, bps_of, effective_annual_rate_bps,
}

-- The adjustment for a profit, or loss, of `x` on costs of `c`.
share : ℕ → ℕ → ℕ
share x c = x * 10000 / c * 500 / 10000

mul_bound : (x c : ℕ) → x ≤ c → x * 10000 ≤ c * 10000
mul_bound x c h = omega arith

share-le : (x c : ℕ) → x ≤ c → share x c ≤ 500
unfolding share
share-le x c h = omega (arith, div-le_of_le-mul c {n = 10000} (mul_bound x c h))

share_mono : (x y c : ℕ) → x ≤ y → share x c ≤ share y c
unfolding share
share_mono x y c h = omega (arith, div_mono (x * 10000) (y * 10000) c (omega arith))

unclamped_profit : (r c : ℕ) → c ≤ r → unclamped_rate r c ≡ (pos 1000 -ℤ pos (share (r - c) c))
unfolding unclamped_rate share
unclamped_profit r c h = ground arith

unclamped_loss : (r c : ℕ) → r < c → unclamped_rate r c ≡ pos (1000 + share (c - r) c)
unfolding unclamped_rate share
unclamped_loss r c h = ground arith

-- The rate by cases: the default without costs, otherwise the base rate less the profit's share
-- and no lower than the minimum, or plus the loss's share.
decay_rate_cases :
    (r c : ℕ)
    → calculate_dynamic_decay_rate (record { monthly_revenue_cents = r; monthly_costs_cents = c })
      ≡ (if c == 0
          then 500
          else if leb c r
          then max (1000 - share (r - c) c) 200
          else (1000 + share (c - r) c))
unfolding calculate_dynamic_decay_rate
decay_rate_cases r c = ground (arith, unclamped_profit r c, unclamped_loss r c, share-le (c - r) c)

-- Whatever the financials, the rate is between 2% and 15%: a loss cannot exceed the costs, so the
-- upper clamp of 25% is never reached.
pub decay_rate_range :
    (r c : ℕ)
    → let rate =
        calculate_dynamic_decay_rate
          (record { monthly_revenue_cents = r; monthly_costs_cents = c }) in
      (200 ≤ rate) × (rate ≤ 1500)
decay_rate_range r c = ground (arith, decay_rate_cases r c, share-le (c - r) c)

-- With the same costs, more revenue never gives a higher rate.
pub decay_rate_antitone :
    (r r' c : ℕ)
    → r ≤ r'
    → calculate_dynamic_decay_rate (record { monthly_revenue_cents = r'; monthly_costs_cents = c })
      ≤ calculate_dynamic_decay_rate (record { monthly_revenue_cents = r; monthly_costs_cents = c })
decay_rate_antitone r r' c h = ground (
  arith,
  decay_rate_cases r c,
  decay_rate_cases r' c,
  share_mono (r - c) (r' - c) c,
  share_mono (c - r') (c - r) c,
)

-- A longer tenure never lowers the floor nor the reduction, and both stay below 100%.
pub tenure_monotone :
    (d d' : ℕ)
    → d ≤ d'
    → (tenure_floor_bps d ≤ tenure_floor_bps d')
      × (tenure_reduction_bps d ≤ tenure_reduction_bps d')
      × (tenure_floor_bps d' ≤ 2500)
      × (tenure_reduction_bps d' ≤ 7000)
unfolding tenure_floor_bps tenure_reduction_bps
tenure_monotone d d' h = ground arith

-- How long a tier locks the stake, by its order.
abbrev pub tier_rank : VaultTier → ℕ
tier_rank VaultTier.unlocked = 0
tier_rank VaultTier.bronze = 1
tier_rank VaultTier.silver = 2
tier_rank VaultTier.gold = 3
tier_rank VaultTier.permanent = 4

pub vault_monotone :
    (t t' : VaultTier)
    → tier_rank t ≤ tier_rank t'
    → (vault_reduction_bps t ≤ vault_reduction_bps t') × (vault_reduction_bps t' ≤ 9500)
unfolding vault_reduction_bps
vault_monotone t t' h = ground arith

-- The product fits in a `u64` for every balance up to this one, at any rate up to 100%.
abbrev pub bps_safe : ℕ
bps_safe = 1844674407370955

pub bps_of_lem : (x b : ℕ) → x ≤ bps_safe → b ≤ 10000 → bps_of x b ≡ x * b / 10000
unfolding bps_of
bps_of_lem x b h k = ground (arith, mul_le x b h k)
  where
    mul_le : (x b : ℕ) → x ≤ bps_safe → b ≤ 10000 → x * b ≤ u64_max
    mul_le x b h k = grind arith

-- A part of at most 100% is at most the whole, also where the product overflows and counts as 0.
pub bps_of-le : (x b : ℕ) → b ≤ 10000 → bps_of x b ≤ x
unfolding bps_of
bps_of-le x b h = ground (arith, part x b h)
  where
    part : (x b : ℕ) → b ≤ 10000 → x * b / 10000 ≤ x
    part x b h = div-le_of_le-mul 10000 (grind arith)

pub bps_of_mono : (x y b c : ℕ) → x ≤ y → b ≤ c → y ≤ bps_safe → c ≤ 10000 → bps_of x b ≤ bps_of y c
bps_of_mono x y b c h k s l =
    ground
      (arith, bps_of_lem x b, bps_of_lem y c, div_mono (x * b) (y * c) 10000 (product x y b c h k))
  where
    product : (x y b c : ℕ) → x ≤ y → b ≤ c → x * b ≤ y * c
    product x y b c h k = grind arith

-- The effective rate is never below 2%, and tenure and vault never raise it above the larger of the
-- base rate and 2%.
pub effective_rate_range :
    (base : ℕ) (s : StakeContext)
    → (200 ≤ effective_annual_rate_bps base s) × (effective_annual_rate_bps base s ≤ max base 200)
unfolding effective_annual_rate_bps
effective_rate_range base s = omega (
  arith,
  bps_of-le base (10000 - tenure_reduction_bps s.tenure_days) (omega arith),
  bps_of-le (bps_of base (10000 - tenure_reduction_bps s.tenure_days))
      (10000 - vault_reduction_bps s.vault_tier) (omega arith),
)

-- For base rates whose products do not overflow: longer tenure and a longer lock never raise the
-- effective rate, and a lower base rate never does.
pub effective_rate_antitone :
    (base base' : ℕ) (s s' : StakeContext)
    → base' ≤ base
    → base ≤ bps_safe
    → s.tenure_days ≤ s'.tenure_days
    → tier_rank s.vault_tier ≤ tier_rank s'.vault_tier
    → effective_annual_rate_bps base' s' ≤ effective_annual_rate_bps base s
unfolding effective_annual_rate_bps
effective_rate_antitone base base' s s' h safe d t =
    let red = tenure_reduction_bps s.tenure_days in
    let red' = tenure_reduction_bps s'.tenure_days in
    let vault = vault_reduction_bps s.vault_tier in
    let vault' = vault_reduction_bps s'.vault_tier in
    let tenure = tenure_monotone s.tenure_days s'.tenure_days d in
    let vaults = vault_monotone s.vault_tier s'.vault_tier t in
    let first =
      bps_of_mono base' base (10000 - red') (10000 - red) h (omega arith) safe (omega arith) in
    let small = bps_of-le base (10000 - red) (omega arith) in
    let second =
      bps_of_mono (bps_of base' (10000 - red')) (bps_of base (10000 - red)) (10000 - vault')
        (10000 - vault) first (omega arith) (omega arith) (omega arith) in
    omega arith
