-- ===== src/Token/Revenue/Claims.antt =====
-- The claims of stake holders in amos-core/src/token/revenue.rs.
use amos_platform.Prelude.{
  ℕ, ◌*◌, ◌/◌, ◌≤◌, ◌<◌, ◌≡◌, refl, List, [], ◌∷◌, sum_by, arith, mul_mono, cancel_factor,
  share_of_share, ◌⊎◌, ◌==◌, if◌then◌else◌, share-le_amount,
}
use amos_platform.Error.{Result, ok, err, no_revenue_to_claim, insufficient_stake}
use native.Mathlib.Nat.{div-le_of_le-mul}
use amos_platform.Token.Revenue.{HolderClaim, calculate_holder_claim}

-- What a paid claim says.
claim_value :
    (stake total pool : ℕ) (c : HolderClaim)
    → calculate_holder_claim stake total pool ≡ ok c
    → (c.share_bps ≡ stake * 10000 / total)
      × (c.payout ≡ pool * (stake * 10000 / total) / 10000)
      × (0 < total)
      × (100 ≤ stake)
unfolding calculate_holder_claim
claim_value stake total pool c h = ground arith

-- A claim that is paid pays at most the holder's exact share of the pool; a stake within the total
-- has a share of at most 100%, and is paid at most the pool.
pub claim_bounds :
    (stake total pool : ℕ) (c : HolderClaim)
    → stake ≤ total
    → calculate_holder_claim stake total pool ≡ ok c
    → (c.payout * total ≤ pool * stake) × (c.share_bps ≤ 10000) × (c.payout ≤ pool)
claim_bounds stake total pool c fits h =
    let v = claim_value stake total pool c h in
    let q = stake * 10000 / total in
    let exact : pool * q / 10000 * total ≤ pool * stake =
      cancel_factor (pool * q / 10000 * total) (pool * stake) 10000 (omega arith)
        (share_of_share pool stake total 10000) in
    let share : q ≤ 10000 = share-le_amount stake total 10000 fits in
    let whole = mul_mono pool q pool 10000 (omega arith) share in
    (rw (v.1) exact, rw (v.0) share, rw (v.1) (div-le_of_le-mul 10000 (omega arith)))

abbrev pub paid : Result HolderClaim → ℕ
paid (ok c) = c.payout
paid (err _) = 0

-- What holders with these stakes are paid from one pool, refused claims included.
abbrev pub total_paid : ℕ → ℕ → List ℕ → ℕ
total_paid total pool stakes =
    sum_by (λ stake. paid (calculate_holder_claim stake total pool)) stakes

paid_bound :
    (stake total pool : ℕ) (r : Result HolderClaim)
    → stake ≤ total
    → calculate_holder_claim stake total pool ≡ r
    → paid r * total ≤ pool * stake
paid_bound stake total pool (ok c) fits h = (claim_bounds stake total pool c fits h).0
paid_bound stake total pool (err _) fits h = omega arith

total_paid_bound :
    (total pool : ℕ) (stakes : List ℕ)
    → sum_by (λ s. s) stakes ≤ total
    → total_paid total pool stakes * total ≤ pool * sum_by (λ s. s) stakes
total_paid_bound total pool [] fits = omega arith
total_paid_bound total pool (s ∷ stakes) fits = omega (
  arith,
  paid_bound s total pool (calculate_holder_claim s total pool) (omega arith) refl,
  total_paid_bound total pool stakes (omega arith),
)

-- Whatever claims are made on one pool: where the stakes are together at most the eligible total, and
-- that total is not 0, the payouts are together at most the pool.
pub total_paid-le_pool :
    (total pool : ℕ) (stakes : List ℕ)
    → sum_by (λ s. s) stakes ≤ total
    → 0 < total
    → total_paid total pool stakes ≤ pool
total_paid-le_pool total pool stakes fits pos =
    cancel_factor (total_paid total pool stakes) pool total pos (
      omega (
        arith,
        total_paid_bound total pool stakes fits,
        mul_mono pool (sum_by (λ s. s) stakes) pool total (omega arith) fits,
      ))

-- The two refusals that name their reason, in the order of the code.
pub claim_refused :
    (stake total pool : ℕ)
    → (total ≡ 0) ⊎ (stake < 100)
    → calculate_holder_claim stake total pool
      ≡ err (if total == 0 then no_revenue_to_claim else insufficient_stake stake 100)
unfolding calculate_holder_claim
claim_refused stake total pool h = ground arith
