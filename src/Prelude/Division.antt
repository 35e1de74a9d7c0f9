-- ===== src/Prelude/Division.antt =====
-- Facts about integer division that the token arithmetic rests on.
use Prim.Native.Nat.{ℕ, zero, suc, ◌*◌, ◌/◌, ◌≤◌, ◌<◌}
use native.Mathlib.Nat.{div-zero, le-div_iff_mul-le, div-mul-le_self, div-le_of_le-mul, le_trans}
use native.Mathlib.Omega.{arith}

pub div_mono : (a b c : ℕ) → a ≤ b → a / c ≤ b / c
div_mono a b zero h = omega (arith, div-zero a, div-zero b)
div_mono a b (suc c) h =
    (le-div_iff_mul-le {k = suc c} (omega arith)).1 (le_trans (div-mul-le_self a (suc c)) h)

-- A share that is at most the whole, of an amount, is at most that amount.
pub share-le_amount : (p t e : ℕ) → p ≤ t → p * e / t ≤ e
share-le_amount p t e h = div-le_of_le-mul t (grind arith)

pub div-mul-le : (a c : ℕ) → a / c * c ≤ a
div-mul-le a c = div-mul-le_self a c

pub mul_mono : (a b c d : ℕ) → a ≤ c → b ≤ d → a * b ≤ c * d
mul_mono a b c d h k = grind arith

pub cancel_factor : (a b t : ℕ) → 0 < t → a * t ≤ b * t → a ≤ b
cancel_factor a b t h k = grind arith

-- `q` of `b` parts, rounded down, of a value that is itself a rounded share.
pub share_of_share :
    (pool stake total b : ℕ) → pool * (stake * b / total) / b * total * b ≤ pool * stake * b
share_of_share pool stake total b =
    let q = stake * b / total in
    let outer = div-mul-le (pool * q) b in
    let inner = div-mul-le (stake * b) total in
    let scaled = mul_mono (pool * q / b * b) total (pool * q) total outer (omega arith) in
    let widened = mul_mono pool (q * total) pool (stake * b) (omega arith) inner in omega arith
