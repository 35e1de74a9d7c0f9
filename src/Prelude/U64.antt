-- ===== src/Prelude/U64.antt =====
-- Rust's `u64` on the native numbers: the checked and saturating operations, and those that panic.
use Prim.Native.Nat.{ℕ, ◌+◌, ◌-◌, ◌*◌, ◌/◌, min}
use mathlib.Core.Option.{Option, none, some}
use amos_platform.Prelude.Tests.{leb, ◌==◌, if◌then◌else◌}

-- `u64::MAX`
abbrev pub u64_max : ℕ
u64_max = 18446744073709551615

abbrev pub checked_mul : ℕ → ℕ → Option ℕ
checked_mul a b = let p = a * b in if leb p u64_max then some p else none

abbrev pub checked_add : ℕ → ℕ → Option ℕ
checked_add a b = let s = a + b in if leb s u64_max then some s else none

abbrev pub checked_sub : ℕ → ℕ → Option ℕ
checked_sub a b = if leb b a then some (a - b) else none

abbrev pub checked_div : ℕ → ℕ → Option ℕ
checked_div a b = if b == 0 then none else some (a / b)

abbrev pub saturating_add : ℕ → ℕ → ℕ
saturating_add a b = min (a + b) u64_max

abbrev pub saturating_mul : ℕ → ℕ → ℕ
saturating_mul a b = min (a * b) u64_max

-- `-` on the native numbers stops at 0, as `saturating_sub` does.
abbrev pub saturating_sub : ℕ → ℕ → ℕ
saturating_sub a b = a - b

-- Plain `+` and `*`: the workspace builds with `overflow-checks`, so an overflow panics. `none` is
-- that panic.
abbrev pub strict_add : ℕ → ℕ → Option ℕ
strict_add = checked_add

abbrev pub strict_mul : ℕ → ℕ → Option ℕ
strict_mul = checked_mul

-- `Option::unwrap_or`
abbrev pub unwrap_or {ℓ} : {A : Type ℓ} → Option A → A → A
unwrap_or none d = d
unwrap_or (some a) d = a

-- `Option::and_then`
abbrev pub and_then {ℓ κ} : {A : Type ℓ} {B : Type κ} → Option A → (A → Option B) → Option B
and_then none f = none
and_then (some a) f = f a
