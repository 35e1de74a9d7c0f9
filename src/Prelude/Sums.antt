-- ===== src/Prelude/Sums.antt =====
-- Sums and counts over the rows of a table, before and after an update.
use Prim.Native.Nat.{ℕ, ◌+◌, ◌*◌, ◌≤◌}
use mathlib.Core.Path.{◌≡◌, refl}
use mathlib.Core.Logic.{inl, inr}
use mathlib.Core.Bool.{Bool, true}
use mathlib.Core.List.{List, [], ◌∷◌, map}
use native.Mathlib.Omega.{arith}
use amos_platform.Prelude.Tests.{Bool-cases}
use amos_platform.Prelude.Lists.{length, filter, sum_by}
use amos_platform.Prelude.Queries.{update_where}

module _ {ℓ} {A : Type ℓ} where
  -- Where each changed row counts for at most `c`.
  pub sum_by-update_where :
      (w : A → ℕ) (p : A → Bool) (f : A → A) (c : ℕ) (xs : List A)
      → ((x : A) → w (f x) ≤ c)
      → sum_by w (update_where p f xs) ≤ sum_by w xs + c * length (filter p xs)
  sum_by-update_where w p f c [] h = omega arith
  sum_by-update_where w p f c (x ∷ xs) h = elim (Bool-cases (p x)) [
    | inl e ↦ rw e (grind (arith, h x, sum_by-update_where w p f c xs h))
    | inr e ↦ rw e (omega (arith, sum_by-update_where w p f c xs h))
  ]

  -- Where each changed row gives up what `v` says of it.
  pub sum_by-update_where_spent :
      (w v : A → ℕ) (p : A → Bool) (f : A → A) (xs : List A)
      → ((x : A) → p x ≡ true → w (f x) + v x ≤ w x)
      → sum_by w (update_where p f xs) + sum_by v (filter p xs) ≤ sum_by w xs
  sum_by-update_where_spent w v p f [] h = omega arith
  sum_by-update_where_spent w v p f (x ∷ xs) h = elim (Bool-cases (p x)) [
    | inl e ↦ rw e (omega (arith, h x e, sum_by-update_where_spent w v p f xs h))
    | inr e ↦ rw e (omega (arith, sum_by-update_where_spent w v p f xs h))
  ]

  -- A change that keeps a test keeps the count of those that pass it.
  pub length-filter-update_where :
      (q p : A → Bool) (f : A → A) (xs : List A)
      → ((x : A) → q (f x) ≡ q x)
      → length (filter q (update_where p f xs)) ≡ length (filter q xs)
  length-filter-update_where q p f [] h = refl
  length-filter-update_where q p f (x ∷ xs) h =
      ground (arith, h x, length-filter-update_where q p f xs h)

  pub sum_by-map {κ} :
      {B : Type κ} (w : B → ℕ) (f : A → B) (xs : List A)
      → sum_by w (map f xs) ≡ sum_by (λ x. w (f x)) xs
  sum_by-map w f [] = refl
  sum_by-map w f (x ∷ xs) = omega (arith, sum_by-map w f xs)
