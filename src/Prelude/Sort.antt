-- ===== src/Prelude/Sort.antt =====
-- `ORDER BY`: a stable sort by a test that says whether the first may stand before the second.
use mathlib.Core.Path.{◌≡◌, refl, ap, ◌∙◌}
use mathlib.Core.Bool.{Bool, true, false}
use mathlib.Core.List.{List, [], ◌∷◌, ◌++◌, Perm}
use mathlib.Core.List.Perm
use amos_platform.Prelude.Tests.{if◌then◌else◌, Bool-cases}
use mathlib.Core.Logic.{inl, inr}
use amos_platform.Prelude.Lists.{reverse, length}
use Prim.Native.Nat.{suc}

module _ {ℓ} {A : Type ℓ} (before : A → A → Bool) where
  abbrev pub insert_by : A → List A → List A
  insert_by x [] = x ∷ []
  insert_by x (y ∷ ys) = if before x y then x ∷ y ∷ ys else y ∷ insert_by x ys

  abbrev pub sort_by : List A → List A
  sort_by [] = []
  sort_by (x ∷ xs) = insert_by x (sort_by xs)

  insert_by-perm : (x : A) (ys : List A) → Perm (insert_by x ys) (x ∷ ys)
  insert_by-perm x [] = Perm.refl (x ∷ [])
  insert_by-perm x (y ∷ ys) = elim (Bool-cases (before x y)) [
    | inl e ↦ rw e (Perm.refl (x ∷ y ∷ ys))
    | inr e ↦ rw e (Perm.trans (Perm.cons y (insert_by-perm x ys)) (Perm.swap x y ys))
  ]

  -- Sorting loses and adds no row.
  pub sort_by-perm : (xs : List A) → Perm (sort_by xs) xs
  sort_by-perm [] = Perm.refl []
  sort_by-perm (x ∷ xs) = Perm.trans (insert_by-perm x (sort_by xs)) (Perm.cons x (sort_by-perm xs))

  length-insert_by : (x : A) (ys : List A) → length (insert_by x ys) ≡ suc (length ys)
  length-insert_by x [] = refl
  length-insert_by x (y ∷ ys) = elim (Bool-cases (before x y)) [
    | inl e ↦ rw e refl
    | inr e ↦ rw e (ap suc (length-insert_by x ys))
  ]

  pub length-sort_by : (xs : List A) → length (sort_by xs) ≡ length xs
  length-sort_by [] = refl
  length-sort_by (x ∷ xs) = length-insert_by x (sort_by xs) ∙ ap suc (length-sort_by xs)

  -- Each row of the rest may stand after `x` and after the row that precedes it.
  abbrev pub OrderedFrom : A → List A → Type 0
  OrderedFrom x [] = Unit
  OrderedFrom x (y ∷ ys) = (before x y ≡ true) × OrderedFrom y ys

  abbrev pub IsOrdered : List A → Type 0
  IsOrdered [] = Unit
  IsOrdered (x ∷ xs) = OrderedFrom x xs

module _ {ℓ} {A : Type ℓ} (before : A → A → Bool)
    (total : (a b : A) → before a b ≡ false → before b a ≡ true) where
  insert_by-OrderedFrom :
      (w x : A) (ys : List A)
      → before w x ≡ true
      → OrderedFrom before w ys
      → OrderedFrom before w (insert_by before x ys)
  insert_by-OrderedFrom w x [] h o = (h, tt)
  insert_by-OrderedFrom w x (y ∷ ys) h o = elim (Bool-cases (before x y)) [
    | inl e ↦ rw e (h, (e, o.1))
    | inr e ↦ rw e (o.0, insert_by-OrderedFrom y x ys (total x y e) o.1)
  ]

  insert_by-IsOrdered :
      (x : A) (ys : List A) → IsOrdered before ys → IsOrdered before (insert_by before x ys)
  insert_by-IsOrdered x [] o = tt
  insert_by-IsOrdered x (y ∷ ys) o = elim (Bool-cases (before x y)) [
    | inl e ↦ rw e (e, o)
    | inr e ↦ rw e (insert_by-OrderedFrom y x ys (total x y e) o)
  ]

  -- Where of any two rows one may stand before the other, the result is in order.
  pub sort_by-IsOrdered : (xs : List A) → IsOrdered before (sort_by before xs)
  sort_by-IsOrdered [] = tt
  sort_by-IsOrdered (x ∷ xs) = insert_by-IsOrdered x (sort_by before xs) (sort_by-IsOrdered xs)

-- Where each row must stand after all that follow it, sorting reverses.
module _ {ℓ} {A : Type ℓ} (before : A → A → Bool) where
  -- No row of the list may have `x` before it.
  abbrev pub IsAfter : A → List A → Type 0
  IsAfter x [] = Unit
  IsAfter x (y ∷ ys) = (before x y ≡ false) × IsAfter x ys

  abbrev pub IsReversed : List A → Type 0
  IsReversed [] = Unit
  IsReversed (x ∷ xs) = IsAfter x xs × IsReversed xs

  IsAfter-append :
      (x y : A) (ys : List A) → IsAfter x ys → before x y ≡ false → IsAfter x (ys ++ (y ∷ []))
  IsAfter-append x y [] h k = (k, tt)
  IsAfter-append x y (z ∷ ys) h k = (h.0, IsAfter-append x y ys h.1 k)

  IsAfter-reverse : (x : A) (ys : List A) → IsAfter x ys → IsAfter x (reverse ys)
  IsAfter-reverse x [] h = tt
  IsAfter-reverse x (y ∷ ys) h = IsAfter-append x y (reverse ys) (IsAfter-reverse x ys h.1) h.0

  insert_by-last : (x : A) (ys : List A) → IsAfter x ys → insert_by before x ys ≡ ys ++ (x ∷ [])
  insert_by-last x [] h = refl
  insert_by-last x (y ∷ ys) h = rw h.0 (ap (λ zs. y ∷ zs) (insert_by-last x ys h.1))

  pub sort_by-reverse : (xs : List A) → IsReversed xs → sort_by before xs ≡ reverse xs
  sort_by-reverse [] h = refl
  sort_by-reverse (x ∷ xs) h =
      ap (insert_by before x) (sort_by-reverse xs h.1)
      ∙ insert_by-last x (reverse xs) (IsAfter-reverse x xs h.0)
