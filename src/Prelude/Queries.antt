-- ===== src/Prelude/Queries.antt =====
-- A property of all rows through the stages of a query, and the rows that an update reaches.
use Prim.Native.Nat.{ℕ, zero, suc}
use mathlib.Core.Path.{◌≡◌, refl, ap, subst}
use mathlib.Core.Logic.{inl, inr}
use mathlib.Core.Bool.{Bool, true, false}
use mathlib.Core.Option.{none, some, some-injective}
use mathlib.Core.List.{List, [], ◌∷◌, ◌++◌, map}
use native.Mathlib.Omega.{arith}
use amos_platform.Prelude.Tests.{if◌then◌else◌, Bool-cases}
use amos_platform.Prelude.Lists.{All, filter, find, take, drop, get_elem?, head?}
use amos_platform.Prelude.Sort.{insert_by, sort_by, OrderedFrom, IsOrdered}

-- The rows that satisfy the test, changed; the others as they were.
abbrev pub update_where {ℓ} : {A : Type ℓ} → (A → Bool) → (A → A) → List A → List A
update_where p f [] = []
update_where p f (r ∷ rows) = (if p r then f r else r) ∷ update_where p f rows

module _ {ℓ κ} {A : Type ℓ} (P : A → Type κ) where
  pub All-filter : (p : A → Bool) (xs : List A) → All P xs → All P (filter p xs)
  All-filter p [] h = h
  All-filter p (x ∷ xs) h = elim (Bool-cases (p x)) [
    | inl e ↦ rw e (h.0, All-filter p xs h.1)
    | inr e ↦ rw e (All-filter p xs h.1)
  ]

  -- A row before a filtered list, where it passes, needs the property too.
  pub All-filter_cons :
      (p : A → Bool) (x : A) (xs : List A)
      → (p x ≡ true → P x)
      → All P (filter p xs)
      → All P (filter p (x ∷ xs))
  All-filter_cons p x xs h k = elim (Bool-cases (p x)) [ inl e ↦ rw e (h e, k) | inr e ↦ rw e k ]

  pub All-take : (n : ℕ) (xs : List A) → All P xs → All P (take n xs)
  All-take zero xs h = tt
  All-take (suc n) [] h = tt
  All-take (suc n) (x ∷ xs) h = (h.0, All-take n xs h.1)

  pub All-drop : (n : ℕ) (xs : List A) → All P xs → All P (drop n xs)
  All-drop zero xs h = h
  All-drop (suc n) [] h = tt
  All-drop (suc n) (x ∷ xs) h = All-drop n xs h.1

  All-insert_by :
      (before : A → A → Bool) (x : A) (ys : List A) → P x → All P ys → All P (insert_by before x ys)
  All-insert_by before x [] h k = (h, tt)
  All-insert_by before x (y ∷ ys) h k = elim (Bool-cases (before x y)) [
    | inl e ↦ rw e (h, k)
    | inr e ↦ rw e (k.0, All-insert_by before x ys h k.1)
  ]

  pub All-sort_by : (before : A → A → Bool) (xs : List A) → All P xs → All P (sort_by before xs)
  All-sort_by before [] h = tt
  All-sort_by before (x ∷ xs) h =
      All-insert_by before x (sort_by before xs) h.0 (All-sort_by before xs h.1)

  pub All-append : (xs ys : List A) → All P xs → All P ys → All P (xs ++ ys)
  All-append [] ys h k = k
  All-append (x ∷ xs) ys h k = (h.0, All-append xs ys h.1 k)

  pub All-update_where :
      (p : A → Bool) (f : A → A) (xs : List A)
      → ((x : A) → P x → P (f x))
      → All P xs
      → All P (update_where p f xs)
  All-update_where p f [] keep h = tt
  All-update_where p f (x ∷ xs) keep h = elim (Bool-cases (p x)) [
    | inl e ↦ rw e (keep x h.0, All-update_where p f xs keep h.1)
    | inr e ↦ rw e (h.0, All-update_where p f xs keep h.1)
  ]

  -- Another property after the update: of the rows that it changes, and of the others.
  pub All-updated {μ} :
      (Q : A → Type μ) (p : A → Bool) (f : A → A) (xs : List A)
      → ((x : A) → P x → p x ≡ true → Q (f x))
      → ((x : A) → P x → p x ≡ false → Q x)
      → All P xs
      → All Q (update_where p f xs)
  All-updated Q p f [] changed kept h = tt
  All-updated Q p f (x ∷ xs) changed kept h = elim (Bool-cases (p x)) [
    | inl e ↦ rw e (changed x h.0 e, All-updated Q p f xs changed kept h.1)
    | inr e ↦ rw e (kept x h.0 e, All-updated Q p f xs changed kept h.1)
  ]

  pub get_elem?-All : (xs : List A) (n : ℕ) (x : A) → All P xs → get_elem? xs n ≡ some x → P x
  get_elem?-All [] n x h e = cc
  get_elem?-All (y ∷ xs) zero x h e = subst P (some-injective y x e) h.0
  get_elem?-All (y ∷ xs) (suc n) x h e = get_elem?-All xs n x h.1 e

  pub head?-All : (xs : List A) (x : A) → All P xs → head? xs ≡ some x → P x
  head?-All [] x h e = cc
  head?-All (y ∷ xs) x h e = subst P (some-injective y x e) h.0

  pub find-All : (p : A → Bool) (xs : List A) {x : A} → All P xs → find p xs ≡ some x → P x
  find-All p [] h e = cc
  find-All p (y ∷ xs) {x} h e = elim (Bool-cases (p y)) [
    | inl t ↦ subst P (some-injective _ _ (rw t at e)) h.0
    | inr t ↦ find-All p xs h.1 (rw t at e)
  ]

module _ {ℓ κ} {A : Type ℓ} {P : A → Type κ} where
  pub All-map {μ} : {Q : A → Type μ} → ((x : A) → P x → Q x) → (xs : List A) → All P xs → All Q xs
  All-map f [] h = tt
  All-map f (x ∷ xs) h = (f x h.0, All-map f xs h.1)

module _ {ℓ κ} {A : Type ℓ} (P Q : A → Type κ) where
  pub All-both : (xs : List A) → All P xs → All Q xs → All (λ x. P x × Q x) xs
  All-both [] h k = tt
  All-both (x ∷ xs) h k = ((h.0, k.0), All-both xs h.1 k.1)

module _ {ℓ} {A : Type ℓ} where
  -- The rows that a filter keeps pass its test.
  pub filter-All : (p : A → Bool) (xs : List A) → All (λ x. p x ≡ true) (filter p xs)
  filter-All p [] = tt
  filter-All p (x ∷ xs) = elim (Bool-cases (p x)) [
    | inl e ↦ rw e (e, filter-All p xs)
    | inr e ↦ rw e (filter-All p xs)
  ]

  pub find_passes : (p : A → Bool) (xs : List A) (x : A) → find p xs ≡ some x → p x ≡ true
  find_passes p [] x h = cc
  find_passes p (y ∷ xs) x h = ground (arith, find_passes p xs x)

  -- An update that makes its own test fail leaves no row that passes it.
  pub find-update_where-none :
      (p : A → Bool) (f : A → A) (xs : List A)
      → ((x : A) → p (f x) ≡ false)
      → find p (update_where p f xs) ≡ none
  find-update_where-none p f [] h = refl
  find-update_where-none p f (x ∷ xs) h = elim (Bool-cases (p x)) [
    | inl e ↦ rw (e, h x) (find-update_where-none p f xs h)
    | inr e ↦ rw (e, e) (find-update_where-none p f xs h)
  ]

  -- A row that the update does not reach is found as before.
  pub find-update_where_apart :
      (q p : A → Bool) (f : A → A) (xs : List A)
      → ((x : A) → p x ≡ true → q x ≡ false)
      → ((x : A) → p x ≡ true → q (f x) ≡ false)
      → find q (update_where p f xs) ≡ find q xs
  find-update_where_apart q p f [] apart after = refl
  find-update_where_apart q p f (x ∷ xs) apart after = elim (Bool-cases (p x)) [
    | inl e ↦ rw (e, after x e, apart x e) (find-update_where_apart q p f xs apart after)
    | inr e ↦ rw (e, find-update_where_apart q p f xs apart after)
  ]

  pub filter-append :
      (p : A → Bool) (xs ys : List A) → filter p (xs ++ ys) ≡ filter p xs ++ filter p ys
  filter-append p [] ys = refl
  filter-append p (x ∷ xs) ys = elim (Bool-cases (p x)) [
    | inl e ↦ rw e (ap (λ zs. x ∷ zs) (filter-append p xs ys))
    | inr e ↦ rw e (filter-append p xs ys)
  ]

  pub update_where-none :
      (p : A → Bool) (f : A → A) (xs : List A) → find p xs ≡ none → update_where p f xs ≡ xs
  update_where-none p f [] h = refl
  update_where-none p f (x ∷ xs) h = ground (arith, update_where-none p f xs)

  pub find-append :
      (p : A → Bool) (xs ys : List A) → find p xs ≡ none → find p (xs ++ ys) ≡ find p ys
  find-append p [] ys h = refl
  find-append p (x ∷ xs) ys h = ground (arith, find-append p xs ys)

module _ {ℓ κ} {A : Type ℓ} {B : Type κ} where
  -- A property of all images.
  pub All-mapped {μ} :
      (Q : B → Type μ) (f : A → B) (xs : List A) → All (λ x. Q (f x)) xs → All Q (map f xs)
  All-mapped Q f [] h = tt
  All-mapped Q f (x ∷ xs) h = (h.0, All-mapped Q f xs h.1)

  OrderedFrom-map :
      (before : A → A → Bool) (after : B → B → Bool) (f : A → B)
      → ((x y : A) → before x y ≡ true → after (f x) (f y) ≡ true)
      → (x : A) (xs : List A) → OrderedFrom before x xs
      → OrderedFrom after (f x) (map f xs)
  OrderedFrom-map before after f keep x [] h = tt
  OrderedFrom-map before after f keep x (y ∷ xs) h =
      (keep x y h.0, OrderedFrom-map before after f keep y xs h.1)

  pub IsOrdered-map :
      (before : A → A → Bool) (after : B → B → Bool) (f : A → B)
      → ((x y : A) → before x y ≡ true → after (f x) (f y) ≡ true)
      → (xs : List A) → IsOrdered before xs
      → IsOrdered after (map f xs)
  IsOrdered-map before after f keep [] h = tt
  IsOrdered-map before after f keep (x ∷ xs) h = OrderedFrom-map before after f keep x xs h

module _ {ℓ} {A : Type ℓ} (before : A → A → Bool) where
  OrderedFrom-take :
      (n : ℕ) (x : A) (xs : List A) → OrderedFrom before x xs → OrderedFrom before x (take n xs)
  OrderedFrom-take zero x xs h = tt
  OrderedFrom-take (suc n) x [] h = tt
  OrderedFrom-take (suc n) x (y ∷ xs) h = (h.0, OrderedFrom-take n y xs h.1)

  pub IsOrdered-take : (n : ℕ) (xs : List A) → IsOrdered before xs → IsOrdered before (take n xs)
  IsOrdered-take zero xs h = tt
  IsOrdered-take (suc n) [] h = tt
  IsOrdered-take (suc n) (x ∷ xs) h = OrderedFrom-take n x xs h
