-- ===== src/Darwin/Latest.antt =====
-- The first row of an ordered query, such as the latest scorecard of
-- amos-packages/amos-autoresearch/src/darwinian/evaluator.rs.
use amos_platform.Prelude.{
  ◌≡◌, ◌⊎◌, refl, sym, ◌∙◌, Bool, true, false, none, some, List, [], ◌∷◌, filter, head?, sort_by,
  insert_by, OrderedFrom, IsOrdered, sort_by-IsOrdered, All, Any, All-map, All-filter, All-sort_by,
  All-both, filter-All, head?-All, Bool-cases, inl, inr,
}

module _ {A : Type 0} where
  own_rows : (xs : List A) → All (λ x. Any (λ y. y ≡ x) xs) xs
  own_rows [] = tt
  own_rows (x ∷ xs) = (inl refl, All-map (λ y h. inr h) xs (own_rows xs))

  filtered :
      (P : A → Type 0) (p : A → Bool) (xs : List A)
      → All P (filter p xs)
      → All (λ x. p x ≡ true → P x) xs
  filtered P p [] h = tt
  filtered P p (x ∷ xs) h = elim (Bool-cases (p x)) [
    | inl e ↦ let k : P x × All P (filter p xs) = rw e at h in (λ _. k.0, filtered P p xs k.1)
    | inr e ↦ (λ t. let bad : true ≡ false = sym t ∙ e in cc, filtered P p xs (rw e at h))
  ]

module _ {A : Type 0} (before : A → A → Bool)
    (total : (a b : A) → before a b ≡ false → before b a ≡ true)
    (trans : (a b c : A) → before a b ≡ true → before b c ≡ true → before a c ≡ true) where
  inserted : (P : A → Type 0) (x : A) (ys : List A) → All P (insert_by before x ys) → P x × All P ys
  inserted P x [] h = h
  inserted P x (y ∷ ys) h = elim (Bool-cases (before x y)) [
    | inl e ↦ rw e at h
    | inr e ↦
        let k : P y × All P (insert_by before x ys) = rw e at h in
        let (here, rest) = inserted P x ys k.1 in (here, (k.0, rest))
  ]

  sorted : (P : A → Type 0) (xs : List A) → All P (sort_by before xs) → All P xs
  sorted P [] h = tt
  sorted P (x ∷ xs) h =
      let (here, rest) = inserted P x (sort_by before xs) h in (here, sorted P xs rest)

  ordered_all :
      (w x : A) (ys : List A)
      → before w x ≡ true
      → OrderedFrom before x ys
      → All (λ y. before w y ≡ true) ys
  ordered_all w x [] h o = tt
  ordered_all w x (y ∷ ys) h o = let next = trans w x y h o.0 in (next, ordered_all w y ys next o.1)

  own : (x : A) → before x x ≡ true
  own x = elim (Bool-cases (before x x)) [ inl e ↦ e | inr e ↦ total x x e ]

  -- The first row of those that pass, where some do.
  first_cases :
      (ys : List A)
      → IsOrdered before ys
      → ((x : A) × (head? ys ≡ some x) × All (λ y. before x y ≡ true) ys)
        ⊎ ((head? ys ≡ none) × (ys ≡ []))
  first_cases [] o = inr (refl, refl)
  first_cases (x ∷ ys) o = inl (x, refl, (own x, ordered_all x x ys (own x) o))

  pub query_cases :
      (p : A → Bool) (xs : List A)
      → ((x : A) × (head? (sort_by before (filter p xs)) ≡ some x)
          × Any (λ y. y ≡ x) xs
          × (p x ≡ true)
          × All (λ y. p y ≡ true → before x y ≡ true) xs)
        ⊎ ((head? (sort_by before (filter p xs)) ≡ none) × All (λ y. p y ≡ true → ⊥) xs)
  query_cases p xs =
      let rows = filter p xs in
      elim (first_cases (sort_by before rows) (sort_by-IsOrdered before total rows)) [
        | inl (x, is_first, all) ↦
            let P : A → Type 0 = λ x. Any (λ y. y ≡ x) xs × (p x ≡ true) in
            let (listed, passes) =
              head?-All P (sort_by before rows) x
                (All-sort_by P before rows (
                  All-both (λ x. Any (λ y. y ≡ x) xs) (λ x. p x ≡ true) rows
                    (All-filter (λ x. Any (λ y. y ≡ x) xs) p xs (own_rows xs)) (filter-All p xs)))
                is_first in
            inl (
              x,
              is_first,
              listed,
              passes,
              filtered (λ y. before x y ≡ true) p xs (sorted (λ y. before x y ≡ true) rows all),
            )
        | inr (is_none, empty) ↦
            inr (is_none, filtered (λ y. ⊥) p xs (sorted (λ y. ⊥) rows (rw empty tt)))
      ]
