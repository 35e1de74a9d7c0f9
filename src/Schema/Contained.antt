-- ===== src/Schema/Contained.antt =====
-- What PostgreSQL's `@>`, in the queries of amos-harness/src/schema.rs, means of two JSON values.
use amos_platform.Prelude.{
  ◌≡◌, ◌⊎◌, refl, sym, ◌∙◌, subst, arith, Bool, true, false, ◌||◌, ◌&&◌, String, eq_iff, Option,
  none, some, Bool-cases, inl, inr, and_left, and_right,
}
use amos_platform.Prelude.Values.{
  Json, Items, Fields, Number, null, bool, num, str, array, object, nil, cons, empty, field,
  get_field, bool_eq,
}
use amos_platform.Prelude.Entries.{
  scalar_eq, some_item, is_within, fields_within, items_within, contains,
}

abbrev pub IsItem : Json → Items → Type 0
IsItem x nil = ⊥
IsItem x (cons y ys) = (x ≡ y) ⊎ IsItem x ys

-- A value is contained in another: a scalar in the same one, an object in one that has each of its
-- keys with a value that contains its own, an array in one that has for each of its items one that
-- contains it. Numbers are the same as the function says.
mutual
  pub data IsContained (same : Number → Number → Bool) : Json → Json → Type 0 where
    same_null : IsContained same null null
    same_bool : {b : Bool} → IsContained same (bool b) (bool b)
    same_text : {s : String} → IsContained same (str s) (str s)
    same_num : {m n : Number} → same m n ≡ true → IsContained same (num m) (num n)
    in_array : {ys xs : Items} → ItemsContained same ys xs → IsContained same (array ys) (array xs)
    in_object :
        {gs fs : Fields} → FieldsContained same gs fs → IsContained same (object gs) (object fs)

  pub data ItemsContained (same : Number → Number → Bool) : Items → Items → Type 0 where
    no_items : {xs : Items} → ItemsContained same nil xs
    and_item :
        {y : Json} {ys xs : Items} (x : Json)
        → IsItem x xs
        → IsContained same y x
        → ItemsContained same ys xs
        → ItemsContained same (cons y ys) xs

  pub data FieldsContained (same : Number → Number → Bool) : Fields → Fields → Type 0 where
    no_fields : {fs : Fields} → FieldsContained same empty fs
    and_field :
        {key : String} {v : Json} {gs fs : Fields} (found : Json)
        → get_field key fs ≡ some found
        → IsContained same v found
        → FieldsContained same gs fs
        → FieldsContained same (field key v gs) fs

-- `@>`: also an array and an item of it that is no array or object.
abbrev pub IsScalar : Json → Type 0
IsScalar (array xs) = ⊥
IsScalar (object fs) = ⊥
IsScalar _ = Unit

abbrev pub Holds : (Number → Number → Bool) → Json → Json → Type 0
Holds same (array xs) b =
    IsContained same b (array xs) ⊎ (IsScalar b × ((x : Json) × IsItem x xs × IsContained same b x))
Holds same a b = IsContained same b a

within_nothing : (same : Number → Number → Bool) (v : Json) → is_within same v none ≡ false
within_nothing same null = refl
within_nothing same (bool b) = refl
within_nothing same (num n) = refl
within_nothing same (str s) = refl
within_nothing same (array xs) = refl
within_nothing same (object fs) = refl

bool_refl : (b : Bool) → bool_eq b b ≡ true
bool_refl b = ground arith

or_true : (a : Bool) {b : Bool} → b ≡ true → (a || b) ≡ true
or_true a h = ground arith

pub and_intro : {a b : Bool} → a ≡ true → b ≡ true → (a && b) ≡ true
and_intro h i = ground arith

bool_same : (a b : Bool) → bool_eq a b ≡ true → a ≡ b
bool_same a b h = ground arith

some_item_found :
    (p : Json → Bool) (xs : Items) → some_item p xs ≡ true → (x : Json) × IsItem x xs × (p x ≡ true)
some_item_found p nil h = cc
some_item_found p (cons x xs) h = elim (Bool-cases (p x)) [
  | inl e ↦ (x, inl refl, e)
  | inr e ↦ let (y, later, passes) = some_item_found p xs (rw e at h) in (y, inr later, passes)
]

module _ (same : Number → Number → Bool) where
  within_found :
      (v : Json) (o : Option Json)
      → is_within same v o ≡ true
      → (found : Json) × (o ≡ some found) × (is_within same v (some found) ≡ true)
  within_found v none h = let bad : true ≡ false = sym h ∙ within_nothing same v in cc
  within_found v (some w) h = (w, refl, h)

  mutual
    within-IsContained : (v w : Json) → is_within same v (some w) ≡ true → IsContained same v w
    within-IsContained null null h = IsContained.same_null
    within-IsContained null (bool b') h = cc
    within-IsContained null (num n') h = cc
    within-IsContained null (str s') h = cc
    within-IsContained null (array xs') h = cc
    within-IsContained null (object fs') h = cc
    within-IsContained (bool b) null h = cc
    within-IsContained (bool b) (bool b') h =
        subst (λ x. IsContained same (bool b) (bool x)) (bool_same b b' h) IsContained.same_bool
    within-IsContained (bool b) (num n') h = cc
    within-IsContained (bool b) (str s') h = cc
    within-IsContained (bool b) (array xs') h = cc
    within-IsContained (bool b) (object fs') h = cc
    within-IsContained (num n) null h = cc
    within-IsContained (num n) (bool b') h = cc
    within-IsContained (num n) (num n') h = IsContained.same_num h
    within-IsContained (num n) (str s') h = cc
    within-IsContained (num n) (array xs') h = cc
    within-IsContained (num n) (object fs') h = cc
    within-IsContained (str s) null h = cc
    within-IsContained (str s) (bool b') h = cc
    within-IsContained (str s) (num n') h = cc
    within-IsContained (str s) (str s') h =
        subst (λ x. IsContained same (str s) (str x)) ((eq_iff s s').0 h) IsContained.same_text
    within-IsContained (str s) (array xs') h = cc
    within-IsContained (str s) (object fs') h = cc
    within-IsContained (array xs) null h = cc
    within-IsContained (array xs) (bool b') h = cc
    within-IsContained (array xs) (num n') h = cc
    within-IsContained (array xs) (str s') h = cc
    within-IsContained (array xs) (array xs') h =
        IsContained.in_array (items-ItemsContained xs xs' h)
    within-IsContained (array xs) (object fs') h = cc
    within-IsContained (object fs) null h = cc
    within-IsContained (object fs) (bool b') h = cc
    within-IsContained (object fs) (num n') h = cc
    within-IsContained (object fs) (str s') h = cc
    within-IsContained (object fs) (array xs') h = cc
    within-IsContained (object fs) (object fs') h =
        IsContained.in_object (fields-FieldsContained fs fs' h)

    items-ItemsContained :
        (ys xs : Items) → items_within same ys xs ≡ true → ItemsContained same ys xs
    items-ItemsContained nil xs h = ItemsContained.no_items
    items-ItemsContained (cons y ys) xs h =
        let here = some_item (λ x. is_within same y (some x)) xs in
        let (x, listed, held) =
          some_item_found (λ x. is_within same y (some x)) xs
            (and_left here (items_within same ys xs) h) in
        ItemsContained.and_item x listed (within-IsContained y x held)
          (items-ItemsContained ys xs (and_right here (items_within same ys xs) h))

    fields-FieldsContained :
        (gs fs : Fields) → fields_within same gs fs ≡ true → FieldsContained same gs fs
    fields-FieldsContained empty fs h = FieldsContained.no_fields
    fields-FieldsContained (field k v gs) fs h =
        let here = is_within same v (get_field k fs) in
        let (found, has, held) =
          within_found v (get_field k fs) (and_left here (fields_within same gs fs) h) in
        FieldsContained.and_field found has (within-IsContained v found held)
          (fields-FieldsContained gs fs (and_right here (fields_within same gs fs) h))

  item-Holds :
      (xs : Items) (v : Json)
      → IsScalar v
      → ((x : Json) → scalar_eq same v x ≡ true → IsContained same v x)
      → some_item (scalar_eq same v) xs ≡ true
      → Holds same (array xs) v
  item-Holds xs v scalar contained h =
      let (x, listed, equal) = some_item_found (scalar_eq same v) xs h in
      inr (scalar, (x, listed, contained x equal))

  pub contains-Holds : (a b : Json) → contains same a b ≡ true → Holds same a b
  contains-Holds (array xs) (array ys) h = inl (within-IsContained (array ys) (array xs) h)
  contains-Holds (array xs) (object gs) h = cc
  contains-Holds (array xs) null h = item-Holds xs null tt (λ x e. within-IsContained null x e) h
  contains-Holds (array xs) (bool b) h =
      item-Holds xs (bool b) tt (λ x e. within-IsContained (bool b) x e) h
  contains-Holds (array xs) (num n) h =
      item-Holds xs (num n) tt (λ x e. within-IsContained (num n) x e) h
  contains-Holds (array xs) (str s) h =
      item-Holds xs (str s) tt (λ x e. within-IsContained (str s) x e) h
  contains-Holds null b h = within-IsContained b null h
  contains-Holds (bool x) b h = within-IsContained b (bool x) h
  contains-Holds (num n) b h = within-IsContained b (num n) h
  contains-Holds (str s) b h = within-IsContained b (str s) h
  contains-Holds (object fs) b h = within-IsContained b (object fs) h

some_item_here :
    (p : Json → Bool) (x : Json) (xs : Items) → IsItem x xs → p x ≡ true → some_item p xs ≡ true
some_item_here p x nil listed h = absurd listed
some_item_here p x (cons y xs) (inl e) h = rw (sym e, h) refl
some_item_here p x (cons y xs) (inr later) h = or_true (p y) (some_item_here p x xs later h)

module _ (same : Number → Number → Bool) where
  mutual
    IsContained-within : {v w : Json} → IsContained same v w → is_within same v (some w) ≡ true
    IsContained-within IsContained.same_null = refl
    IsContained-within (IsContained.same_bool {b}) = bool_refl b
    IsContained-within (IsContained.same_text {s}) = (eq_iff s s).1 refl
    IsContained-within (IsContained.same_num h) = h
    IsContained-within (IsContained.in_array held) = ItemsContained-within held
    IsContained-within (IsContained.in_object held) = FieldsContained-within held

    ItemsContained-within :
        {ys xs : Items} → ItemsContained same ys xs → items_within same ys xs ≡ true
    ItemsContained-within ItemsContained.no_items = refl
    ItemsContained-within (ItemsContained.and_item {y} {ys} {xs} x listed held rest) =
        and_intro
          (some_item_here (λ x. is_within same y (some x)) x xs listed (IsContained-within held))
          (ItemsContained-within rest)

    FieldsContained-within :
        {gs fs : Fields} → FieldsContained same gs fs → fields_within same gs fs ≡ true
    FieldsContained-within FieldsContained.no_fields = refl
    FieldsContained-within (FieldsContained.and_field found has held rest) =
        and_intro (rw has (IsContained-within held)) (FieldsContained-within rest)

  listed-contains :
      (v : Json) (xs : Items)
      → ((x : Json) → IsContained same v x → scalar_eq same v x ≡ true)
      → ((x : Json) × IsItem x xs × IsContained same v x)
      → some_item (scalar_eq same v) xs ≡ true
  listed-contains v xs equal (x, listed, held) =
      some_item_here (scalar_eq same v) x xs listed (equal x held)

  pub Holds-contains : (a b : Json) → Holds same a b → contains same a b ≡ true
  Holds-contains (array xs) (array ys) (inl held) = IsContained-within held
  Holds-contains (array xs) (array ys) (inr (scalar, rest)) = absurd scalar
  Holds-contains (array xs) (object gs) (inl held) = let h = IsContained-within held in cc
  Holds-contains (array xs) (object gs) (inr (scalar, rest)) = absurd scalar
  Holds-contains (array xs) null (inl held) = let h = IsContained-within held in cc
  Holds-contains (array xs) null (inr (scalar, rest)) =
      listed-contains null xs (λ x c. IsContained-within c) rest
  Holds-contains (array xs) (bool b) (inl held) = let h = IsContained-within held in cc
  Holds-contains (array xs) (bool b) (inr (scalar, rest)) =
      listed-contains (bool b) xs (λ x c. IsContained-within c) rest
  Holds-contains (array xs) (num n) (inl held) = let h = IsContained-within held in cc
  Holds-contains (array xs) (num n) (inr (scalar, rest)) =
      listed-contains (num n) xs (λ x c. IsContained-within c) rest
  Holds-contains (array xs) (str s) (inl held) = let h = IsContained-within held in cc
  Holds-contains (array xs) (str s) (inr (scalar, rest)) =
      listed-contains (str s) xs (λ x c. IsContained-within c) rest
  Holds-contains null b held = IsContained-within held
  Holds-contains (bool x) b held = IsContained-within held
  Holds-contains (num n) b held = IsContained-within held
  Holds-contains (str s) b held = IsContained-within held
  Holds-contains (object fs) b held = IsContained-within held
