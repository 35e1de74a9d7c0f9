-- ===== src/Schema/Kinds.antt =====
-- The types of values of amos-harness/src/schema.rs, and its tests of them.
use amos_platform.Prelude.{
  ◌≡◌, ◌⊎◌, ◌↔◌, inl, inr, refl, ap, sym, subst, arith, Bool, true, false, String, eq_iff, Option,
  none, some, and_then, Bool-cases, ℤ,
}
use amos_platform.Prelude.Values.{
  Json, Items, Number, null, bool, num, str, array, object, nil, cons, int, float, get,
}
use amos_platform.Error.{Result, ok, ◌>>=◌}
use amos_platform.Schema.Types.{FieldType}
use amos_platform.Schema.Validation.{
  UuidReader, is_choice, is_one_of, as_array, need, is_string, is_integer, is_number, is_boolean,
  text_or, check_choice,
}

abbrev pub IsText : Json → Type 0
IsText v = (s : String) × (v ≡ str s)

abbrev pub HasItem : Json → Items → Type 0
HasItem v nil = ⊥
HasItem v (cons x xs) = (x ≡ v) ⊎ HasItem v xs

abbrev pub OneOf : Option Items → String → Type 0
OneOf none s = Unit
OneOf (some choices) s = HasItem (str s) choices

abbrev pub HasType : UuidReader → FieldType → Json → Json → Type 0
HasType reader FieldType.text options v = IsText v
HasType reader FieldType.rich_text options v = IsText v
HasType reader FieldType.email options v = IsText v
HasType reader FieldType.url options v = IsText v
HasType reader FieldType.phone options v = IsText v
HasType reader FieldType.date options v = IsText v
HasType reader FieldType.date_time options v = IsText v
HasType reader FieldType.number options v = (n : ℤ) × (v ≡ num (int n))
HasType reader FieldType.decimal options v = (n : Number) × (v ≡ num n)
HasType reader FieldType.boolean options v = (b : Bool) × (v ≡ bool b)
HasType reader FieldType.enum options v =
    (s : String) × (v ≡ str s) × OneOf (and_then (get options "choices") as_array) s
HasType reader FieldType.reference options v =
    (s : String) × (v ≡ str s) × (reader.is_uuid s ≡ true)
HasType reader FieldType.json options v = Unit

module _ (name what : String) where
  pub string_lem : (v : Json) → (need name what (is_string v) ≡ ok tt) ↔ IsText v
  string_lem null = (λ h. cc, λ h. cc)
  string_lem (bool b) = (λ h. cc, λ h. cc)
  string_lem (num n) = (λ h. cc, λ h. cc)
  string_lem (str s) = (λ h. (s, refl), λ h. refl)
  string_lem (array xs) = (λ h. cc, λ h. cc)
  string_lem (object fs) = (λ h. cc, λ h. cc)

  pub integer_lem :
      (v : Json) → (need name what (is_integer v) ≡ ok tt) ↔ ((n : ℤ) × (v ≡ num (int n)))
  integer_lem null = (λ h. cc, λ h. cc)
  integer_lem (bool b) = (λ h. cc, λ h. cc)
  integer_lem (num (int n)) = (λ h. (n, refl), λ h. refl)
  integer_lem (num (float b)) = (λ h. cc, λ h. cc)
  integer_lem (str s) = (λ h. cc, λ h. cc)
  integer_lem (array xs) = (λ h. cc, λ h. cc)
  integer_lem (object fs) = (λ h. cc, λ h. cc)

  pub number_lem :
      (v : Json) → (need name what (is_number v) ≡ ok tt) ↔ ((n : Number) × (v ≡ num n))
  number_lem null = (λ h. cc, λ h. cc)
  number_lem (bool b) = (λ h. cc, λ h. cc)
  number_lem (num n) = (λ h. (n, refl), λ h. refl)
  number_lem (str s) = (λ h. cc, λ h. cc)
  number_lem (array xs) = (λ h. cc, λ h. cc)
  number_lem (object fs) = (λ h. cc, λ h. cc)

  pub boolean_lem :
      (v : Json) → (need name what (is_boolean v) ≡ ok tt) ↔ ((b : Bool) × (v ≡ bool b))
  boolean_lem null = (λ h. cc, λ h. cc)
  boolean_lem (bool b) = (λ h. (b, refl), λ h. refl)
  boolean_lem (num n) = (λ h. cc, λ h. cc)
  boolean_lem (str s) = (λ h. cc, λ h. cc)
  boolean_lem (array xs) = (λ h. cc, λ h. cc)
  boolean_lem (object fs) = (λ h. cc, λ h. cc)

-- A test that answers ok exactly on the texts with a property.
module _ (name what : String) (test : String → Result (Unit {0})) (P : String → Type 0)
    (exact : (s : String) → (test s ≡ ok tt) ↔ P s) where
  pub text_lem :
      (v : Json) → ((text_or name what v >>= test) ≡ ok tt) ↔ ((s : String) × (v ≡ str s) × P s)
  text_lem null = (λ h. cc, λ h. cc)
  text_lem (bool b) = (λ h. cc, λ h. cc)
  text_lem (num n) = (λ h. cc, λ h. cc)
  text_lem (str s) = (
    λ h. (s, refl, (exact s).0 h),
    λ (x, e, p). let same : s ≡ x = cc in (exact s).1 (subst P (sym same) p),
  )
  text_lem (array xs) = (λ h. cc, λ h. cc)
  text_lem (object fs) = (λ h. cc, λ h. cc)

choice_lem : (s : String) (v : Json) → (is_choice s v ≡ true) ↔ (v ≡ str s)
choice_lem s null = (λ h. cc, λ h. cc)
choice_lem s (bool b) = (λ h. cc, λ h. cc)
choice_lem s (num n) = (λ h. cc, λ h. cc)
choice_lem s (str c) =
    (λ h. ap str ((eq_iff c s).0 h), λ e. let same : c ≡ s = cc in (eq_iff c s).1 same)
choice_lem s (array xs) = (λ h. cc, λ h. cc)
choice_lem s (object fs) = (λ h. cc, λ h. cc)

one_of_lem : (choices : Items) (s : String) → (is_one_of choices s ≡ true) ↔ HasItem (str s) choices
one_of_lem nil s = (λ h. cc, λ h. absurd h)
one_of_lem (cons x xs) s = (
  λ h. elim (Bool-cases (is_choice s x)) [
    | inl e ↦ inl ((choice_lem s x).0 e)
    | inr e ↦ inr ((one_of_lem xs s).0 (rw e at h))
  ],
  λ h. elim h [
    | inl e ↦ rw ((choice_lem s x).1 e) refl
    | inr later ↦ ground (arith, (one_of_lem xs s).1 later)
  ],
)

pub check_choice_lem :
    (name : String) (choices : Option Items) (s : String)
    → (check_choice name s choices ≡ ok tt) ↔ OneOf choices s
check_choice_lem name none s = (λ h. tt, λ h. refl)
check_choice_lem name (some choices) s =
    (λ h. (one_of_lem choices s).0 (ground arith), λ h. rw ((one_of_lem choices s).1 h) refl)

pub need_lem : (name what : String) (b : Bool) → (need name what b ≡ ok tt) ↔ (b ≡ true)
need_lem name what true = (λ h. refl, λ h. refl)
need_lem name what false = (λ h. cc, λ h. cc)
