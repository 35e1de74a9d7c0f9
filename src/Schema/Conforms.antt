-- ===== src/Schema/Conforms.antt =====
-- What `validate_record_data` of amos-harness/src/schema.rs asks of a record, independently of how it
-- tests it.
use amos_platform.Prelude.{
  ◌≡◌, ◌↔◌, inl, inr, refl, sym, subst, arith, true, false, String, Option, none, some, List, [],
  ◌∷◌, All, and_then, Bool-cases,
}
use amos_platform.Prelude.Values.{Json, Fields, null, bool, num, str, array, object, get, get_field}
use amos_platform.Error.{ok, passes-eq-ok}
use amos_platform.Schema.Types.{FieldType, FieldDefinition}
use amos_platform.Schema.Validation.{
  UuidReader, is_null, as_array, need, check_choice, validate_field_value, check_type,
  validate_field, validate_fields, validate_record_data,
}
use amos_platform.Schema.Kinds.{
  HasType, OneOf, string_lem, integer_lem, number_lem, boolean_lem, text_lem, check_choice_lem,
  need_lem,
}

-- A field that is required is there and not null; a value that is there and not null has the field's
-- type.
abbrev pub FieldConforms : UuidReader → FieldDefinition → Option Json → Type 0
FieldConforms reader f none = f.required ≡ false
FieldConforms reader f (some null) = f.required ≡ false
FieldConforms reader f (some v) = HasType reader f.field_type f.options v

abbrev pub Conforms : UuidReader → List FieldDefinition → Json → Type 0
Conforms reader fields contents =
    (obj : Fields) × (contents ≡ object obj)
    × All (λ f. FieldConforms reader f (get_field f.name obj)) fields

module _ (reader : UuidReader) where
  value_lem :
      (name : String) (t : FieldType) (v options : Json)
      → (validate_field_value reader name t v options ≡ ok tt) ↔ HasType reader t options v
  unfolding validate_field_value
  value_lem name FieldType.text v options = string_lem name _ v
  value_lem name FieldType.rich_text v options = string_lem name _ v
  value_lem name FieldType.email v options = string_lem name _ v
  value_lem name FieldType.url v options = string_lem name _ v
  value_lem name FieldType.phone v options = string_lem name _ v
  value_lem name FieldType.date v options = string_lem name _ v
  value_lem name FieldType.date_time v options = string_lem name _ v
  value_lem name FieldType.number v options = integer_lem name _ v
  value_lem name FieldType.decimal v options = number_lem name _ v
  value_lem name FieldType.boolean v options = boolean_lem name _ v
  value_lem name FieldType.enum v options =
      let choices = and_then (get options "choices") as_array in
      text_lem name _ (λ s. check_choice name s choices) (OneOf choices)
        (check_choice_lem name choices) v
  value_lem name FieldType.reference v options =
      text_lem name _ (λ s. need name " must be a valid UUID" (reader.is_uuid s))
        (λ s. reader.is_uuid s ≡ true) (λ s. need_lem name _ (reader.is_uuid s)) v
  value_lem name FieldType.json v options = (λ h. tt, λ h. refl)

  field_none : (f : FieldDefinition) → (validate_field reader f none ≡ ok tt) ↔ (f.required ≡ false)
  unfolding validate_field check_type
  field_none f = (λ h. ground arith, λ h. ground arith)

  field_null :
      (f : FieldDefinition) → (validate_field reader f (some null) ≡ ok tt) ↔ (f.required ≡ false)
  unfolding validate_field check_type
  field_null f = (λ h. ground arith, λ h. ground arith)

  field_value :
      (f : FieldDefinition) (v : Json)
      → is_null v ≡ false
      → validate_field reader f (some v)
        ≡ validate_field_value reader f.display_name f.field_type v f.options
  unfolding validate_field check_type
  field_value f v h = elim (Bool-cases f.required) [
    | inl e ↦ rw (e, h) refl
    | inr e ↦ rw (e, h) refl
  ]

  typed_lem :
      (f : FieldDefinition) (v : Json)
      → is_null v ≡ false
      → (validate_field reader f (some v) ≡ ok tt) ↔ HasType reader f.field_type f.options v
  typed_lem f v h = rw (field_value f v h) (value_lem f.display_name f.field_type v f.options)

  field_lem :
      (f : FieldDefinition) (o : Option Json)
      → (validate_field reader f o ≡ ok tt) ↔ FieldConforms reader f o
  field_lem f none = field_none f
  field_lem f (some null) = field_null f
  field_lem f (some (bool b)) = typed_lem f (bool b) refl
  field_lem f (some (num n)) = typed_lem f (num n) refl
  field_lem f (some (str s)) = typed_lem f (str s) refl
  field_lem f (some (array xs)) = typed_lem f (array xs) refl
  field_lem f (some (object fs)) = typed_lem f (object fs) refl

  fields_lem :
      (fields : List FieldDefinition) (obj : Fields)
      → (validate_fields reader fields obj ≡ ok tt)
        ↔ All (λ f. FieldConforms reader f (get_field f.name obj)) fields
  unfolding validate_fields
  fields_lem [] obj = (λ h. tt, λ h. refl)
  fields_lem (f ∷ fields) obj = (
    λ h.
        let (done, first, rest) =
          passes-eq-ok (validate_field reader f (get_field f.name obj))
            (λ _. validate_fields reader fields obj) h in
        ((field_lem f (get_field f.name obj)).0 first, (fields_lem fields obj).0 rest),
    λ h. rw ((field_lem f (get_field f.name obj)).1 h.0) ((fields_lem fields obj).1 h.1),
  )

-- A record passes validation exactly where it is an object in which each field of the collection
-- that is required is there and not null, and each that is there and not null has its type: a text
-- (also for a date, an address and a phone number, whose form is not looked at), an integer, a number,
-- a boolean, one of the choices where the field has a list of them, or the text of a UUID.
pub validate_record_data-Conforms :
    (reader : UuidReader) (fields : List FieldDefinition) (contents : Json)
    → (validate_record_data reader fields contents ≡ ok tt) ↔ Conforms reader fields contents
unfolding validate_record_data
validate_record_data-Conforms reader fields null = (λ h. cc, λ (obj, e, rest). cc)
validate_record_data-Conforms reader fields (bool b) = (λ h. cc, λ (obj, e, rest). cc)
validate_record_data-Conforms reader fields (num n) = (λ h. cc, λ (obj, e, rest). cc)
validate_record_data-Conforms reader fields (str s) = (λ h. cc, λ (obj, e, rest). cc)
validate_record_data-Conforms reader fields (array xs) = (λ h. cc, λ (obj, e, rest). cc)
validate_record_data-Conforms reader fields (object obj) = (
  λ h. (obj, refl, (fields_lem reader fields obj).0 h),
  λ (other, e, rest).
      let same : obj ≡ other = cc in
      (fields_lem reader fields obj).1 (
        subst (λ o. All (λ f. FieldConforms reader f (get_field f.name o)) fields) (sym same) rest),
)
