-- ===== src/Schema/Validation.antt =====
-- `validate_record_data` of amos-harness/src/schema.rs.
use amos_platform.Prelude.{
  Bool, true, false, not, ◌&&◌, String, str_eq, Option, none, some, List, [], ◌∷◌, and_then,
  if◌then◌else◌, Message, lit, literal,
}
use amos_platform.Prelude.Values.{
  Json, Items, Fields, null, bool, num, str, array, object, nil, cons, int, get, get_field, as_str,
}
use amos_platform.Prelude.Entries.{some_item}
use amos_platform.Error.{Result, ok, err, ◌>>=◌, ◌>>◌, validation, fail_if}
use amos_platform.Schema.Types.{FieldType, FieldDefinition}

-- `Uuid::parse_str(s).is_ok()`
pub record UuidReader : Type 0 where
  pub is_uuid : String → Bool

abbrev pub is_null : Json → Bool
is_null null = true
is_null _ = false

abbrev pub is_string : Json → Bool
is_string (str s) = true
is_string _ = false

-- `is_i64() || is_u64()`
abbrev pub is_integer : Json → Bool
is_integer (num (int n)) = true
is_integer _ = false

abbrev pub is_number : Json → Bool
is_number (num n) = true
is_number _ = false

abbrev pub is_boolean : Json → Bool
is_boolean (bool b) = true
is_boolean _ = false

-- `Value::as_array`
abbrev pub as_array : Json → Option Items
as_array (array xs) = some xs
as_array _ = none

-- `'{name}' must …`
abbrev must : String → Message → Message
must display_name rest = lit "'" ∷ lit display_name ∷ lit "'" ∷ rest

abbrev pub need : String → String → Bool → Result (Unit {0})
need display_name what holds = fail_if (not holds) (validation (must display_name (literal what)))

abbrev pub is_choice : String → Json → Bool
is_choice s (str c) = str_eq c s
is_choice s _ = false

abbrev pub is_one_of : Items → String → Bool
is_one_of choices s = some_item (is_choice s) choices

abbrev add_choice : Option String → List String → List String
add_choice none rest = rest
add_choice (some c) rest = c ∷ rest

abbrev choice_texts : Items → List String
choice_texts nil = []
choice_texts (cons v xs) = add_choice (as_str v) (choice_texts xs)

-- `join(", ")`
abbrev joined_after : List String → Message
joined_after [] = []
joined_after (s ∷ rest) = lit ", " ∷ lit s ∷ joined_after rest

abbrev joined : List String → Message
joined [] = []
joined (s ∷ rest) = lit s ∷ joined_after rest

abbrev pub check_choice : String → String → Option Items → Result (Unit {0})
check_choice display_name s none = ok tt
check_choice display_name s (some choices) =
    fail_if (not (is_one_of choices s))
      (validation (must display_name (lit " must be one of: " ∷ joined (choice_texts choices))))

-- `as_str().ok_or_else(…)?`
abbrev pub text_or : String → String → Json → Result String
text_or display_name what (str s) = ok s
text_or display_name what _ = err (validation (must display_name (literal what)))

module _ (reader : UuidReader) where
  unfoldable pub validate_field_value : String → FieldType → Json → Json → Result (Unit {0})
  validate_field_value name FieldType.text v options = need name " must be a string" (is_string v)
  validate_field_value name FieldType.rich_text v options =
      need name " must be a string" (is_string v)
  validate_field_value name FieldType.email v options = need name " must be a string" (is_string v)
  validate_field_value name FieldType.url v options = need name " must be a string" (is_string v)
  validate_field_value name FieldType.phone v options = need name " must be a string" (is_string v)
  validate_field_value name FieldType.number v options =
      need name " must be an integer" (is_integer v)
  validate_field_value name FieldType.decimal v options =
      need name " must be a number" (is_number v)
  validate_field_value name FieldType.boolean v options =
      need name " must be a boolean" (is_boolean v)
  validate_field_value name FieldType.date v options =
      need name " must be a date string (ISO 8601)" (is_string v)
  validate_field_value name FieldType.date_time v options =
      need name " must be a date string (ISO 8601)" (is_string v)
  validate_field_value name FieldType.enum v options = do
    s ← text_or name " must be a string" v
    check_choice name s (and_then (get options "choices") as_array)
  validate_field_value name FieldType.reference v options = do
    s ← text_or name " must be a UUID string" v
    need name " must be a valid UUID" (reader.is_uuid s)
  validate_field_value name FieldType.json v options = ok tt

  abbrev pub is_absent : Option Json → Bool
  is_absent none = true
  is_absent (some v) = is_null v

  -- The type check, which skips nulls and missing fields.
  unfoldable pub check_type : FieldDefinition → Option Json → Result (Unit {0})
  unfolding validate_field_value
  check_type f none = ok tt
  check_type f (some v) =
      if is_null v then ok tt else validate_field_value f.display_name f.field_type v f.options

  unfoldable pub validate_field : FieldDefinition → Option Json → Result (Unit {0})
  unfolding check_type
  validate_field f value = do
    fail_if (f.required && is_absent value)
        (validation (lit "Field '" ∷ lit f.display_name ∷ lit "' is required" ∷ []))
    check_type f value

  unfoldable pub validate_fields : List FieldDefinition → Fields → Result (Unit {0})
  unfolding validate_field
  validate_fields [] obj = ok tt
  validate_fields (f ∷ fields) obj = do
    validate_field f (get_field f.name obj)
    validate_fields fields obj

  unfoldable pub validate_record_data : List FieldDefinition → Json → Result (Unit {0})
  unfolding validate_fields
  validate_record_data fields (object obj) = validate_fields fields obj
  validate_record_data fields _ = err (validation (literal "Record data must be a JSON object"))
