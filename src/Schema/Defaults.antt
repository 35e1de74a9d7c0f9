-- ===== src/Schema/Defaults.antt =====
-- The entries of a record after the loop of amos-harness/src/schema.rs over the defaults.
use amos_platform.Prelude.{
  ◌≡◌, refl, ap, sym, ◌∙◌, String, str_eq, eq_iff, Option, none, some, List, [], ◌∷◌, Bool-cases,
  inl, inr, if◌then◌else◌,
}
use amos_platform.Prelude.Values.{Json, Fields, get_field}
use amos_platform.Prelude.Entries.{get-insert_field}
use amos_platform.Schema.Types.{FieldDefinition}
use amos_platform.Schema.Records.{apply_defaults, or_default}

abbrev pub or_else : Option Json → Option Json → Option Json
or_else (some v) o = some v
or_else none o = o

-- The default of the first field of the name that has one.
abbrev pub default_of : String → List FieldDefinition → Option Json
default_of key [] = none
default_of key (f ∷ fields) =
    let rest = default_of key fields in
    if str_eq f.name key then or_else f.default_value rest else rest

default_case :
    (key name : String) (obj : Fields) (present default rest : Option Json)
    → get_field name obj ≡ present
    → or_else (get_field key (or_default name present default obj)) rest
      ≡ or_else (get_field key obj) (if str_eq name key then or_else default rest else rest)
default_case key name obj (some w) default rest h = elim (Bool-cases (str_eq name key)) [
  | inl e ↦ rw (e, sym ((eq_iff name key).0 e), h) refl
  | inr e ↦ rw e refl
]
default_case key name obj none none rest h = elim (Bool-cases (str_eq name key)) [
  | inl e ↦ rw e refl
  | inr e ↦ rw e refl
]
default_case key name obj none (some d) rest h =
    ap (λ o. or_else o rest) (get-insert_field key name d obj)
    ∙ elim (Bool-cases (str_eq name key)) [
      | inl e ↦ rw (e, sym ((eq_iff name key).0 e), h) refl
      | inr e ↦ rw e refl
    ]

or_none : (o : Option Json) → o ≡ or_else o none
or_none none = refl
or_none (some v) = refl

pub get-apply_defaults :
    (key : String) (fields : List FieldDefinition) (obj : Fields)
    → get_field key (apply_defaults fields obj)
      ≡ or_else (get_field key obj) (default_of key fields)
get-apply_defaults key [] obj = or_none (get_field key obj)
get-apply_defaults key (f ∷ fields) obj =
    get-apply_defaults key fields (or_default f.name (get_field f.name obj) f.default_value obj)
    ∙ default_case key f.name obj (get_field f.name obj) f.default_value (default_of key fields)
        refl
