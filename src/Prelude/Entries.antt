-- ===== src/Prelude/Entries.antt =====
-- Entries put into objects, in key order, and the JSONB operators `||` and `@>` of PostgreSQL.
use Prim.Native.String.{String, compare}
use Prim.Native.Nat.{Ordering}
use mathlib.Core.Path.{◌≡◌, refl, sym, subst}
use mathlib.Core.Logic.{inl, inr}
use mathlib.Core.Bool.{Bool, true, false, ◌&&◌, ◌||◌}
use mathlib.Core.Option.{Option, none, some}
use text.Mathlib.Text.{is_eq, ◌==◌ as str_eq}
use text.Mathlib.TextEquality.{eq_iff}
use amos_platform.Prelude.Tests.{if◌then◌else◌, Bool-cases}
use amos_platform.Prelude.Values.{
  Json, Items, Fields, Number, null, bool, num, str, array, object, nil, cons, empty, field,
  get_field, bool_eq,
}

-- `Map::insert`
abbrev pub insert_field : String → Json → Fields → Fields
insert_field key value empty = field key value empty
insert_field key value (field k v fs) =
    let rest = insert_field key value fs in
    elim (compare key k) [
      | Ordering.lt ↦ field key value (field k v fs)
      | Ordering.eq ↦ field key value fs
      | Ordering.gt ↦ field k v rest
    ]

-- Two objects: the union of their entries, the right one's where both have a key.
abbrev pub merge_fields : Fields → Fields → Fields
merge_fields fs empty = fs
merge_fields fs (field k v gs) = merge_fields (insert_field k v fs) gs

abbrev append_items : Items → Items → Items
append_items nil ys = ys
append_items (cons x xs) ys = cons x (append_items xs ys)

abbrev as_items : Json → Items
as_items (array xs) = xs
as_items v = cons v nil

-- `||`
abbrev pub concat_json : Json → Json → Json
concat_json (object fs) (object gs) = object (merge_fields fs gs)
concat_json a b = array (append_items (as_items a) (as_items b))

abbrev pub some_item : (Json → Bool) → Items → Bool
some_item p nil = false
some_item p (cons x xs) = p x || some_item p xs

-- The containment of jsonb values, where numbers are compared by the function given: PostgreSQL
-- compares them as numerics, so that 1 and 1.0 are the same.
module _ (same_number : Number → Number → Bool) where
  abbrev pub scalar_eq : Json → Json → Bool
  scalar_eq null null = true
  scalar_eq (bool a) (bool b) = bool_eq a b
  scalar_eq (num a) (num b) = same_number a b
  scalar_eq (str a) (str b) = str_eq a b
  scalar_eq _ _ = false

  -- Whether a value is contained in the other one, where there is one and it is of the same kind;
  -- whatever that has and is not asked for is passed over.
  abbrev mutual
    pub is_within : Json → Option Json → Bool
    is_within (object gs) (some (object fs)) = fields_within gs fs
    is_within (array ys) (some (array xs)) = items_within ys xs
    is_within (object gs) o = false
    is_within (array ys) o = false
    is_within v none = false
    is_within v (some w) = scalar_eq v w

    pub fields_within : Fields → Fields → Bool
    fields_within empty fs = true
    fields_within (field k v gs) fs = is_within v (get_field k fs) && fields_within gs fs

    pub items_within : Items → Items → Bool
    items_within nil xs = true
    items_within (cons y ys) xs = some_item (λ x. is_within y (some x)) xs && items_within ys xs

  -- `@>`: an array also contains a scalar that it has.
  abbrev pub contains : Json → Json → Bool
  contains (array xs) (array ys) = is_within (array ys) (some (array xs))
  contains (array xs) (object gs) = false
  contains (array xs) v = some_item (scalar_eq v) xs
  contains a b = is_within b (some a)

insert_case :
    (j key k : String) (value v : Json) (fs rest : Fields) (order : Ordering)
    → is_eq order ≡ str_eq key k
    → get_field j rest ≡ (if str_eq key j then some value else get_field j fs)
    → get_field j (elim order [
      | Ordering.lt ↦ field key value (field k v fs)
      | Ordering.eq ↦ field key value fs
      | Ordering.gt ↦ field k v rest
    ])
      ≡ (if str_eq key j then some value else get_field j (field k v fs))
insert_case j key k value v fs rest Ordering.lt h ih = refl
insert_case j key k value v fs rest Ordering.eq h ih =
    let same : key ≡ k = (eq_iff key k).0 (sym h) in
    elim (Bool-cases (str_eq key j)) [
      | inl e ↦ rw e refl
      | inr e ↦ rw (e, subst (λ x. str_eq x j ≡ false) same e) refl
    ]
insert_case j key k value v fs rest Ordering.gt h ih = elim (Bool-cases (str_eq k j)) [
  | inl e ↦
      let other : str_eq key j ≡ false =
        subst (λ x. str_eq key x ≡ false) ((eq_iff k j).0 e) (sym h) in
      rw (e, other) refl
  | inr e ↦ rw e ih
]

-- What an inserted entry changes.
pub get-insert_field :
    (j key : String) (value : Json) (fs : Fields)
    → get_field j (insert_field key value fs)
      ≡ (if str_eq key j then some value else get_field j fs)
get-insert_field j key value empty = refl
get-insert_field j key value (field k v fs) =
    insert_case j key k value v fs (insert_field key value fs) (compare key k) refl
      (get-insert_field j key value fs)
