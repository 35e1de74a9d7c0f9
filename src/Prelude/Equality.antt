-- ===== src/Prelude/Equality.antt =====
-- `==` of JSON values says yes of a value and itself, and of objects compares what each key has.
use mathlib.Core.Path.{◌≡◌, refl}
use mathlib.Core.Bool.{Bool, true, ◌&&◌}
use mathlib.Core.Option.{Option, none, some}
use mathlib.Core.Logic.{inl, inr}
use native.Mathlib.Omega.{arith}
use Prim.Native.String.{String}
use text.Mathlib.Text.{◌==◌ as str_eq}
use text.Mathlib.TextEquality.{eq_iff}
use amos_platform.Prelude.Tests.{Bool-cases, ==_refl, and_left, and_right}
use amos_platform.Prelude.Int.{ℤ, pos, negsuc}
use amos_platform.Prelude.Values.{
  Json, Items, Fields, Number, null, bool, num, str, array, object, nil, cons, empty, field, int,
  float, get_field, json_eq, items_eq, fields_eq, number_eq, int_eq, bool_eq,
}

pub str_eq_refl : (s : String) → str_eq s s ≡ true
str_eq_refl s = (eq_iff s s).1 refl

int_eq_refl : (n : ℤ) → int_eq n n ≡ true
int_eq_refl (pos n) = ==_refl n
int_eq_refl (negsuc n) = ==_refl n

number_eq_refl : (n : Number) → number_eq n n ≡ true
number_eq_refl (int n) = int_eq_refl n
number_eq_refl (float n) = rw (==_refl n) refl

bool_eq_refl : (b : Bool) → bool_eq b b ≡ true
bool_eq_refl b = ground arith

mutual
  pub json_eq_refl : (v : Json) → json_eq v v ≡ true
  json_eq_refl null = refl
  json_eq_refl (bool b) = bool_eq_refl b
  json_eq_refl (num n) = number_eq_refl n
  json_eq_refl (str s) = str_eq_refl s
  json_eq_refl (array xs) = items_eq_refl xs
  json_eq_refl (object fs) = fields_eq_refl fs

  items_eq_refl : (xs : Items) → items_eq xs xs ≡ true
  items_eq_refl nil = refl
  items_eq_refl (cons v xs) = rw (json_eq_refl v, items_eq_refl xs) refl

  fields_eq_refl : (fs : Fields) → fields_eq fs fs ≡ true
  fields_eq_refl empty = refl
  fields_eq_refl (field k v fs) = rw (str_eq_refl k, json_eq_refl v, fields_eq_refl fs) refl

-- What a key has in two objects is the same: nothing, or equal values.
abbrev pub Same : Option Json → Option Json → Type 0
Same none none = Unit
Same (some a) (some b) = json_eq a b ≡ true
Same _ _ = ⊥

pub Same-refl : (o : Option Json) → Same o o
Same-refl none = tt
Same-refl (some v) = json_eq_refl v

-- Equal objects have the same at every key.
pub fields_eq-Same :
    (k : String) (xs ys : Fields) → fields_eq xs ys ≡ true → Same (get_field k xs) (get_field k ys)
fields_eq-Same k empty empty h = tt
fields_eq-Same k empty (field j b ys) h = cc
fields_eq-Same k (field i a xs) empty h = cc
fields_eq-Same k (field i a xs) (field j b ys) h =
    let head = and_left (str_eq i j && json_eq a b) (fields_eq xs ys) h in
    let keys : i ≡ j = (eq_iff i j).0 (and_left (str_eq i j) (json_eq a b) head) in
    let values : json_eq a b ≡ true = and_right (str_eq i j) (json_eq a b) head in
    let rest = and_right (str_eq i j && json_eq a b) (fields_eq xs ys) h in
    elim (Bool-cases (str_eq j k)) [
      | inl e ↦ rw (keys, e) values
      | inr e ↦ rw (keys, e) (fields_eq-Same k xs ys rest)
    ]
