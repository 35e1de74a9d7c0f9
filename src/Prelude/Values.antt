-- ===== src/Prelude/Values.antt =====
-- `serde_json::Value`. An object is a list of entries in key order.
use Prim.Native.Nat.{ℕ}
use Prim.Native.String.{String}
use text.Mathlib.Text.{◌==◌ as str_eq}
use mathlib.Core.Bool.{Bool, true, false, not, ◌&&◌, ◌||◌}
use mathlib.Core.Option.{Option, none, some}
use amos_platform.Prelude.Tests.{if◌then◌else◌, ◌==◌}
use amos_platform.Prelude.Int.{ℤ, pos, negsuc}

-- `serde_json::Number`: an integer, or the bit pattern of an `f64`.
pub data Number : Type 0 where
  int : ℤ → Number
  float : ℕ → Number

mutual
  pub data Json : Type 0 where
    null : Json
    bool : Bool → Json
    num : Number → Json
    str : String → Json
    array : Items → Json
    object : Fields → Json

  pub data Items : Type 0 where
    nil : Items
    cons : Json → Items → Items

  pub data Fields : Type 0 where
    empty : Fields
    field : String → Json → Fields → Fields

-- `Map::get`
abbrev pub get_field : String → Fields → Option Json
get_field k empty = none
get_field k (field j v fs) = if str_eq j k then some v else get_field k fs

-- `Value::get` with a string, which answers only for an object.
abbrev pub get : Json → String → Option Json
get (object fs) k = get_field k fs
get _ k = none

abbrev pub as_str : Json → Option String
as_str (str s) = some s
as_str _ = none

abbrev pub int_eq : ℤ → ℤ → Bool
int_eq (pos m) (pos n) = m == n
int_eq (negsuc m) (negsuc n) = m == n
int_eq _ _ = false

-- 0.0 and -0.0 are equal.
abbrev is_zero_float : ℕ → Bool
is_zero_float bits = (bits == 0) || (bits == 9223372036854775808)

abbrev pub number_eq : Number → Number → Bool
number_eq (int m) (int n) = int_eq m n
number_eq (float m) (float n) = (m == n) || (is_zero_float m && is_zero_float n)
number_eq _ _ = false

abbrev pub bool_eq : Bool → Bool → Bool
bool_eq true b = b
bool_eq false b = not b

-- `==` of two values.
abbrev mutual
  pub json_eq : Json → Json → Bool
  json_eq null null = true
  json_eq (bool a) (bool b) = bool_eq a b
  json_eq (num a) (num b) = number_eq a b
  json_eq (str a) (str b) = str_eq a b
  json_eq (array a) (array b) = items_eq a b
  json_eq (object a) (object b) = fields_eq a b
  json_eq _ _ = false

  pub items_eq : Items → Items → Bool
  items_eq nil nil = true
  items_eq (cons a xs) (cons b ys) = json_eq a b && items_eq xs ys
  items_eq _ _ = false

  pub fields_eq : Fields → Fields → Bool
  fields_eq empty empty = true
  fields_eq (field j a xs) (field k b ys) = str_eq j k && json_eq a b && fields_eq xs ys
  fields_eq _ _ = false
