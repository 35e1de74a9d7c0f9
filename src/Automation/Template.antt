-- ===== src/Automation/Template.antt =====
-- The substitution of `{{trigger.field}}` in one text, by `substitute_template` of
-- amos-harness/src/automations/engine.rs. The code's loop is on fuel here; `print` stands for the
-- text of a value that is not a string.
use Prim.Native.String.{[] as end, ◌∷◌ as cons}
use Prim.Native.Char.{code}
use amos_platform.Prelude.{
  join, ℕ, zero, suc, String, Option, none, some, ◌==◌, if◌then◌else◌, and_then,
}
use amos_platform.Prelude.Values.{Json, str, get}

-- What follows a prefix, where the text has it.
unfoldable pub strip_prefix : String → String → Option String
strip_prefix end s = some s
strip_prefix (cons c p) end = none
strip_prefix (cons c p) (cons d s) =
    let rest = strip_prefix p s in if code c == code d then rest else none

-- The texts before and after the first place of a pattern: `find`, and the slices around it.
abbrev pub after_char : String → Option (String × String) → Option (String × String)
after_char c none = none
after_char c (some (a, b)) = some (join c a, b)

abbrev pub here_or : Option String → Option (String × String) → Option (String × String)
here_or (some rest) later_on = some (end, rest)
here_or none later_on = later_on

unfoldable pub split_once : String → String → Option (String × String)
unfolding strip_prefix
split_once pattern end = here_or (strip_prefix pattern end) none
split_once pattern (cons c s) =
    let later_on = split_once pattern s in
    here_or (strip_prefix pattern (cons c s)) (after_char (cons c end) later_on)

module _ (print : Json → String) where
  abbrev pub text_of : Option Json → String
  text_of none = end
  text_of (some (str s)) = s
  text_of (some other) = print other

  abbrev pub replacement : Json → String → String
  replacement trigger_data name = text_of (get trigger_data name)

  -- One turn of the loop; `none` where it stops.
  unfoldable pub substitute_once : Json → String → Option String
  unfolding split_once
  substitute_once trigger_data result = and_then (split_once "{{trigger." result) λ (before, rest).
      and_then (split_once "}}" rest)
        λ (name, after). some (join before (join (replacement trigger_data name) after))

  -- `while let`, with `none` where the fuel does not suffice.
  unfoldable pub substitute_string : ℕ → Json → String → Option String
  substitute_string zero trigger_data result = none
  substitute_string (suc fuel) trigger_data result = elim (substitute_once trigger_data result) [
    | none ↦ some result
    | some next ↦ substitute_string fuel trigger_data next
  ]
