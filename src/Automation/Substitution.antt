-- ===== src/Automation/Substitution.antt =====
-- When the substitution of amos-harness/src/automations/engine.rs comes to an end.
use Prim.Native.String.{[] as end, ◌∷◌ as cons}
use Prim.Native.Char.{Char, code}
use amos_platform.Prelude.{
  join, ℕ, zero, suc, ◌+◌, ◌*◌, ◌≤◌, ◌<◌, ◌≡◌, refl, arith, String, Option, none, some, ◌==◌,
  if◌then◌else◌, and_then, ◌⊎◌, Option-cases, inl, inr,
}
use mathlib.Core.Option.{some-injective}
use amos_platform.Prelude.Values.{Json}
use amos_platform.Automation.Template.{
  strip_prefix, after_char, here_or, split_once, replacement, substitute_once, substitute_string,
}

-- The opening braces of a text.
abbrev pub braces : String → ℕ
braces end = 0
braces (cons c s) = (if code c == 123 then 1 else 0) + braces s

braces-join : (a b : String) → braces (join a b) ≡ braces a + braces b
braces-join end b = omega arith
braces-join (cons c a) b = omega (arith, braces-join a b)

strip_prefix-braces :
    (p s rest : String) → strip_prefix p s ≡ some rest → braces p + braces rest ≡ braces s
unfolding strip_prefix
strip_prefix-braces end s rest h = ground arith
strip_prefix-braces (cons c p) end rest h = cc
strip_prefix-braces (cons c p) (cons d s) rest h = ground (arith, strip_prefix-braces p s rest)

after_char_braces :
    (c : Char) (o : Option (String × String)) (a b : String)
    → after_char (cons c end) o ≡ some (a, b)
    → (a' : String) × (o ≡ some (a', b)) × (a ≡ cons c a')
after_char_braces c none a b h = cc
after_char_braces c (some (x, y)) a b h = (x, ground arith, ground arith)

-- A place that is found here, or further on.
here_or_cases :
    (o : Option String) (later_on : Option (String × String)) (a b : String)
    → here_or o later_on ≡ some (a, b)
    → ((o ≡ some b) × (a ≡ end)) ⊎ (later_on ≡ some (a, b))
here_or_cases none later_on a b h = inr h
here_or_cases (some rest) later_on a b h = inl (ground arith, ground arith)

split_once-braces :
    (p s a b : String) → split_once p s ≡ some (a, b) → braces a + braces p + braces b ≡ braces s
unfolding split_once
split_once-braces p end a b h = elim (here_or_cases (strip_prefix p end) none a b h) [
  | inl (found, empty_is) ↦ rw empty_is (omega (arith, strip_prefix-braces p end b found))
  | inr never ↦ cc
]
split_once-braces p (cons c s) a b h =
    elim (here_or_cases (strip_prefix p (cons c s)) (after_char (cons c end) (split_once p s)) a b
      h) [
        | inl (found, empty_is) ↦
            rw empty_is (omega (arith, strip_prefix-braces p (cons c s) b found))
        | inr further ↦
            let (a', rest, a_is) = after_char_braces c (split_once p s) a b further in
            rw a_is (omega (arith, split_once-braces p s a' b rest))
      ]

and_then_cases :
    {A B : Type 0} (o : Option A) (f : A → Option B) (b : B)
    → and_then o f ≡ some b
    → (a : A) × (o ≡ some a) × (f a ≡ some b)
and_then_cases none f b h = cc
and_then_cases (some a) f b h = (a, refl, h)

module _ (print : Json → String) (trigger_data : Json)
    (plain : (name : String) → braces (replacement print trigger_data name) ≡ 0) where
  -- A turn takes the two braces of a binding away.
  fewer : (s t : String) → substitute_once print trigger_data s ≡ some t → braces t + 2 ≤ braces s
  unfolding substitute_once
  fewer s t h =
      let ((before, rest), opened, tail) = and_then_cases (split_once "{{trigger." s) _ t h in
      let ((name, after), closed, whole) = and_then_cases (split_once "}}" rest) _ t tail in
      let value : String = replacement print trigger_data name in
      let t_is : join before (join value after) ≡ t = some-injective _ t whole in
      rw (← t_is) (
        omega (
          arith,
          split_once-braces "{{trigger." s before rest opened,
          split_once-braces "}}" rest name after closed,
          braces-join before (join value after),
          braces-join value after,
          plain name,
        ))

  -- Where no value that is put in for a field has an opening brace, half as many turns as the text has
  -- opening braces, and one, are enough for any text: the substitution ends, in a text that holds no
  -- binding.
  pub substitute_string-ends :
      (fuel : ℕ) (s : String)
      → braces s < 2 * fuel
      → (t : String) × (substitute_string print fuel trigger_data s ≡ some t)
        × (substitute_once print trigger_data t ≡ none)
  unfolding substitute_string
  substitute_string-ends zero s h = absurd (omega arith)
  substitute_string-ends (suc fuel) s h =
      elim (Option-cases (substitute_once print trigger_data s)) [
        | inl stops ↦ (s, rw (stops, substitute_string) refl, stops)
        | inr (next, goes_on) ↦
            let (t, ends, free) =
              substitute_string-ends fuel next (omega (arith, fewer s next goes_on)) in
            (t, rw (goes_on, substitute_string) ends, free)
      ]
