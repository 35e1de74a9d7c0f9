-- ===== src/Hooks/Globs.antt =====
-- Which names a pattern of amos-core/src/hooks.rs matches.
use Prim.Native.String.{[] as end, ◌∷◌ as cons}
use Prim.Native.String.{◌++◌ as append}
use Prim.Native.Char.{code}
use mathlib.Core.Logic.{◌↔◌}
use text.Mathlib.Text.{starts_with}
use text.Mathlib.TextEquality.{starts_with_iff}
use text.Mathlib.TextLemmas.{nil-append, cons-append, cons≢nil}
use mathlib.Core.Option.{some-injective}
use amos_platform.Prelude.{
  ◌≡◌, refl, ap, sym, ◌∙◌, subst, Bool, true, false, ◌||◌, ◌==◌, Bool-cases, inl, inr, String,
  str_eq, eq_iff, none, some, arith, join,
}
use amos_platform.Hooks.{
  has_star, longer, without_last_star, without_first_star, ends_with, matches_tool,
}

-- A text that begins with another, and one that ends in another.
abbrev pub IsBegun : String → String → Type 0
IsBegun s front = (rest : String) × (s ≡ join front rest)

abbrev pub IsEnded : String → String → Type 0
IsEnded s rest = (front : String) × (s ≡ join front rest)

join_is_append : (s t : String) → join s t ≡ append s t
join_is_append end t = sym (nil-append t)
join_is_append (cons c s) t = ap (cons c) (join_is_append s t) ∙ sym (cons-append c s t)

starts_with-IsBegun : (s front : String) → (starts_with s front ≡ true) ↔ IsBegun s front
starts_with-IsBegun s front = (
  λ h.
      let (rest, same) = (starts_with_iff s front).0 h in
      (rest, sym same ∙ sym (join_is_append front rest)),
  λ (rest, same). (starts_with_iff s front).1 (rest, sym (join_is_append front rest) ∙ sym same),
)

or_right : (a b : Bool) → b ≡ true → (a || b) ≡ true
or_right a b h = ground arith

or_false : (a b : Bool) → (a || b) ≡ false → (a ≡ false) × (b ≡ false)
or_false a b h = ground arith

starred : (p : String) → has_star (join p "*") ≡ true
starred end = refl
starred (cons c p) = or_right (code c == 42) (has_star (join p "*")) (starred p)

last_star : (p : String) → without_last_star (join p "*") ≡ some p
last_star end = refl
last_star (cons c end) = refl
last_star (cons c (cons d p)) = ap (longer c) (last_star (cons d p))

no_last_star : (p : String) → has_star p ≡ false → without_last_star p ≡ none
no_last_star end h = refl
no_last_star (cons c end) h = rw ((or_false (code c == 42) false h).0) refl
no_last_star (cons c (cons d p)) h =
    ap (longer c) (no_last_star (cons d p) (or_false (code c == 42) (has_star (cons d p)) h).1)

own_end : (suffix : String) → ends_with suffix suffix ≡ true
own_end end = (eq_iff end end).1 refl
own_end (cons c s) = rw ((eq_iff (cons c s) (cons c s)).1 refl) refl

ends_after : (front suffix : String) → ends_with (join front suffix) suffix ≡ true
ends_after end suffix = own_end suffix
ends_after (cons c front) suffix =
    or_right (str_eq (cons c (join front suffix)) suffix) (ends_with (join front suffix) suffix)
      (ends_after front suffix)

ended : (s suffix : String) → ends_with s suffix ≡ true → IsEnded s suffix
ended end suffix h = (end, (eq_iff end suffix).0 h)
ended (cons c s) suffix h = elim (Bool-cases (str_eq (cons c s) suffix)) [
  | inl e ↦ (end, (eq_iff (cons c s) suffix).0 e)
  | inr e ↦ let (front, same) = ended s suffix (rw e at h) in (cons c front, ap (cons c) same)
]

ends_with-IsEnded : (s suffix : String) → (ends_with s suffix ≡ true) ↔ IsEnded s suffix
ends_with-IsEnded s suffix = (
  ended s suffix,
  λ (front, same). subst (λ x. ends_with x suffix ≡ true) (sym same) (ends_after front suffix),
)

join-end : (s : String) → join s end ≡ s
join-end end = refl
join-end (cons c s) = ap (cons c) (join-end s)

-- The pattern of a front and a star.
prefix_glob : (p t : String) → matches_tool (join p "*") t ≡ starts_with t p
unfolding matches_tool
prefix_glob p t = elim (Bool-cases (str_eq (join p "*") "*")) [
  | inl e ↦
      let is_end : p ≡ end =
        some-injective p end
          (sym (last_star p) ∙ ap without_last_star ((eq_iff (join p "*") "*").0 e)) in
      rw e (sym ((starts_with-IsBegun t p).1 (t, ap (λ x. join x t) (sym is_end))))
  | inr e ↦ rw (e, starred p, last_star p) refl
]

-- The pattern of a star and an end without a star.
suffix_glob : (s t : String) → has_star s ≡ false → matches_tool (join "*" s) t ≡ ends_with t s
unfolding matches_tool
suffix_glob end t h = sym ((ends_with-IsEnded t end).1 (t, sym (join-end t)))
suffix_glob (cons d s) t h = elim (Bool-cases (str_eq (join "*" (cons d s)) "*")) [
  | inl e ↦ absurd (
      cons≢nil (
        some-injective (cons d s) end
          (ap without_first_star ((eq_iff (join "*" (cons d s)) "*").0 e))))
  | inr e ↦ rw (e, no_last_star (cons d s) h) refl
]

exact_glob : (p t : String) → has_star p ≡ false → matches_tool p t ≡ str_eq p t
unfolding matches_tool
exact_glob p t h = elim (Bool-cases (str_eq p "*")) [
  | inl e ↦ let apart : true ≡ false = sym (ap has_star ((eq_iff p "*").0 e)) ∙ h in cc
  | inr e ↦ rw (e, h) refl
]

-- Of a text without stars: as a pattern it matches itself alone, with a star after it the names that
-- begin with it, and with a star before it those that end with it.
pub matches_tool_lem :
    (pattern tool_name : String)
    → has_star pattern ≡ false
    → ((matches_tool pattern tool_name ≡ true) ↔ (pattern ≡ tool_name))
      × ((matches_tool (join pattern "*") tool_name ≡ true) ↔ IsBegun tool_name pattern)
      × ((matches_tool (join "*" pattern) tool_name ≡ true) ↔ IsEnded tool_name pattern)
matches_tool_lem p t h = (
  subst (λ b. (b ≡ true) ↔ (p ≡ t)) (sym (exact_glob p t h)) (eq_iff p t),
  subst (λ b. (b ≡ true) ↔ IsBegun t p) (sym (prefix_glob p t)) (starts_with-IsBegun t p),
  subst (λ b. (b ≡ true) ↔ IsEnded t p) (sym (suffix_glob p t h)) (ends_with-IsEnded t p),
)
