-- ===== src/Prelude/Text.antt =====
-- A text that `format!` builds, kept as its pieces: what is printed is their concatenation.
use Prim.Native.Nat.{ℕ, ◌-◌}
use Prim.Native.String.{String}
use Prim.Native.String.{[] as end, ◌∷◌ as cons}
use Prim.Native.Char.{code}
use amos_platform.Prelude.Int.{ℤ}
use mathlib.Core.List.{List, [], ◌∷◌}
use mathlib.Core.Bool.{Bool, true, false, ◌&&◌}
use amos_platform.Prelude.Tests.{leb, ◌==◌, if◌then◌else◌}

pub data Fragment : Type 0 where
  lit : String → Fragment
  number : ℕ → Fragment
  integer : ℤ → Fragment
  -- `{:?}` of a vector of strings
  debug_list : List String → Fragment

abbrev pub Message : Type 0
Message = List Fragment

abbrev pub literal : String → Message
literal s = lit s ∷ []

-- `s.to_uppercase() == word` and `s.eq_ignore_ascii_case(word)`, for a word of the letters A to Z: no character but the word's letter and
-- its small letter has that letter for its capital.
abbrev upper_code : ℕ → ℕ
upper_code c = if leb 97 c && leb c 122 then c - 32 else c

abbrev pub upper_is : String → String → Bool
upper_is end end = true
upper_is end (cons d word) = false
upper_is (cons c s) end = false
upper_is (cons c s) (cons d word) = (upper_code (code c) == code d) && upper_is s word

-- Two texts, one after the other.
abbrev pub join : String → String → String
join end t = t
join (cons c s) t = cons c (join s t)
