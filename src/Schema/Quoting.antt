-- ===== src/Schema/Quoting.antt =====
-- What `query_records` of amos-harness/src/schema.rs puts into its SQL text.
use amos_platform.Prelude.{
  ◌≤◌, ◌≡◌, ◌≢◌, ◌⊎◌, refl, join, subst, Bool, true, false, ◌&&◌, String, str_eq, Option, none,
  some, Bool-cases, inl, inr, and_left, and_right, leb, leb→le,
}
use Prim.Native.String.{[] as end, ◌∷◌ as cons, len}
use Prim.Native.Char.{code}
use amos_platform.Schema.Queries.{
  SortKey, is_word_code, is_word, order_expr, is_ascending, key_sql, dir_sql, select_sql, limit_sql,
  query_text,
}

-- No character of the text is a single quote.
abbrev pub HasNoQuote : String → Type 0
HasNoQuote end = Unit
HasNoQuote (cons c s) = (code c ≢ 39) × HasNoQuote s

word-HasNoQuote : (s : String) → is_word s ≡ true → HasNoQuote s
word-HasNoQuote end h = tt
word-HasNoQuote (cons c s) h = (
  λ quote.
      let bad : is_word_code 39 ≡ true =
        subst (λ n. is_word_code n ≡ true) quote (and_left (is_word_code (code c)) (is_word s) h) in
      cc,
  word-HasNoQuote s (and_right (is_word_code (code c)) (is_word s) h),
)

-- What a caller's sorting makes of the ORDER BY: a column, or the quoted name of a field.
abbrev pub IsColumn : String → Type 0
IsColumn key = (key ≡ "r.created_at") ⊎ (key ≡ "r.updated_at")

abbrev pub IsQuoted : Option String → String → Type 0
IsQuoted sort_key key =
    (name : String) × (sort_key ≡ some name)
    × (key ≡ join "r.data->>'" (join name "'"))
    × HasNoQuote name
    × (len name ≤ 64)

key_cases :
    (sort_key : Option String)
    → IsColumn (key_sql (order_expr sort_key)) ⊎ IsQuoted sort_key (key_sql (order_expr sort_key))
unfolding order_expr
key_cases none = inl (inl refl)
key_cases (some given) = elim (Bool-cases (str_eq given "updated_at")) [
  | inl e ↦ rw e (inl (inr refl))
  | inr e ↦ elim (Bool-cases (str_eq given "created_at")) [
    | inl f ↦ rw (e, f) (inl (inl refl))
    | inr f ↦ elim (Bool-cases (leb (len given) 64 && is_word given)) [
      | inl g ↦
          let named : IsQuoted (some given) (key_sql (SortKey.by_field given)) = (
            given,
            refl,
            refl,
            word-HasNoQuote given (and_right (leb (len given) 64) (is_word given) g),
            leb→le (len given) 64 (and_left (leb (len given) 64) (is_word given) g),
          ) in
          rw (e, f, g) (inr named)
      | inr g ↦ rw (e, f, g) (inl (inl refl))
    ]
  ]
]

dir_cases : (b : Bool) → (dir_sql b ≡ "ASC") ⊎ (dir_sql b ≡ "DESC")
dir_cases true = inl refl
dir_cases false = inr refl

-- Whatever a caller sorts by and in whatever direction, the text of the query is the fixed one with a
-- key and ASC or DESC in their places; the key is one of two columns, or the caller's name of a field
-- in quotes, which has at most 64 bytes and no quote, so that it stays inside them.
pub query_text-IsQuoted :
    (sort_key sort_dir : Option String)
    → (key : String) × (dir : String) × (query_text sort_key sort_dir
        ≡ join select_sql (join key (join " " (join dir limit_sql))))
      × ((dir ≡ "ASC") ⊎ (dir ≡ "DESC"))
      × (IsColumn key ⊎ IsQuoted sort_key key)
unfolding query_text
query_text-IsQuoted sort_key sort_dir = (
  key_sql (order_expr sort_key),
  dir_sql (is_ascending sort_dir),
  refl,
  dir_cases (is_ascending sort_dir),
  key_cases sort_key,
)
