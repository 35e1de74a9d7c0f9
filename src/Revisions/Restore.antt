-- ===== src/Revisions/Restore.antt =====
-- What the diff of amos-harness/src/revisions.rs is good for: with one of two objects it gives the
-- other one.
use amos_platform.Prelude.{
  ◌≡◌, refl, ◌∙◌, subst, ap, false, String, str_eq, eq_iff, Option, none, some, and_then,
  Bool-cases, inl, inr, if◌then◌else◌, Same, str_eq_refl, json_eq_refl, fields_eq-Same,
}
use amos_platform.Prelude.Values.{
  Json, Fields, object, empty, field, get, get_field, json_eq, fields_eq,
}
use amos_platform.Revisions.Diff.{
  change_entry, note_change, changed_fields, note_missing, missing_fields, diff_or_none,
  compute_diff,
}

-- What the new object has at a key: from the three entries of the diff, and from the old value.
abbrev new_of : Option Json → Option Json → Option Json → Option Json → Option Json
new_of (some v) changed removed old_value = some v
new_of none (some entry) removed old_value = get entry "new"
new_of none none (some _) old_value = none
new_of none none none old_value = old_value

abbrev old_of : Option Json → Option Json → Option Json → Option Json → Option Json
old_of added changed (some v) new_value = some v
old_of added (some entry) none new_value = get entry "old"
old_of (some _) none none new_value = none
old_of none none none new_value = new_value

abbrev section_at : Json → String → String → Option Json
section_at diff name key = and_then (get diff name) (λ entries. get entries key)

-- The diff applied at a key of the old object, and taken back at a key of the new one.
abbrev pub after : Option Json → String → Option Json → Option Json
after none key old_value = old_value
after (some diff) key old_value =
    new_of (section_at diff "added" key) (section_at diff "changed" key)
      (section_at diff "removed" key) old_value

abbrev pub before : Option Json → String → Option Json → Option Json
before none key new_value = new_value
before (some diff) key new_value =
    old_of (section_at diff "added" key) (section_at diff "changed" key)
      (section_at diff "removed" key) new_value

abbrev pub HasDistinctKeys : Fields → Type 0
HasDistinctKeys empty = Unit
HasDistinctKeys (field k v fs) = (get_field k fs ≡ none) × HasDistinctKeys fs

abbrev unless_has : Option Json → Option Json → Option Json
unless_has (some _) v = none
unless_has none v = v

abbrev change_of : Option Json → Option Json → Option Json
change_of (some a) (some b) = if json_eq a b then none else some (change_entry a b)
change_of _ _ = none

unless_none : (o : Option Json) → none ≡ unless_has o none
unless_none none = refl
unless_none (some v) = refl

module _ (key k : String) (v : Json) (rest : Fields) where
  missing_apart :
      (o : Option Json)
      → str_eq k key ≡ false
      → get_field key (note_missing k v o rest) ≡ get_field key rest
  missing_apart none e = rw e refl
  missing_apart (some w) e = refl

  changed_apart :
      (o : Option Json)
      → str_eq k key ≡ false
      → get_field key (note_change k v o rest) ≡ get_field key rest
  changed_apart none e = refl
  changed_apart (some w) e = elim (Bool-cases (json_eq v w)) [
    | inl t ↦ rw t refl
    | inr t ↦ rw (t, e) refl
  ]

module _ (key : String) (v : Json) (rest : Fields) where
  missing_here :
      (o x : Option Json)
      → get_field key rest ≡ unless_has o x
      → get_field key (note_missing key v o rest) ≡ unless_has o (some v)
  missing_here none x h = rw (str_eq_refl key) refl
  missing_here (some w) x h = h

  changed_here :
      (o : Option Json)
      → get_field key rest ≡ none
      → get_field key (note_change key v o rest) ≡ change_of (some v) o
  changed_here none h = h
  changed_here (some w) h = elim (Bool-cases (json_eq v w)) [
    | inl t ↦ rw t h
    | inr t ↦ rw (t, str_eq_refl key) refl
  ]

get-missing_fields :
    (key : String) (xs ys : Fields)
    → get_field key (missing_fields xs ys) ≡ unless_has (get_field key ys) (get_field key xs)
get-missing_fields key empty ys = unless_none (get_field key ys)
get-missing_fields key (field k v xs) ys = elim (Bool-cases (str_eq k key)) [
  | inl e ↦
      rw ((eq_iff k key).0 e, str_eq_refl key)
        (missing_here key v (missing_fields xs ys) (get_field key ys) (get_field key xs)
          (get-missing_fields key xs ys))
  | inr e ↦ rw e (
      missing_apart key k v (missing_fields xs ys) (get_field k ys) e
      ∙ get-missing_fields key xs ys)
]

get-changed_fields :
    (key : String) (xs ys : Fields)
    → HasDistinctKeys xs
    → get_field key (changed_fields xs ys) ≡ change_of (get_field key xs) (get_field key ys)
get-changed_fields key empty ys h = refl
get-changed_fields key (field k v xs) ys h = elim (Bool-cases (str_eq k key)) [
  | inl e ↦
      let keys : k ≡ key = (eq_iff k key).0 e in
      rw (keys, str_eq_refl key)
        (changed_here key v (changed_fields xs ys) (get_field key ys) (
          get-changed_fields key xs ys h.1
          ∙ ap (λ o. change_of o (get_field key ys)) (subst (λ j. get_field j xs ≡ none) keys h.0)))
  | inr e ↦ rw e (
      changed_apart key k v (changed_fields xs ys) (get_field k ys) e
      ∙ get-changed_fields key xs ys h.1)
]

after-diff_or_none :
    (key : String) (c a r : Fields) (v : Option Json)
    → after (diff_or_none c a r) key v
      ≡ new_of (get_field key a) (get_field key c) (get_field key r) v
after-diff_or_none key empty empty empty v = refl
after-diff_or_none key empty empty (field _ _ _) v = refl
after-diff_or_none key empty (field _ _ _) r v = refl
after-diff_or_none key (field _ _ _) a r v = refl

before-diff_or_none :
    (key : String) (c a r : Fields) (v : Option Json)
    → before (diff_or_none c a r) key v
      ≡ old_of (get_field key a) (get_field key c) (get_field key r) v
before-diff_or_none key empty empty empty v = refl
before-diff_or_none key empty empty (field _ _ _) v = refl
before-diff_or_none key empty (field _ _ _) r v = refl
before-diff_or_none key (field _ _ _) a r v = refl

new_of-Same :
    (x y : Option Json) → Same (new_of (unless_has x y) (change_of x y) (unless_has y x) x) y
new_of-Same none none = tt
new_of-Same none (some b) = json_eq_refl b
new_of-Same (some a) none = tt
new_of-Same (some a) (some b) = elim (Bool-cases (json_eq a b)) [
  | inl e ↦ rw (e, e) refl
  | inr e ↦ rw e (json_eq_refl b)
]

old_of-Same :
    (x y : Option Json) → Same x (old_of (unless_has x y) (change_of x y) (unless_has y x) y)
old_of-Same none none = tt
old_of-Same none (some b) = tt
old_of-Same (some a) none = json_eq_refl a
old_of-Same (some a) (some b) = elim (Bool-cases (json_eq a b)) [
  | inl e ↦ rw e e
  | inr e ↦ rw e (json_eq_refl a)
]

module _ (old new : Fields) (h : HasDistinctKeys old) (key : String) where
  entries :
      (P : Option Json → Option Json → Option Json → Type 0)
      → P
          (unless_has (get_field key old) (get_field key new))
          (change_of (get_field key old) (get_field key new))
          (unless_has (get_field key new) (get_field key old))
      → P
          (get_field key (missing_fields new old))
          (get_field key (changed_fields old new))
          (get_field key (missing_fields old new))
  entries P t =
      rw
        (
          get-missing_fields key new old,
          get-changed_fields key old new h,
          get-missing_fields key old new,
        )
        t

-- From the diff of two objects and either of them the other is had back, at every key, up to the
-- equality of JSON values: no diff is answered only where they agree everywhere. An object has each
-- key once.
pub compute_diff_restores :
    (old new : Fields)
    → HasDistinctKeys old
    → (key : String)
    → Same
        (after (compute_diff (object old) (object new)) key (get_field key old))
        (get_field key new)
      × Same
          (get_field key old)
          (before (compute_diff (object old) (object new)) key (get_field key new))
unfolding compute_diff
compute_diff_restores old new h key = elim (Bool-cases (fields_eq old new)) [
  | inl e ↦ rw e (fields_eq-Same key old new e, fields_eq-Same key old new e)
  | inr e ↦ rw e (
    rw
        (after-diff_or_none key (changed_fields old new) (missing_fields new old)
          (missing_fields old new) (get_field key old))
        (entries old new h key
          (λ a c r. Same (new_of a c r (get_field key old)) (get_field key new))
          (new_of-Same (get_field key old) (get_field key new))),
    rw
        (before-diff_or_none key (changed_fields old new) (missing_fields new old)
          (missing_fields old new) (get_field key new))
        (entries old new h key
          (λ a c r. Same (get_field key old) (old_of a c r (get_field key new)))
          (old_of-Same (get_field key old) (get_field key new))),
  )
]
