-- ===== src/Schema/Found.antt =====
-- What `query_records` of amos-harness/src/schema.rs answers.
use amos_platform.Prelude.{
  ℕ, ◌≡◌, refl, ap, sym, ◌∙◌, subst, arith, Bool, true, String, ==_iff, ◌==◌, Option, List, [], ◌∷◌,
  map, filter, take, drop, sort_by, length, min, suc, zero, ◌-◌, length-sort_by, length-map, All,
  All-take, All-drop, All-sort_by, All-map, All-mapped, filter-All, Bool-cases, inl, inr, unwrap_or,
  and_left, and_right,
}
use mathlib.Core.Logic.{◌↔◌}
use amos_platform.Prelude.Values.{Json, object, empty}
use amos_platform.Prelude.Entries.{contains}
use amos_platform.Error.{ok}
use amos_platform.Database.{Session, Collation, pure, ◌>>=◌, fetch, bind_answers, fetch_both}
use amos_platform.Schema.Types.{Collection, Record, RecordRow, Tables}
use amos_platform.Schema.Collections.{get_collection}
use amos_platform.Schema.Stored.{collection_unchanged}
use amos_platform.Schema.Contained.{Holds, contains-Holds, Holds-contains, and_intro}
use amos_platform.Schema.Records.{record_from_row}
use amos_platform.Schema.Queries.{
  JsonText, order_expr, is_ascending, row_before, matches, query_records,
}

-- What is true of a record that is found: it is of the collection, and holds what the filter asks for.
abbrev pub IsFound : JsonText → String → ℕ → Json → Record → Type 0
IsFound texts name collection_id filter_json r =
    (r.collection_name ≡ name)
    × (r.collection_id ≡ collection_id)
    × Holds texts.same_number r.contents filter_json

-- Whether a row is of the collection and holds what the filter asks for.
abbrev pub IsWanted : JsonText → ℕ → Json → RecordRow → Type 0
IsWanted texts collection_id filter_json row =
    (row.collection_id ≡ collection_id) × Holds texts.same_number row.contents filter_json

-- The number of elements of a list that are so.
pub data IsCount {A : Type 0} (P : A → Type 0) : List A → ℕ → Type 0 where
  none_left : IsCount P [] 0
  one_more : {x : A} {xs : List A} {n : ℕ} → P x → IsCount P xs n → IsCount P (x ∷ xs) (suc n)
  passed_over : {x : A} {xs : List A} {n : ℕ} → ¬ P x → IsCount P xs n → IsCount P (x ∷ xs) n

filter-IsCount :
    {A : Type 0} {P : A → Type 0} (p : A → Bool)
    → ((x : A) → (p x ≡ true) ↔ P x)
    → (xs : List A) → IsCount P xs (length (filter p xs))
filter-IsCount p same [] = IsCount.none_left
filter-IsCount p same (x ∷ xs) = elim (Bool-cases (p x)) [
  | inl e ↦ rw e (IsCount.one_more ((same x).0 e) (filter-IsCount p same xs))
  | inr e ↦ rw e (
      IsCount.passed_over (λ held. let no : p x ≡ true = (same x).1 held in cc)
        (filter-IsCount p same xs))
]

matches-IsWanted :
    (texts : JsonText) (collection_id : ℕ) (filter_json : Json) (row : RecordRow)
    → (matches texts collection_id filter_json row ≡ true)
      ↔ IsWanted texts collection_id filter_json row
matches-IsWanted texts collection_id filter_json row =
    let found = contains texts.same_number row.contents filter_json in
    let of_collection = row.collection_id == collection_id in
    (
      λ h. (
        (==_iff row.collection_id collection_id).0 (and_left of_collection found h),
        contains-Holds texts.same_number row.contents filter_json (and_right of_collection found h),
      ),
      λ (here, held).
          and_intro ((==_iff row.collection_id collection_id).1 here)
            (Holds-contains texts.same_number row.contents filter_json held),
    )

length-drop : {A : Type 0} (n : ℕ) (xs : List A) → length (drop n xs) ≡ length xs - n
length-drop zero xs = omega arith
length-drop (suc n) [] = omega arith
length-drop (suc n) (x ∷ xs) = omega (arith, length-drop n xs)

length-take-min : {A : Type 0} (n : ℕ) (xs : List A) → length (take n xs) ≡ min n (length xs)
length-take-min zero xs = omega arith
length-take-min (suc n) [] = omega arith
length-take-min (suc n) (x ∷ xs) = omega (arith, length-take-min n xs)

matched-IsFound :
    (texts : JsonText) (name : String) (collection_id : ℕ) (filter_json : Json) (row : RecordRow)
    → matches texts collection_id filter_json row ≡ true
    → IsFound texts name collection_id filter_json (record_from_row row name)
matched-IsFound texts name collection_id filter_json row h =
    let (here, held) = (matches-IsWanted texts collection_id filter_json row).0 h in
    (refl, here, held)

module _ (collation : Collation) (texts : JsonText) where
  page_rows : (RecordRow → RecordRow → Bool) → ℕ → Json → ℕ → ℕ → Tables → List RecordRow
  page_rows before collection_id wanted limit offset t =
      take limit
        (drop offset (sort_by before (filter (matches texts collection_id wanted) t.records)))

  page-IsFound :
      (name : String) (before : RecordRow → RecordRow → Bool) (collection_id : ℕ) (wanted : Json)
      (limit offset : ℕ) (t : Tables)
      → All (IsFound texts name collection_id wanted) (
          map
            (λ row. record_from_row row name)
            (page_rows before collection_id wanted limit offset t))
  unfolding page_rows
  page-IsFound name before collection_id wanted limit offset t =
      let rows = filter (matches texts collection_id wanted) t.records in
      let P : RecordRow → Type 0 =
        λ row. IsFound texts name collection_id wanted (record_from_row row name) in
      All-mapped (IsFound texts name collection_id wanted) (λ row. record_from_row row name)
        (take limit (drop offset (sort_by before rows)))
        (All-take P limit (drop offset (sort_by before rows)) (
          All-drop P offset (sort_by before rows) (
            All-sort_by P before rows (
              All-map (matched-IsFound texts name collection_id wanted) rows
                (filter-All (matches texts collection_id wanted) t.records)))))

  page_size :
      (name : String) (before : RecordRow → RecordRow → Bool) (collection_id : ℕ) (wanted : Json)
      (limit offset : ℕ) (t : Tables)
      → length (
          map
            (λ row. record_from_row row name)
            (page_rows before collection_id wanted limit offset t))
        ≡ min limit (length (filter (matches texts collection_id wanted) t.records) - offset)
  unfolding page_rows
  page_size name before collection_id wanted limit offset t =
      let rows = filter (matches texts collection_id wanted) t.records in
      let rest = drop offset (sort_by before rows) in
      omega (
        arith,
        length-map (take limit rest) (λ row. record_from_row row name),
        length-take-min limit rest,
        length-drop offset (sort_by before rows),
        length-sort_by before rows,
      )

  -- Every record that a query answers is of the collection and contains the filter, or is an array of
  -- which an item is the filter: an object is contained in one that has each of its keys with a value
  -- that contains the one asked for, an array in one that has for each of its items one that contains
  -- it, and anything else in what is equal to it, numbers as PostgreSQL compares them. The total is
  -- the number of all stored rows that are so, and there are as many records as the total has after
  -- the offset, up to the limit.
  pub query_records-IsFound :
      (name : String) (filters : Option Json) (sort_key sort_dir : Option String) (limit offset : ℕ)
      (s : Session Tables) (records : List Record) (total : ℕ)
      → (query_records collation texts name filters sort_key sort_dir limit offset s).0
        ≡ ok (records, total)
      → (c : Collection) × ((get_collection name s).0 ≡ ok c)
        × All (IsFound texts name c.id (unwrap_or filters (object empty))) records
        × IsCount (IsWanted texts c.id (unwrap_or filters (object empty))) s.tables.records total
        × (length records ≡ min limit (total - offset))
  unfolding query_records page_rows
  query_records-IsFound name filters sort_key sort_dir limit offset s records total h =
      let wanted = unwrap_or filters (object empty) in
      let before = row_before collation texts (order_expr sort_key) (is_ascending sort_dir) in
      let matching : ℕ → Tables → List RecordRow =
        λ id t. filter (matches texts id wanted) t.records in
      let count : String = "Failed to count records: " in
      let query : String = "Failed to query records: " in
      let (c, got, first) =
        bind_answers (get_collection name)
          (λ c. fetch count (λ t. length (matching c.id t)) >>= λ n.
            fetch query (page_rows before c.id wanted limit offset) >>= λ page.
            pure (map (λ row. record_from_row row name) page, n))
          s (records, total) h in
      let t : Tables = (get_collection name s).1.tables in
      let pair =
        fetch_both count query (λ t. length (matching c.id t))
          (page_rows before c.id wanted limit offset)
          (λ n page. (map (λ row. record_from_row row name) page, n)) (get_collection name s).1
          (records, total) (ap (λ p. p.0) (sym first) ∙ h) in
      (
        c,
        got,
        subst (λ p. All (IsFound texts name c.id wanted) p.0) pair
            (page-IsFound name before c.id wanted limit offset t),
        subst (λ p. IsCount (IsWanted texts c.id wanted) s.tables.records p.1) pair
            (subst
              (λ u.
                IsCount (IsWanted texts c.id wanted) s.tables.records (length (matching c.id u)))
              (sym (collection_unchanged name s).0)
              (filter-IsCount (matches texts c.id wanted) (matches-IsWanted texts c.id wanted)
                s.tables.records)),
        subst (λ p. length p.0 ≡ min limit (p.1 - offset)) pair
            (page_size name before c.id wanted limit offset t),
      )
