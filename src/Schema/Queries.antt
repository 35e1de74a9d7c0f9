-- ===== src/Schema/Queries.antt =====
-- `query_records` of amos-harness/src/schema.rs. A limit and an offset are natural numbers: PostgreSQL
-- refuses negative ones.
use amos_platform.Prelude.{
  ℕ, Bool, true, false, ◌&&◌, ◌||◌, String, str_eq, Option, none, some, List, map, filter, take,
  drop, length, sort_by, leb, ◌==◌, if◌then◌else◌, unwrap_or, and_then, upper_is, join,
}
use Prim.Native.String.{[] as end, ◌∷◌ as cons, len}
use Prim.Native.Char.{code}
use amos_platform.Prelude.Values.{Json, Number, null, str, object, empty, get}
use amos_platform.Prelude.Entries.{contains}
use amos_platform.Database.{Action, Collation, pure, ◌>>=◌, fetch}
use amos_platform.Schema.Types.{Record, RecordRow, Tables}
use amos_platform.Schema.Collections.{get_collection}
use amos_platform.Schema.Records.{record_from_row}

-- PostgreSQL's text of a JSON value, and its equality of numbers in jsonb values, which compares them
-- as numerics.
pub record JsonText : Type 0 where
  pub json_text : Json → String
  pub same_number : Number → Number → Bool

-- What the rows are ordered by: a column, or `r.data->>'name'`.
pub data SortKey : Type 0 where
  by_created by_updated : SortKey
  by_field : String → SortKey

-- `c.is_ascii_alphanumeric() || c == '_'`
abbrev pub is_word_code : ℕ → Bool
is_word_code c =
    (leb 48 c && leb c 57) || (leb 65 c && leb c 90) || (leb 97 c && leb c 122) || (c == 95)

abbrev pub is_word : String → Bool
is_word end = true
is_word (cons c s) = is_word_code (code c) && is_word s

unfoldable pub order_expr : Option String → SortKey
order_expr none = SortKey.by_created
order_expr (some name) =
    if str_eq name "updated_at"
    then SortKey.by_updated
    else if str_eq name "created_at"
    then SortKey.by_created
    else if leb (len name) 64 && is_word name
    then SortKey.by_field name
    else SortKey.by_created

abbrev pub is_ascending : Option String → Bool
is_ascending none = false
is_ascending (some d) = upper_is d "ASC"

-- The text of the query, with its line breaks as spaces and what the caller sorts by put into it
-- (`order_expr` and `dir` of the code). `query_records` reads the same `SortKey` and direction.
abbrev pub key_sql : SortKey → String
key_sql SortKey.by_created = "r.created_at"
key_sql SortKey.by_updated = "r.updated_at"
key_sql (SortKey.by_field name) = join "r.data->>'" (join name "'")

abbrev pub dir_sql : Bool → String
dir_sql true = "ASC"
dir_sql false = "DESC"

abbrev pub select_sql : String
select_sql =
    "SELECT r.id, r.collection_id, r.data, r.created_at, r.updated_at FROM records r WHERE r.collection_id = $1 AND r.data @> $2::jsonb ORDER BY "

abbrev pub limit_sql : String
limit_sql = " LIMIT $3 OFFSET $4"

unfoldable pub query_text : Option String → Option String → String
unfolding order_expr
query_text sort_key sort_dir = join select_sql (
    join (key_sql (order_expr sort_key))
      (join " " (join (dir_sql (is_ascending sort_dir)) limit_sql)))

-- `WHERE collection_id = $1 AND data @> $2`
abbrev pub matches : JsonText → ℕ → Json → RecordRow → Bool
matches texts collection_id filter_json row =
    row.collection_id == collection_id && contains texts.same_number row.contents filter_json

module _ (collation : Collation) (texts : JsonText) where
  -- `->>`
  abbrev text_of : Json → Option String
  text_of null = none
  text_of (str s) = some s
  text_of v = some (texts.json_text v)

  -- An ascending order puts nulls last.
  abbrev text_before : Option String → Option String → Bool
  text_before (some a) (some b) = collation.before a b
  text_before none (some b) = false
  text_before o none = true

  abbrev key_before : SortKey → RecordRow → RecordRow → Bool
  key_before SortKey.by_created a b = leb a.created_at b.created_at
  key_before SortKey.by_updated a b = leb a.updated_at b.updated_at
  key_before (SortKey.by_field name) a b =
      text_before (and_then (get a.contents name) text_of) (and_then (get b.contents name) text_of)

  abbrev pub row_before : SortKey → Bool → RecordRow → RecordRow → Bool
  row_before key true a b = key_before key a b
  row_before key false a b = key_before key b a

  unfoldable pub query_records :
      String → Option Json → Option String → Option String → ℕ → ℕ → Action Tables (List Record × ℕ)
  query_records collection_name filters sort_key sort_dir limit offset = do
    collection ← get_collection collection_name
    let filter_json = unwrap_or filters (object empty)
    total ←
        fetch "Failed to count records: "
          (λ t. length (filter (matches texts collection.id filter_json) t.records))
    rows ← fetch "Failed to query records: " (λ t. take limit (
        drop offset (
          sort_by (row_before (order_expr sort_key) (is_ascending sort_dir))
            (filter (matches texts collection.id filter_json) t.records))))
    pure (map (λ row. record_from_row row collection_name) rows, total)
