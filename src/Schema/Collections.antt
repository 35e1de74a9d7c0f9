-- ===== src/Schema/Collections.antt =====
-- The operations of amos-harness/src/schema.rs on collections.
use amos_platform.Prelude.{
  ℕ, zero, suc, Bool, not, String, str_eq, Option, none, some, List, [], ◌∷◌, ◌++◌, map, filter,
  find, length, sort_by, update_where, is_any, literal,
}
use amos_platform.Prelude.Values.{Json, null, object, empty}
use amos_platform.Error.{AmosError, Result, ok, err, internal, not_found, ◌⊕◌}
use amos_platform.Database.{
  Action, Collation, pure, raise, or_raise, answer, ◌>>=◌, utc_now, new_v4, execute, fetch,
}
use amos_platform.Schema.Types.{FieldDefinition, Collection, FieldsColumn, CollectionRow, Tables}

abbrev read_fields : FieldsColumn → Result (List FieldDefinition)
read_fields (FieldsColumn.definitions fields) = ok fields
read_fields (FieldsColumn.unreadable e) =
    err (internal (literal "Failed to parse field definitions: " ⊕ e))

abbrev with_fields : CollectionRow → Result (List FieldDefinition) → Result Collection
with_fields row (err e) = err e
with_fields row (ok fields) = ok (record {
  id = row.id;
  name = row.name;
  display_name = row.display_name;
  description = row.description;
  fields = fields;
  settings = row.settings;
  created_at = row.created_at;
  updated_at = row.updated_at;
})

abbrev pub collection_from_row : CollectionRow → Result Collection
collection_from_row row = with_fields row (read_fields row.fields)

-- `serde_json::to_value` writes a default of `null` as no default.
abbrev stored_default : Option Json → Option Json
stored_default (some null) = none
stored_default o = o

abbrev pub stored_field : FieldDefinition → FieldDefinition
stored_field f = record f { default_value = stored_default f.default_value }

abbrev pub has_name : String → CollectionRow → Bool
has_name name row = str_eq row.name name

-- `COALESCE`
abbrev coalesce : Option String → Option String → Option String
coalesce none old = old
coalesce (some new) old = some new

-- The `DO UPDATE` of a row of the same name, and the row that is inserted otherwise.
abbrev pub redefined :
    String → Option String → List FieldDefinition → ℕ → CollectionRow → CollectionRow
redefined display_name description fields now row = record row {
  display_name = display_name;
  description = coalesce description row.description;
  fields = FieldsColumn.definitions (map stored_field fields);
  updated_at = now;
}

abbrev pub new_collection :
    ℕ → String → String → Option String → List FieldDefinition → ℕ → CollectionRow
new_collection id name display_name description fields now = record {
  id = id;
  name = name;
  display_name = display_name;
  description = description;
  fields = FieldsColumn.definitions (map stored_field fields);
  settings = object empty;
  created_at = now;
  updated_at = now;
}

abbrev pub upsert :
    (CollectionRow → Bool)
    → (CollectionRow → CollectionRow)
    → CollectionRow
    → Option CollectionRow
    → Tables
    → CollectionRow × Tables
upsert p f new (some row) t = (f row, record t { collections = update_where p f t.collections })
upsert p f new none t = (new, record t { collections = t.collections ++ (new ∷ []) })

-- The database draws an id for the row that it may insert.
unfoldable pub define_collection :
    String → String → Option String → List FieldDefinition → Action Tables Collection
define_collection name display_name description fields = do
  id ← new_v4
  now ← utc_now
  row ← execute "Failed to define collection: " (λ t.
      upsert (has_name name) (redefined display_name description fields now)
        (new_collection id name display_name description fields now)
        (find (has_name name) t.collections) t)
  answer (collection_from_row row)

abbrev pub no_collection : String → AmosError
no_collection name = not_found (literal "Collection") (literal name)

unfoldable pub get_collection : String → Action Tables Collection
get_collection name = do
  found ← fetch "Failed to get collection: " (λ t. find (has_name name) t.collections)
  row ← or_raise found (no_collection name)
  answer (collection_from_row row)

-- `collect` of results: the first error, or all values.
abbrev add_collection : Result Collection → Result (List Collection) → Result (List Collection)
add_collection (err e) rest = err e
add_collection (ok c) (err e) = err e
add_collection (ok c) (ok cs) = ok (c ∷ cs)

abbrev pub collections_from_rows : List CollectionRow → Result (List Collection)
collections_from_rows [] = ok []
collections_from_rows (row ∷ rows) =
    add_collection (collection_from_row row) (collections_from_rows rows)

unfoldable pub list_collections : Collation → Action Tables (List Collection)
list_collections collation = do
  rows ←
      fetch "Failed to list collections: "
        (λ t. sort_by (λ a b. collation.before a.name b.name) t.collections)
  answer (collections_from_rows rows)

-- The ids of the rows that are deleted, and the rows of `records` that `ON DELETE CASCADE` leaves.
abbrev pub ids_of : List CollectionRow → List ℕ
ids_of rows = map (λ r. r.id) rows

abbrev pub without_collection : String → Tables → ℕ × Tables
without_collection name t =
    let deleted = filter (has_name name) t.collections in
    (
      length deleted,
      record t {
        collections = filter (λ r. not (has_name name r)) t.collections;
        records = filter (λ r. not (is_any (ids_of deleted) r.collection_id)) t.records;
      },
    )

abbrev pub affected_or : AmosError → ℕ → Action Tables (Unit {0})
affected_or e zero = raise e
affected_or e (suc n) = pure tt

unfoldable pub delete_collection : String → Action Tables (Unit {0})
delete_collection name = do
  rows_affected ← execute "Failed to delete collection: " (without_collection name)
  affected_or (no_collection name) rows_affected
