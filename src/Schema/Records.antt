-- ===== src/Schema/Records.antt =====
-- The operations of amos-harness/src/schema.rs that create, read, change and delete one record, and
-- the events that they send to the automations.
use amos_platform.Prelude.{
  ℕ, zero, suc, Bool, true, false, not, String, Option, none, some, List, [], ◌∷◌, ◌++◌, filter,
  find, length, update_where, ◌==◌, and_then, number, literal,
}
use amos_platform.Prelude.Values.{Json, Fields, object, get_field}
use amos_platform.Prelude.Entries.{insert_field, concat_json}
use amos_platform.Error.{AmosError, Result, ok, err, internal, not_found}
use amos_platform.Database.{
  Action, pure, or_raise, answer, outcome, ◌>>=◌, ◌>>◌, utc_now, new_v4, execute, fetch,
}
use amos_platform.Automation.Types.{TriggerType, TriggerEvent}
use amos_platform.Schema.Types.{FieldDefinition, CollectionRow, Record, RecordRow, Tables}
use amos_platform.Schema.Validation.{UuidReader, validate_record_data}
use amos_platform.Schema.Collections.{get_collection, affected_or}

abbrev pub record_from_row : RecordRow → String → Record
record_from_row row collection_name = record {
  id = row.id;
  collection_id = row.collection_id;
  collection_name = collection_name;
  contents = row.contents;
  created_at = row.created_at;
  updated_at = row.updated_at;
}

-- `try_send`, whose result is dropped: an event that the channel has no room for is lost.
abbrev pub put_event : TriggerEvent → Bool → ℕ → Tables → Tables
put_event event false room t = t
put_event event true zero t = t
put_event event true (suc room) t = record t { room = room; events = t.events ++ (event ∷ []) }

abbrev pub send_event : TriggerEvent → Action Tables (Unit {0})
send_event event s =
    (ok tt, record s { tables = put_event event s.tables.has_sender s.tables.room s.tables })

abbrev pub record_event : TriggerType → String → ℕ → Json → TriggerEvent
record_event event_type collection_name record_id contents = record {
  event_type = event_type;
  collection = some collection_name;
  record_id = some record_id;
  event_data = contents;
}

-- What the loop over the fields inserts of one field.
abbrev pub or_default : String → Option Json → Option Json → Fields → Fields
or_default name (some present) default_value obj = obj
or_default name none none obj = obj
or_default name none (some default_value) obj = insert_field name default_value obj

abbrev pub apply_defaults : List FieldDefinition → Fields → Fields
apply_defaults [] obj = obj
apply_defaults (f ∷ fields) obj =
    apply_defaults fields (or_default f.name (get_field f.name obj) f.default_value obj)

abbrev pub with_defaults : List FieldDefinition → Json → Json
with_defaults fields (object obj) = object (apply_defaults fields obj)
with_defaults fields v = v

abbrev pub new_record : ℕ → ℕ → Json → ℕ → RecordRow
new_record id collection_id contents now = record {
  id = id;
  collection_id = collection_id;
  contents = contents;
  created_at = now;
  updated_at = now;
}

abbrev pub insert_record : RecordRow → Tables → RecordRow × Tables
insert_record row t = (row, record t { records = t.records ++ (row ∷ []) })

-- The `INSERT` of `create_record` and what follows it.
abbrev pub store_record : String → ℕ → Json → Action Tables Record
store_record collection_name collection_id contents = do
  id ← new_v4
  now ← utc_now
  row ←
      execute "Failed to create record: " (insert_record (new_record id collection_id contents now))
  send_event (record_event TriggerType.record_created collection_name row.id row.contents)
  pure (record_from_row row collection_name)

unfoldable pub create_record : UuidReader → String → Json → Action Tables Record
create_record reader collection_name given = do
  collection ← get_collection collection_name
  let contents = with_defaults collection.fields given
  answer (validate_record_data reader collection.fields contents)
  store_record collection_name collection.id contents

-- `records r JOIN collections c ON r.collection_id = c.id WHERE r.id = $1`
abbrev joined : List CollectionRow → Option RecordRow → Option (RecordRow × String)
joined collections none = none
joined collections (some row) =
    and_then (find (λ c. c.id == row.collection_id) collections) (λ c. some (row, c.name))

abbrev pub has_id : ℕ → RecordRow → Bool
has_id record_id row = row.id == record_id

abbrev pub find_joined : ℕ → Tables → Option (RecordRow × String)
find_joined record_id t = joined t.collections (find (has_id record_id) t.records)

abbrev pub no_record : ℕ → AmosError
no_record record_id = not_found (literal "Record") (number record_id ∷ [])

unfoldable pub get_record : ℕ → Action Tables Record
get_record record_id = do
  found ← fetch "Failed to get record: " (find_joined record_id)
  pair ← or_raise found (no_record record_id)
  pure (record_from_row pair.0 pair.1)

abbrev pub merged : Json → ℕ → RecordRow → RecordRow
merged contents now row = record row {
  contents = concat_json row.contents contents;
  updated_at = now;
}

-- The `UPDATE … RETURNING`: the changed row, where there still is one.
abbrev pub merge_record : ℕ → Json → ℕ → Tables → Option RecordRow × Tables
merge_record record_id contents now t =
    let records = update_where (has_id record_id) (merged contents now) t.records in
    (find (has_id record_id) records, record t { records = records })

-- `fetch_one` on no row: the error of sqlx.
abbrev row_missing : AmosError
row_missing = internal (
    literal
      "Failed to update record: no rows returned by a query that expected to return at least one row")

unfoldable pub update_record : ℕ → Json → Action Tables Record
update_record record_id contents = do
  found ← fetch "Failed to find record: " (find_joined record_id)
  existing ← or_raise found (no_record record_id)
  now ← utc_now
  changed ← execute "Failed to update record: " (merge_record record_id contents now)
  row ← or_raise changed row_missing
  send_event (record_event TriggerType.record_updated existing.1 row.id row.contents)
  pure (record_from_row row existing.1)

-- `.ok().flatten()`
abbrev pub flatten : Result (Option (RecordRow × String)) → Option (RecordRow × String)
flatten (ok o) = o
flatten (err e) = none

abbrev pub record_info : ℕ → Bool → Action Tables (Option (RecordRow × String))
record_info record_id true = do
  read ← outcome (fetch "" (find_joined record_id))
  pure (flatten read)
record_info record_id false = pure none

abbrev pub remove_record : ℕ → Tables → ℕ × Tables
remove_record record_id t = (
  length (filter (has_id record_id) t.records),
  record t { records = filter (λ r. not (has_id record_id r)) t.records },
)

abbrev send_deleted : ℕ → Option (RecordRow × String) → Action Tables (Unit {0})
send_deleted record_id none = pure tt
send_deleted record_id (some (row, collection_name)) =
    send_event (record_event TriggerType.record_deleted collection_name record_id row.contents)

-- `self.event_tx.is_some()`
abbrev sender : Action Tables Bool
sender s = (ok s.tables.has_sender, s)

unfoldable pub delete_record : ℕ → Action Tables (Unit {0})
delete_record record_id = do
  has_sender ← sender
  info ← record_info record_id has_sender
  rows_affected ← execute "Failed to delete record: " (remove_record record_id)
  affected_or (no_record record_id) rows_affected
  send_deleted record_id info
