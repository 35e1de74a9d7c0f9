-- ===== src/Schema/Stored.antt =====
-- What `create_record` of amos-harness/src/schema.rs stores and sends.
use amos_platform.Prelude.{
  ℕ, zero, suc, ◌≡◌, refl, ap, sym, ◌∙◌, subst, arith, Bool, true, false, String, Option, none,
  some, List, [], ◌∷◌, ◌++◌, find, ltb, Message, lt→ltb, ◌+◌, literal, ◌&&◌, if◌then◌else◌,
}
use amos_platform.Prelude.Values.{Json, Fields, object, get, get_field}
use amos_platform.Error.{AmosError, ok-injective, ok, internal, ◌⊕◌}
use mathlib.Core.List.{append-nil}
use amos_platform.Database.{
  Session, Action, pure, ◌>>◌, execute, statement_answers, or_raise, answer, fetch, ◌>>=◌,
  bind_answers, fetch_reads,
}
use amos_platform.Automation.Types.{TriggerType, TriggerEvent}
use amos_platform.Schema.Types.{Collection, CollectionRow, Record, RecordRow, Tables}
use amos_platform.Schema.Validation.{UuidReader, validate_record_data}
use amos_platform.Schema.Collections.{has_name, collection_from_row, no_collection, get_collection}
use amos_platform.Schema.Records.{
  with_defaults, record_event, new_record, send_event, put_event, insert_record, record_from_row,
  store_record, create_record,
}
use amos_platform.Schema.Conforms.{Conforms, validate_record_data-Conforms}
use amos_platform.Schema.Defaults.{or_else, default_of, get-apply_defaults}

-- Where the channel is connected and has room, one event.
abbrev pub deliverable : Session Tables → TriggerEvent → List TriggerEvent
deliverable s event = if s.tables.has_sender && ltb 0 s.tables.room then event ∷ [] else []

-- What an answered `create_record` did.
pub record IsStored (reader : UuidReader) (name : String) (given : Json) (s : Session Tables)
    (r : Record) (s' : Session Tables) : Type 0 where
  pub row : CollectionRow
  pub collection : Collection
  pub found : find (has_name name) s.tables.collections ≡ some row
  pub reads : collection_from_row row ≡ ok collection
  pub conforms : Conforms reader collection.fields r.contents
  pub completed :
      (obj : Fields)
      → given ≡ object obj
      → (key : String)
      → get r.contents key ≡ or_else (get_field key obj) (default_of key collection.fields)
  pub belongs : r.collection_id ≡ collection.id
  pub stored :
      s'.tables.records
      ≡ s.tables.records ++ (new_record r.id r.collection_id r.contents s.now ∷ [])
  pub sent :
      s'.tables.events
      ≡ s.tables.events
        ++ deliverable s (record_event TriggerType.record_created name r.id r.contents)

row_answers :
    (name : String) (o : Option CollectionRow) (c : Collection) (s : Session Tables)
    → ((or_raise o (no_collection name) >>= λ row. answer (collection_from_row row)) s).0 ≡ ok c
    → (row : CollectionRow) × (o ≡ some row) × (collection_from_row row ≡ ok c)
row_answers name none c s h = cc
row_answers name (some row) c s h = (row, refl, h)

collection_answers :
    (name : String) (s : Session Tables) (c : Collection)
    → (get_collection name s).0 ≡ ok c
    → (row : CollectionRow) × (find (has_name name) s.tables.collections ≡ some row)
      × (collection_from_row row ≡ ok c)
unfolding get_collection
collection_answers name s c h =
    let read : Action Tables (Option CollectionRow) =
      fetch "Failed to get collection: " (λ t. find (has_name name) t.collections) in
    let (o, answers, same) =
      bind_answers read
        (λ o. or_raise o (no_collection name) >>= λ row. answer (collection_from_row row)) s c h in
    let (row, found, reads) = row_answers name o c (read s).1 (ap (λ p. p.0) (sym same) ∙ h) in
    (
      row,
      (fetch_reads "Failed to get collection: " (λ t. find (has_name name) t.collections) s o
            answers).0
          ∙ found,
      reads,
    )

pub collection_unchanged :
    (name : String) (s : Session Tables)
    → ((get_collection name s).1.tables ≡ s.tables) × ((get_collection name s).1.now ≡ s.now)
unfolding get_collection
collection_unchanged name s = ground arith

events_put :
    (event : TriggerEvent) (connected : Bool) (room : ℕ) (t : Tables)
    → ((put_event event connected room t).events
        ≡ t.events ++ (if connected && ltb 0 room then event ∷ [] else []))
      × ((put_event event connected room t).records ≡ t.records)
events_put event false room t = (sym (append-nil t.events), refl)
events_put event true zero t = (sym (append-nil t.events), refl)
events_put event true (suc room) t = (rw (lt→ltb 0 (suc room) (omega arith)) refl, refl)

abbrev Done : String → ℕ → Json → Session Tables → Record → Session Tables → Type 0
Done name collection_id contents s r s' =
    (r.contents ≡ contents)
    × (r.collection_id ≡ collection_id)
    × (s'.tables.records
        ≡ s.tables.records ++ (new_record r.id r.collection_id r.contents s.now ∷ []))
    × (s'.tables.events
        ≡ s.tables.events
          ++ deliverable s (record_event TriggerType.record_created name r.id r.contents))

store_answers :
    (name : String) (collection_id : ℕ) (contents : Json) (s : Session Tables) (r : Record)
    → (store_record name collection_id contents s).0 ≡ ok r
    → Done name collection_id contents s r (store_record name collection_id contents s).1
store_answers name collection_id contents s r h =
    let row : RecordRow = new_record (s.uuids s.drawn) collection_id contents s.now in
    let before : Session Tables = record s { drawn = s.drawn + 1 } in
    let insert : Action Tables RecordRow =
      execute "Failed to create record: " (insert_record row) in
    let event = record_event TriggerType.record_created name row.id row.contents in
    let after : RecordRow → Action Tables Record = λ y.
      send_event (record_event TriggerType.record_created name y.id y.contents)
      >> pure (record_from_row y name) in
    let refuse : Message → AmosError = λ e. internal (literal "Failed to create record: " ⊕ e) in
    let (x, answers, same) = bind_answers insert after before r h in
    let (is_row, left) = statement_answers refuse (insert_record row) before x answers in
    let whole = same ∙ ap (λ y. after y (insert before).1) (sym is_row) ∙ ap (after row) left in
    let is_r : record_from_row row name ≡ r =
      ok-injective (record_from_row row name) r (ap (λ p. p.0) (sym whole) ∙ h) in
    let put = events_put event s.tables.has_sender s.tables.room (insert_record row s.tables).1 in
    subst (λ y. Done name collection_id contents s y (store_record name collection_id contents s).1)
      is_r
      (subst (λ p. Done name collection_id contents s (record_from_row row name) p.1) (sym whole)
        (refl, refl, put.1, put.0))

-- An answered `create_record` found the collection, read its definition, and appended one record to
-- the table and nothing else; the record conforms to the definition, at each key has what was given
-- or else the default, and is announced to the automations by one event where the channel has room.
pub create_record-IsStored :
    (reader : UuidReader) (name : String) (given : Json) (s : Session Tables) (r : Record)
    → (create_record reader name given s).0 ≡ ok r
    → IsStored reader name given s r (create_record reader name given s).1
unfolding create_record
create_record-IsStored reader name given s r h =
    let store : Collection → Action Tables Record = λ c.
      answer (validate_record_data reader c.fields (with_defaults c.fields given))
      >> store_record name c.id (with_defaults c.fields given) in
    let (c, got, same) = bind_answers (get_collection name) store s r h in
    let (row, found, reads) = collection_answers name s c got in
    let s1 : Session Tables = (get_collection name s).1 in
    let contents : Json = with_defaults c.fields given in
    let (u, valid, goes) =
      bind_answers (answer (validate_record_data reader c.fields contents))
        (λ _. store_record name c.id contents) s1 r (ap (λ p. p.0) (sym same) ∙ h) in
    let whole : create_record reader name given s ≡ store_record name c.id contents s1 =
      same ∙ goes in
    let done = store_answers name c.id contents s1 r (ap (λ p. p.0) (sym whole) ∙ h) in
    let (tables, now) = collection_unchanged name s in
    let event = record_event TriggerType.record_created name r.id r.contents in
    subst (λ p. IsStored reader name given s r p.1) (sym whole)
      (record {
        row = row;
        collection = c;
        found = found;
        reads = reads;
        conforms =
            subst (Conforms reader c.fields) (sym done.0)
              ((validate_record_data-Conforms reader c.fields contents).0 valid);
        completed = λ obj is_object key.
            ap (λ v. get v key) (done.0 ∙ ap (with_defaults c.fields) is_object)
            ∙ get-apply_defaults key c.fields obj;
        belongs = done.1;
        stored =
            done.2
            ∙ ap (λ t. t.records ++ (new_record r.id r.collection_id r.contents s1.now ∷ [])) tables
            ∙ ap (λ n. s.tables.records ++ (new_record r.id r.collection_id r.contents n ∷ [])) now;
        sent =
            done.3
            ∙ ap (λ t. t.events ++ (if t.has_sender && ltb 0 t.room then event ∷ [] else []))
                tables;
      })
