-- ===== src/Schema/Requests.antt =====
-- The requests to amos-harness/src/schema.rs that change its tables, and what each may leave there.
use amos_platform.Prelude.{
  ℕ, ◌+◌, ◌≡◌, ◌⊎◌, arith, not, String, Option, List, [], ◌∷◌, filter, find, update_where,
}
use amos_platform.Prelude.Values.{Json}
use amos_platform.Error.{AmosError, err}
use amos_platform.Database.{Session}
use amos_platform.Schema.Types.{FieldDefinition, Tables}
use amos_platform.Schema.Validation.{UuidReader}
use amos_platform.Schema.Collections.{
  has_name, redefined, new_collection, upsert, without_collection, define_collection,
  get_collection, delete_collection,
}
use amos_platform.Schema.Records.{has_id, merged, create_record, update_record, delete_record}

pub data Request : Type 0 where
  define : String → String → Option String → List FieldDefinition → Request
  drop_collection : String → Request
  create : String → Json → Request
  change : ℕ → Json → Request
  remove : ℕ → Request

-- The tables after a request.
abbrev pub handle : UuidReader → Request → Session Tables → Session Tables
handle reader (define name display_name description fields) s =
    (define_collection name display_name description fields s).1
handle reader (drop_collection name) s = (delete_collection name s).1
handle reader (create name given) s = (create_record reader name given s).1
handle reader (change id contents) s = (update_record id contents s).1
handle reader (remove id) s = (delete_record id s).1

pub define_cases :
    (name display_name : String) (description : Option String) (fields : List FieldDefinition)
    (s : Session Tables)
    → let t = (define_collection name display_name description fields s).1.tables in
      (t ≡ s.tables)
      ⊎ (t
          ≡ (upsert
              (has_name name)
              (redefined display_name description fields s.now)
              (new_collection (s.uuids s.drawn) name display_name description fields s.now)
              (find (has_name name) s.tables.collections)
              s.tables).1)
unfolding define_collection
define_cases name display_name description fields s = ground arith

pub delete_cases :
    (name : String) (s : Session Tables)
    → ((delete_collection name s).1.tables ≡ s.tables)
      ⊎ ((delete_collection name s).1.tables ≡ (without_collection name s.tables).1)
unfolding delete_collection
delete_cases name s = ground arith

pub update_cases :
    (id : ℕ) (contents : Json) (s : Session Tables)
    → let t = (update_record id contents s).1.tables in
      (t.collections ≡ s.tables.collections)
      × ((t.records ≡ s.tables.records)
          ⊎ (t.records ≡ update_where (has_id id) (merged contents s.now) s.tables.records))
unfolding update_record
update_cases id contents s = ground arith

pub remove_cases :
    (id : ℕ) (s : Session Tables)
    → let t = (delete_record id s).1.tables in
      (t.collections ≡ s.tables.collections)
      × ((t.records ≡ s.tables.records)
          ⊎ (t.records ≡ filter (λ r. not (has_id id r)) s.tables.records))
unfolding delete_record
remove_cases id s = ground arith

pub create_collections :
    (reader : UuidReader) (name : String) (given : Json) (s : Session Tables)
    → (create_record reader name given s).1.tables.collections ≡ s.tables.collections
unfolding create_record get_collection
create_collections reader name given s = ground arith

pub create_fails :
    (reader : UuidReader) (name : String) (given : Json) (s : Session Tables) (e : AmosError)
    → (create_record reader name given s).0 ≡ err e
    → (create_record reader name given s).1.tables.records ≡ s.tables.records
unfolding create_record get_collection
create_fails reader name given s e h = ground arith

-- Requests one after another, each some time after the one before.
unfoldable pub serve : UuidReader → List (ℕ × Request) → Session Tables → Session Tables
serve reader [] s = s
serve reader ((elapsed, q) ∷ requests) s =
    serve reader requests (handle reader q (record s { now = s.now + elapsed }))
