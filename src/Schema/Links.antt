-- ===== src/Schema/Links.antt =====
-- Every record of amos-harness/src/schema.rs belongs to a collection, whatever is requested.
use amos_platform.Prelude.{
  ℕ, ◌+◌, ◌≡◌, inl, inr, refl, sym, ◌∙◌, subst, arith, Bool, true, not, String, Option, none, some,
  List, [], ◌∷◌, ◌++◌, filter, find, is_any, update_where, All, All-append, All-update_where,
  All-filter, All-map, Bool-cases,
}
use amos_platform.Prelude.Values.{Json}
use amos_platform.Error.{ok, Result-cases}
use amos_platform.Database.{Session}
use amos_platform.Schema.Types.{Collection, CollectionRow, RecordRow, Tables}
use amos_platform.Schema.Validation.{UuidReader}
use amos_platform.Schema.Collections.{
  collection_from_row, ids_of, has_name, redefined, new_collection, upsert, without_collection,
}
use amos_platform.Schema.Records.{
  has_id, merged, create_record, update_record, delete_record, new_record,
}
use amos_platform.Schema.Stored.{create_record-IsStored}
use amos_platform.Schema.Requests.{
  Request, define, drop_collection, create, change, remove, handle, serve, define_cases,
  delete_cases, update_cases, remove_cases, create_collections, create_fails,
}

abbrev pub Belongs : List CollectionRow → RecordRow → Type 0
Belongs collections r = is_any (ids_of collections) r.collection_id ≡ true

abbrev pub AllBelong : Tables → Type 0
AllBelong t = All (Belongs t.collections) t.records

-- The ids of the rows that an update or an insertion leaves.
any_append :
    (k : ℕ) (rows : List CollectionRow) (new : CollectionRow)
    → is_any (ids_of rows) k ≡ true
    → is_any (ids_of (rows ++ (new ∷ []))) k ≡ true
any_append k [] new h = cc
any_append k (r ∷ rows) new h = ground (arith, any_append k rows new)

any_redefined :
    (k : ℕ) (p : CollectionRow → Bool) (f : CollectionRow → CollectionRow)
    (rows : List CollectionRow)
    → ((r : CollectionRow) → (f r).id ≡ r.id)
    → is_any (ids_of rows) k ≡ true
    → is_any (ids_of (update_where p f rows)) k ≡ true
any_redefined k p f [] same h = h
any_redefined k p f (r ∷ rows) same h = ground (arith, same r, any_redefined k p f rows same)

any_kept :
    (k : ℕ) (p : CollectionRow → Bool) (rows : List CollectionRow)
    → is_any (ids_of rows) k ≡ true
    → not (is_any (ids_of (filter p rows)) k) ≡ true
    → is_any (ids_of (filter (λ r. not (p r)) rows)) k ≡ true
any_kept k p [] h gone = h
any_kept k p (r ∷ rows) h gone = ground (arith, any_kept k p rows)

found_any :
    (p : CollectionRow → Bool) (rows : List CollectionRow) (row : CollectionRow)
    → find p rows ≡ some row
    → is_any (ids_of rows) row.id ≡ true
found_any p [] row h = cc
found_any p (r ∷ rows) row h = ground (arith, found_any p rows row)

define-AllBelong :
    (name : String) (f : CollectionRow → CollectionRow) (new : CollectionRow)
    (o : Option CollectionRow) (t : Tables)
    → ((r : CollectionRow) → (f r).id ≡ r.id)
    → AllBelong t
    → AllBelong (upsert (has_name name) f new o t).1
define-AllBelong name f new none t same h =
    All-map (λ r. any_append r.collection_id t.collections new) t.records h
define-AllBelong name f new (some row) t same h =
    All-map (λ r. any_redefined r.collection_id (has_name name) f t.collections same) t.records h

-- What holds of the rows that a filter keeps, by the test that they pass.
All-passed {ℓ κ} :
    {P : RecordRow → Type ℓ} {Q : RecordRow → Type κ} (p : RecordRow → Bool) (xs : List RecordRow)
    → ((x : RecordRow) → P x → p x ≡ true → Q x)
    → All P xs
    → All Q (filter p xs)
All-passed p [] f h = tt
All-passed p (x ∷ xs) f h = elim (Bool-cases (p x)) [
  | inl e ↦ rw e (f x h.0 e, All-passed p xs f h.1)
  | inr e ↦ rw e (All-passed p xs f h.1)
]

delete-AllBelong :
    (name : String) (t : Tables) → AllBelong t → AllBelong (without_collection name t).1
delete-AllBelong name t h =
    All-passed (λ r. not (is_any (ids_of (filter (has_name name) t.collections)) r.collection_id))
      t.records (λ r. any_kept r.collection_id (has_name name) t.collections) h

read_id : (row : CollectionRow) (c : Collection) → collection_from_row row ≡ ok c → c.id ≡ row.id
read_id row c h = ground arith

create-AllBelong :
    (reader : UuidReader) (name : String) (given : Json) (s : Session Tables)
    → AllBelong s.tables
    → AllBelong (create_record reader name given s).1.tables
create-AllBelong reader name given s h =
    let t = (create_record reader name given s).1.tables in
    let belongs : All (Belongs s.tables.collections) t.records =
      elim (Result-cases (create_record reader name given s).0) [
        | inl (r, e) ↦
            let done = create_record-IsStored reader name given s r e in
            subst (All (Belongs s.tables.collections)) (sym done.stored) (
              All-append (Belongs s.tables.collections) s.tables.records
                (new_record r.id r.collection_id r.contents s.now ∷ []) h
                (
                  subst (λ id. is_any (ids_of s.tables.collections) id ≡ true)
                      (sym (done.belongs ∙ read_id done.row done.collection done.reads))
                      (found_any (has_name name) s.tables.collections done.row done.found),
                  tt,
                ))
        | inr (x, e) ↦
            subst (All (Belongs s.tables.collections)) (sym (create_fails reader name given s x e))
              h
      ] in
    subst (λ cs. All (Belongs cs) t.records) (sym (create_collections reader name given s)) belongs

pub handle-AllBelong :
    (reader : UuidReader) (q : Request) (s : Session Tables)
    → AllBelong s.tables
    → AllBelong (handle reader q s).tables
handle-AllBelong reader (define name display_name description fields) s h =
    elim (define_cases name display_name description fields s) [
      | inl same ↦ subst AllBelong (sym same) h
      | inr made ↦ subst AllBelong (sym made) (
          define-AllBelong name (redefined display_name description fields s.now)
            (new_collection (s.uuids s.drawn) name display_name description fields s.now)
            (find (has_name name) s.tables.collections) s.tables (λ r. refl) h)
    ]
handle-AllBelong reader (drop_collection name) s h = elim (delete_cases name s) [
  | inl same ↦ subst AllBelong (sym same) h
  | inr made ↦ subst AllBelong (sym made) (delete-AllBelong name s.tables h)
]
handle-AllBelong reader (create name given) s h = create-AllBelong reader name given s h
handle-AllBelong reader (change id contents) s h =
    let (collections, records) = update_cases id contents s in
    let t = (update_record id contents s).1.tables in
    let belongs : All (Belongs s.tables.collections) t.records = elim records [
      | inl same ↦ subst (All (Belongs s.tables.collections)) (sym same) h
      | inr made ↦ subst (All (Belongs s.tables.collections)) (sym made) (
          All-update_where (Belongs s.tables.collections) (has_id id) (merged contents s.now)
            s.tables.records (λ x b. b) h)
    ] in
    subst (λ cs. All (Belongs cs) t.records) (sym collections) belongs
handle-AllBelong reader (remove id) s h =
    let (collections, records) = remove_cases id s in
    let t = (delete_record id s).1.tables in
    let belongs : All (Belongs s.tables.collections) t.records = elim records [
      | inl same ↦ subst (All (Belongs s.tables.collections)) (sym same) h
      | inr made ↦
          subst (All (Belongs s.tables.collections)) (sym made)
            (All-filter (Belongs s.tables.collections) (λ r. not (has_id id r)) s.tables.records h)
    ] in
    subst (λ cs. All (Belongs cs) t.records) (sym collections) belongs

-- Whatever requests are served, with whatever refusals of the database, every record belongs to a
-- collection that there is: redefining a collection keeps its id, and deleting one takes its records
-- with it.
pub serve-AllBelong :
    (reader : UuidReader) (requests : List (ℕ × Request)) (s : Session Tables)
    → AllBelong s.tables
    → AllBelong (serve reader requests s).tables
unfolding serve
serve-AllBelong reader [] s h = h
serve-AllBelong reader ((elapsed, q) ∷ requests) s h =
    let s' : Session Tables = record s { now = s.now + elapsed } in
    serve-AllBelong reader requests (handle reader q s') (handle-AllBelong reader q s' h)
