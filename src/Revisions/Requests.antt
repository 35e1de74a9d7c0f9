-- ===== src/Revisions/Requests.antt =====
-- Requests to amos-harness/src/revisions.rs one after another, and what they leave in the table.
use amos_platform.Prelude.{
  ℕ, ◌+◌, ◌≡◌, ◌⊎◌, inl, inr, sym, subst, arith, String, Option, none, some, List, [], ◌∷◌, ◌++◌,
  map,
}
use amos_platform.Prelude.Values.{Json}
use amos_platform.Database.{Session, Action, pure, ◌>>=◌, bind_keeps}
use amos_platform.Revisions.Types.{RevisionRow, CreateRevisionRequest, RevertRequest, Tables}
use amos_platform.Revisions.Diff.{Digest}
use amos_platform.Revisions.Service.{
  rows_of, create_revision, get_revision, get_latest_revision, list_revisions, revert_to_version,
  reverting,
}
use amos_platform.Revisions.History.{HasHistory, inserted, inserted-Follows, append-HasHistory}

pub data Request : Type 0 where
  create : CreateRevisionRequest → Request
  revert : RevertRequest → Request
  read : String → ℕ → ℕ → Request
  latest : String → ℕ → Request
  list : String → ℕ → ℕ → ℕ → Request

abbrev pub snapshots : List RevisionRow → List Json
snapshots rows = map (λ r. r.snapshot) rows

abbrev pub optional : Option RevisionRow → List RevisionRow
optional none = []
optional (some r) = r ∷ []

module _ (digest : Digest) where
  -- A request, answered by the snapshots of the revisions that its operation answers.
  unfoldable pub handle : Request → Action Tables (List Json)
  unfolding create_revision revert_to_version get_revision get_latest_revision list_revisions
  handle (create req) = do r ← create_revision digest req; pure (snapshots (r ∷ []))
  handle (revert req) = do r ← revert_to_version digest req; pure (snapshots (r ∷ []))
  handle (read entity_type entity_id version) = do
    r ← get_revision entity_type entity_id version
    pure (snapshots (r ∷ []))
  handle (latest entity_type entity_id) = do
    r ← get_latest_revision entity_type entity_id
    pure (snapshots (optional r))
  handle (list entity_type entity_id limit offset) = do
    response ← list_revisions entity_type entity_id limit offset
    pure (snapshots response.revisions)

  create_cases :
      (req : CreateRevisionRequest) (s : Session Tables)
      → let table = s.tables.entity_revisions in
        let left = (create_revision digest req s).1.tables.entity_revisions in
        (left ≡ table)
        ⊎ (left
            ≡ table
              ++ (inserted digest req
                    (s.uuids s.drawn)
                    s.now
                    (rows_of req.entity_type req.entity_id table)
                  ∷ []))
  unfolding create_revision
  create_cases req s = ground arith

  create-HasHistory :
      (req : CreateRevisionRequest) (s : Session Tables)
      → HasHistory digest s.tables.entity_revisions
      → HasHistory digest (create_revision digest req s).1.tables.entity_revisions
  create-HasHistory req s h =
      let table = s.tables.entity_revisions in
      let rows = rows_of req.entity_type req.entity_id table in
      let r = inserted digest req (s.uuids s.drawn) s.now rows in
      elim (create_cases req s) [
        | inl same ↦ subst (HasHistory digest) (sym same) h
        | inr made ↦ subst (HasHistory digest) (sym made) (
            append-HasHistory digest table r h (
              inserted-Follows digest req (s.uuids s.drawn) s.now rows
                (h req.entity_type req.entity_id)))
      ]

  abbrev pub Keeps : Session Tables → Type 0
  Keeps s = HasHistory digest s.tables.entity_revisions

  get_unchanged :
      (entity_type : String) (entity_id version : ℕ) (s : Session Tables)
      → (get_revision entity_type entity_id version s).1.tables ≡ s.tables
  unfolding get_revision
  get_unchanged entity_type entity_id version s = ground arith

  reads_unchanged :
      (entity_type : String) (entity_id version limit offset : ℕ) (s : Session Tables)
      → ((handle (read entity_type entity_id version) s).1.tables ≡ s.tables)
        × ((handle (latest entity_type entity_id) s).1.tables ≡ s.tables)
        × ((handle (list entity_type entity_id limit offset) s).1.tables ≡ s.tables)
  unfolding handle get_revision get_latest_revision list_revisions
  reads_unchanged entity_type entity_id version limit offset s =
      (ground arith, ground arith, ground arith)

  kept :
      (s : Session Tables) {t' : Tables}
      → t' ≡ s.tables
      → Keeps s
      → HasHistory digest t'.entity_revisions
  kept s same h = subst (λ t. HasHistory digest t.entity_revisions) (sym same) h

  pub handle-HasHistory : (q : Request) (s : Session Tables) → Keeps s → Keeps (handle q s).1
  unfolding handle revert_to_version
  handle-HasHistory (create req) s h =
      bind_keeps Keeps (create_revision digest req) (λ r. pure (snapshots (r ∷ []))) s
        (create-HasHistory req s h) (λ r s' h'. h')
  handle-HasHistory (revert req) s h =
      bind_keeps Keeps (revert_to_version digest req) (λ r. pure (snapshots (r ∷ []))) s
        (bind_keeps Keeps (get_revision req.entity_type req.entity_id req.target_version)
          (λ target. create_revision digest (reverting req target)) s
          (kept s (get_unchanged req.entity_type req.entity_id req.target_version s) h)
          (λ target. create-HasHistory (reverting req target)))
        (λ r s' h'. h')
  handle-HasHistory (read entity_type entity_id version) s h =
      kept s (reads_unchanged entity_type entity_id version 0 0 s).0 h
  handle-HasHistory (latest entity_type entity_id) s h =
      kept s (reads_unchanged entity_type entity_id 0 0 0 s).1 h
  handle-HasHistory (list entity_type entity_id limit offset) s h =
      kept s (reads_unchanged entity_type entity_id 0 limit offset s).2 h

-- Requests one after another, each some time after the one before.
pub serve : Digest → List (ℕ × Request) → Session Tables → Session Tables
serve digest [] s = s
serve digest ((elapsed, q) ∷ requests) s =
    serve digest requests (handle digest q (record s { now = s.now + elapsed })).1

-- Whatever requests are served, with whatever refusals of the database: the revisions of every
-- entity are numbered from 1 without a gap in the order of their insertion, each has the hash of
-- its snapshot, and each has as its diff that from the snapshot of the revision before it, of which
-- the first has none.
pub serve-HasHistory :
    (digest : Digest) (requests : List (ℕ × Request)) (s : Session Tables)
    → HasHistory digest s.tables.entity_revisions
    → HasHistory digest (serve digest requests s).tables.entity_revisions
unfolding serve
serve-HasHistory digest [] s h = h
serve-HasHistory digest ((elapsed, q) ∷ requests) s h =
    let s' : Session Tables = record s { now = s.now + elapsed } in
    serve-HasHistory digest requests (handle digest q s').1 (handle-HasHistory digest q s' h)
