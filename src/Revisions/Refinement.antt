-- ===== src/Revisions/Refinement.antt =====
-- The revision service of amos-harness/src/revisions.rs does what the logs of snapshots do.
use amos_platform.Prelude.{
  ℕ, zero, suc, ◌+◌, ◌≤◌, ◌≡◌, refl, sym, ap, ◌∙◌, subst, arith, Bool, true, false, Bool-cases, inl,
  inr, if◌then◌else◌, ltb, Option, none, some, List, [], ◌∷◌, ◌++◌, take, drop, reverse, head?,
  find, get_elem?, filter, filter-append, sort_by, sort_by-reverse, IsAfter, IsReversed, map-append,
  map-take, map-drop, map-reverse, unwrap_or,
}
use mathlib.Core.Path.{fun_ext}
use amos_platform.Prelude.Values.{Json}
use amos_platform.Error.{AmosError, Result, ok}
use amos_platform.Database.{Session, pure, or_raise, ◌>>=◌, bind-ok}
use amos_platform.Revisions.Types.{RevisionRow, CreateRevisionRequest, RevertRequest, Tables}
use amos_platform.Revisions.Diff.{Digest}
use amos_platform.Revisions.Service.{
  is_of, rows_of, has_version, max_version, newest_first, snapshot_of, no_revision, append_revision,
  create_revision, get_revision, get_latest_revision, list_revisions, revert_to_version, reverting,
}
use amos_platform.Revisions.History.{IsChain, IsChain-find, HasHistory, inserted}
use amos_platform.Revisions.Requests.{
  Request, create, revert, read, latest, list, snapshots, optional, handle, handle-HasHistory,
}
use amos_platform.Revisions.Log.{Logs, at_version, amend, one_or, amended, reply, replay}

abbrev pub logs_of : List RevisionRow → Logs
logs_of table entity_type entity_id = snapshots (rows_of entity_type entity_id table)

abbrev pub view : Session Tables → Logs
view s = logs_of s.tables.entity_revisions

module _ (digest : Digest) where
  IsChain-version :
      (n m : ℕ) (prev : Option Json) (rows : List RevisionRow)
      → IsChain digest n prev rows
      → m ≤ n
      → find (has_version m) rows ≡ none
  IsChain-version n m prev [] h k = refl
  IsChain-version n m prev (r ∷ rows) h k =
      ground (arith, h.0.0, IsChain-version (suc n) m (some r.snapshot) rows h.1)

  IsChain-IsAfter :
      (n : ℕ) (prev : Option Json) (rows : List RevisionRow) (x : RevisionRow)
      → IsChain digest n prev rows
      → x.version ≤ n
      → IsAfter newest_first x rows
  IsChain-IsAfter n prev [] x h k = tt
  IsChain-IsAfter n prev (r ∷ rows) x h k =
      (ground (arith, h.0.0), IsChain-IsAfter (suc n) (some r.snapshot) rows x h.1 (omega arith))

  IsChain-IsReversed :
      (n : ℕ) (prev : Option Json) (rows : List RevisionRow)
      → IsChain digest n prev rows
      → IsReversed newest_first rows
  IsChain-IsReversed n prev [] h = tt
  IsChain-IsReversed n prev (r ∷ rows) h = (
    IsChain-IsAfter (suc n) (some r.snapshot) rows r h.1 (omega (arith, h.0.0)),
    IsChain-IsReversed (suc n) (some r.snapshot) rows h.1,
  )

snapshot_at :
    (rows : List RevisionRow) (k : ℕ)
    → snapshot_of (get_elem? rows k) ≡ get_elem? (snapshots rows) k
snapshot_at [] k = refl
snapshot_at (r ∷ rows) zero = refl
snapshot_at (r ∷ rows) (suc k) = snapshot_at rows k

found_at :
    (digest : Digest) (version : ℕ) (rows : List RevisionRow)
    → IsChain digest 0 none rows
    → snapshot_of (find (has_version version) rows) ≡ at_version version (snapshots rows)
found_at digest zero rows h = ap snapshot_of (IsChain-version digest 0 0 none rows h (omega arith))
found_at digest (suc k) rows h =
    let place : suc k ≡ 0 + suc k = omega arith in
    ap (λ m. snapshot_of (find (has_version m) rows)) place
    ∙ ap snapshot_of (IsChain-find digest 0 k none rows h)
    ∙ snapshot_at rows k

if-map :
    (b : Bool) (r : RevisionRow)
    → snapshots (if b then r ∷ [] else []) ≡ (if b then r.snapshot ∷ [] else [])
if-map true r = refl
if-map false r = refl

logs_of-append :
    (table : List RevisionRow) (r : RevisionRow)
    → logs_of (table ++ (r ∷ [])) ≡ amend r.entity_type r.entity_id r.snapshot (logs_of table)
logs_of-append table r = fun_ext (λ t. fun_ext (λ i.
    ap snapshots (filter-append (is_of t i) table (r ∷ []))
    ∙ map-append (λ x. x.snapshot) (rows_of t i table) (filter (is_of t i) (r ∷ []))
    ∙ ap (λ zs. snapshots (rows_of t i table) ++ zs) (if-map (is_of t i r) r)))

-- The answer and the logs after an action.
abbrev seen : Result (List Json) × Session Tables → Result (List Json) × Logs
seen (r, s) = (r, view s)

abbrev after_insert : RevisionRow → Session Tables → Session Tables
after_insert r s = record s {
  tables = append_revision r s.tables;
  drawn = s.drawn + 1;
  faults = [];
}

create_quiet :
    (digest : Digest) (req : CreateRevisionRequest) (s : Session Tables)
    → let r =
        inserted digest req
          (s.uuids s.drawn)
          s.now
          (rows_of req.entity_type req.entity_id s.tables.entity_revisions) in
      create_revision digest req (record s { faults = [] }) ≡ (ok r, after_insert r s)
unfolding create_revision
create_quiet digest req s =
    elim (Bool-cases (
      ltb 1 (
        unwrap_or (max_version (rows_of req.entity_type req.entity_id s.tables.entity_revisions)) 0
        + 1))) [ inl e ↦ rw e refl | inr e ↦ rw e refl ]

module _ (digest : Digest) where
  created_seen :
      (req : CreateRevisionRequest) (s : Session Tables)
      → seen (
          (create_revision digest req >>= λ r. pure (snapshots (r ∷ [])))
            (record s { faults = [] }))
        ≡ (ok (req.snapshot ∷ []), amend req.entity_type req.entity_id req.snapshot (view s))
  created_seen req s =
      let table = s.tables.entity_revisions in
      let r =
        inserted digest req (s.uuids s.drawn) s.now (rows_of req.entity_type req.entity_id table) in
      ap seen (
        bind-ok (create_revision digest req) (λ x. pure (snapshots (x ∷ [])))
          (record s { faults = [] }) r (after_insert r s) (create_quiet digest req s))
      ∙ ap (λ logs. (ok (req.snapshot ∷ []), logs)) (logs_of-append table r)

  restored_seen :
      (req : RevertRequest) (s : Session Tables) (o : Option RevisionRow)
      → let e = no_revision req.entity_type req.entity_id req.target_version in
        seen (
          ((or_raise o e >>= λ target. create_revision digest (reverting req target)) >>= λ r.
          pure (snapshots (r ∷ [])))
            (record s { faults = [] }))
        ≡ (one_or e (snapshot_of o), amended req (snapshot_of o) (view s))
  restored_seen req s none = refl
  restored_seen req s (some target) = created_seen (reverting req target) s

  read_seen :
      (e : AmosError) (s : Session Tables) (o : Option RevisionRow)
      → seen ((or_raise o e >>= λ r. pure (snapshots (r ∷ []))) s)
        ≡ (one_or e (snapshot_of o), view s)
  read_seen e s none = refl
  read_seen e s (some r) = refl

  optional-take :
      (rows : List RevisionRow) → snapshots (optional (head? rows)) ≡ take 1 (snapshots rows)
  optional-take [] = refl
  optional-take (r ∷ rows) = refl

  newest_snapshots :
      (rows : List RevisionRow)
      → IsChain digest 0 none rows
      → snapshots (sort_by newest_first rows) ≡ reverse (snapshots rows)
  newest_snapshots rows h =
      ap snapshots (sort_by-reverse newest_first rows (IsChain-IsReversed digest 0 none rows h))
      ∙ map-reverse (λ r. r.snapshot) rows

  -- One request on the tables and on the logs.
  handle-reply :
      (q : Request) (s : Session Tables)
      → HasHistory digest s.tables.entity_revisions
      → seen (handle digest q (record s { faults = [] })) ≡ reply q (view s)
  unfolding handle revert_to_version get_revision get_latest_revision list_revisions
  handle-reply (create req) s h = created_seen req s
  handle-reply (revert req) s h =
      let rows = rows_of req.entity_type req.entity_id s.tables.entity_revisions in
      restored_seen req s (find (has_version req.target_version) rows)
      ∙ ap
          (λ o. (
            one_or (no_revision req.entity_type req.entity_id req.target_version) o,
            amended req o (view s),
          ))
          (found_at digest req.target_version rows (h req.entity_type req.entity_id))
  handle-reply (read entity_type entity_id version) s h =
      let rows = rows_of entity_type entity_id s.tables.entity_revisions in
      let e = no_revision entity_type entity_id version in
      read_seen e (record s { faults = [] }) (find (has_version version) rows)
      ∙ ap (λ o. (one_or e o, view s)) (found_at digest version rows (h entity_type entity_id))
  handle-reply (latest entity_type entity_id) s h =
      let rows = rows_of entity_type entity_id s.tables.entity_revisions in
      ap (λ zs. (ok zs, view s))
        (optional-take (sort_by newest_first rows)
          ∙ ap (take 1) (newest_snapshots rows (h entity_type entity_id)))
  handle-reply (list entity_type entity_id limit offset) s h =
      let rows = rows_of entity_type entity_id s.tables.entity_revisions in
      ap (λ zs. (ok zs, view s))
        (map-take (λ r. r.snapshot) limit (drop offset (sort_by newest_first rows))
          ∙ ap (take limit) (
              map-drop (λ r. r.snapshot) offset (sort_by newest_first rows)
              ∙ ap (drop offset) (newest_snapshots rows (h entity_type entity_id))))

-- The requests in turn, each some time after the one before: their answers, and the logs at the end.
pub run : Digest → List (ℕ × Request) → Session Tables → List (Result (List Json)) × Logs
run digest [] s = ([], view s)
run digest ((elapsed, q) ∷ requests) s =
    let (r, s') = handle digest q (record s { now = s.now + elapsed }) in
    let (rs, logs) = run digest requests s' in (r ∷ rs, logs)

handle_quiet :
    (digest : Digest) (q : Request) (s : Session Tables)
    → s.faults ≡ []
    → (handle digest q s).1.faults ≡ []
unfolding handle revert_to_version create_revision get_revision get_latest_revision list_revisions
handle_quiet digest (create req) s h = ground arith
handle_quiet digest (revert req) s h = ground arith
handle_quiet digest (read entity_type entity_id version) s h = ground arith
handle_quiet digest (latest entity_type entity_id) s h = ground arith
handle_quiet digest (list entity_type entity_id limit offset) s h = ground arith

-- Where the database refuses no statement, the service is a log of snapshots for each entity: any
-- requests in turn are answered as the logs answer them (creating and reverting append a snapshot,
-- version n reads the n-th, the newest come first in listings, and what is not there is not found),
-- and leave in the table the logs that they leave.
pub run-replay :
    (digest : Digest) (requests : List (ℕ × Request)) (s : Session Tables)
    → s.faults ≡ []
    → HasHistory digest s.tables.entity_revisions
    → run digest requests s ≡ replay requests (view s)
unfolding run replay
run-replay digest [] s quiet h = refl
run-replay digest ((elapsed, q) ∷ requests) s quiet h =
    let s' : Session Tables = record s { now = s.now + elapsed } in
    let step : seen (handle digest q s') ≡ reply q (view s) =
      subst (λ f. seen (handle digest q (record s' { faults = f })) ≡ reply q (view s)) (sym quiet)
        (handle-reply digest q s' h) in
    let after =
      run-replay digest requests (handle digest q s').1 (handle_quiet digest q s' quiet)
        (handle-HasHistory digest q s' h) in
    ap (λ x. ((handle digest q s').0 ∷ x.0, x.1)) after
    ∙ ap (λ x. (x.0 ∷ (replay requests x.1).0, (replay requests x.1).1)) step
