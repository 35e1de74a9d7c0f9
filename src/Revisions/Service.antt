-- ===== src/Revisions/Service.antt =====
-- `RevisionService` of amos-harness/src/revisions.rs.
use amos_platform.Prelude.{
  ℕ, ◌+◌, ◌-◌, max, Bool, ◌&&◌, String, str_eq, Option, none, some, List, [], ◌∷◌, ◌++◌, filter,
  find, head?, take, drop, length, sort_by, leb, ltb, ◌==◌, if◌then◌else◌, unwrap_or, and_then, lit,
  number, literal,
}
use amos_platform.Prelude.Values.{Json}
use amos_platform.Error.{AmosError, not_found}
use amos_platform.Database.{Action, pure, or_raise, ◌>>=◌, utc_now, new_v4, select, statement}
use amos_platform.Revisions.Types.{
  RevisionRow, CreateRevisionRequest, RevertRequest, RevisionListResponse, Tables,
}
use amos_platform.Revisions.Diff.{Digest, compute_content_hash, compute_diff}

-- `WHERE entity_type = $1 AND entity_id = $2`
abbrev pub is_of : String → ℕ → RevisionRow → Bool
is_of entity_type entity_id r = str_eq r.entity_type entity_type && r.entity_id == entity_id

abbrev pub rows_of : String → ℕ → List RevisionRow → List RevisionRow
rows_of entity_type entity_id = filter (is_of entity_type entity_id)

-- `AND version = $3`
abbrev pub has_version : ℕ → RevisionRow → Bool
has_version version r = r.version == version

abbrev pub larger : ℕ → Option ℕ → Option ℕ
larger n none = some n
larger n (some m) = some (max n m)

-- `MAX(version)`
abbrev pub max_version : List RevisionRow → Option ℕ
max_version [] = none
max_version (r ∷ rows) = larger r.version (max_version rows)

-- `ORDER BY version DESC`
abbrev pub newest_first : RevisionRow → RevisionRow → Bool
newest_first a b = leb b.version a.version

abbrev pub snapshot_of : Option RevisionRow → Option Json
snapshot_of o = and_then o (λ r. some r.snapshot)

-- The snapshot of the version before, which is only asked for after the first one.
abbrev pub previous_snapshot : String → ℕ → ℕ → Action Tables (Option Json)
previous_snapshot entity_type entity_id next_version =
    if ltb 1 next_version
    then select (λ t.
      snapshot_of
        (find (has_version (next_version - 1)) (rows_of entity_type entity_id t.entity_revisions)))
    else pure none

abbrev pub diff_since : Option Json → Json → Option Json
diff_since prev_snapshot snapshot = and_then prev_snapshot (λ prev. compute_diff prev snapshot)

abbrev pub append_revision : RevisionRow → Tables → Tables
append_revision r t = record t { entity_revisions = t.entity_revisions ++ (r ∷ []) }

module _ (digest : Digest) where
  -- The row of the `INSERT`.
  abbrev pub new_revision : CreateRevisionRequest → ℕ → Option Json → ℕ → ℕ → RevisionRow
  new_revision req next_version prev_snapshot id now = record {
    id = id;
    entity_type = req.entity_type;
    entity_id = req.entity_id;
    version = next_version;
    content_hash = compute_content_hash digest req.snapshot;
    snapshot = req.snapshot;
    diff_from_prev = diff_since prev_snapshot req.snapshot;
    change_type = req.change_type;
    changed_by = some req.changed_by;
    change_summary = req.change_summary;
    template_id = req.template_id;
    template_version = req.template_version;
    created_at = now;
  }

  unfoldable pub create_revision : CreateRevisionRequest → Action Tables RevisionRow
  create_revision req = do
    top ← select (λ t. max_version (rows_of req.entity_type req.entity_id t.entity_revisions))
    let next_version = unwrap_or top 0 + 1
    prev ← previous_snapshot req.entity_type req.entity_id next_version
    id ← new_v4
    now ← utc_now
    let revision = new_revision req next_version prev id now
    statement (λ t. (revision, append_revision revision t))

-- `… ORDER BY version DESC LIMIT $3 OFFSET $4`
abbrev pub page : ℕ → ℕ → List RevisionRow → List RevisionRow
page limit offset rows = take limit (drop offset (sort_by newest_first rows))

unfoldable pub list_revisions : String → ℕ → ℕ → ℕ → Action Tables RevisionListResponse
list_revisions entity_type entity_id limit offset = do
  total ← select (λ t. length (rows_of entity_type entity_id t.entity_revisions))
  revisions ← select (λ t. page limit offset (rows_of entity_type entity_id t.entity_revisions))
  pure record { revisions = revisions; total = total }

abbrev pub no_revision : String → ℕ → ℕ → AmosError
no_revision entity_type entity_id version =
    not_found (literal "Revision")
      (lit entity_type ∷ lit "/" ∷ number entity_id ∷ lit "/v" ∷ number version ∷ [])

unfoldable pub get_revision : String → ℕ → ℕ → Action Tables RevisionRow
get_revision entity_type entity_id version = do
  row ← select (λ t. find (has_version version) (rows_of entity_type entity_id t.entity_revisions))
  or_raise row (no_revision entity_type entity_id version)

unfoldable pub get_latest_revision : String → ℕ → Action Tables (Option RevisionRow)
get_latest_revision entity_type entity_id =
    select (λ t. head? (sort_by newest_first (rows_of entity_type entity_id t.entity_revisions)))

abbrev pub reverting : RevertRequest → RevisionRow → CreateRevisionRequest
reverting req target = record {
  entity_type = req.entity_type;
  entity_id = req.entity_id;
  snapshot = target.snapshot;
  change_type = "revert";
  changed_by = req.changed_by;
  change_summary = some (lit "Reverted to version " ∷ number req.target_version ∷ []);
  template_id = target.template_id;
  template_version = target.template_version;
}

unfoldable pub revert_to_version : Digest → RevertRequest → Action Tables RevisionRow
revert_to_version digest req = do
  target ← get_revision req.entity_type req.entity_id req.target_version
  create_revision digest (reverting req target)
