-- ===== src/Revisions/History.antt =====
-- What holds of the revisions of every entity after any requests to amos-harness/src/revisions.rs.
use amos_platform.Prelude.{
  ℕ, zero, suc, ◌+◌, ◌-◌, ltb, lt→ltb, ◌≡◌, inl, inr, refl, ap, ◌∙◌, subst, arith, String, str_eq,
  eq_iff, and_left, and_right, Option, none, some, List, [], ◌∷◌, ◌++◌, length, filter-append, find,
  get_elem?, unwrap_or, if◌then◌else◌, Bool-cases, ==_iff,
}
use amos_platform.Prelude.Values.{Json}
use mathlib.Core.List.{append-nil}
use amos_platform.Revisions.Types.{RevisionRow, CreateRevisionRequest}
use amos_platform.Revisions.Diff.{Digest, compute_content_hash}
use amos_platform.Revisions.Service.{
  is_of, rows_of, has_version, max_version, snapshot_of, diff_since, new_revision,
}

abbrev pub last_snapshot : Option Json → List RevisionRow → Option Json
last_snapshot prev [] = prev
last_snapshot prev (r ∷ rows) = last_snapshot (some r.snapshot) rows

-- A row that follows `n` others, of which the last has the snapshot `prev`.
abbrev pub Follows : Digest → ℕ → Option Json → RevisionRow → Type 0
Follows digest n prev r =
    (r.version ≡ suc n)
    × (r.content_hash ≡ compute_content_hash digest r.snapshot)
    × (r.diff_from_prev ≡ diff_since prev r.snapshot)

abbrev pub IsChain : Digest → ℕ → Option Json → List RevisionRow → Type 0
IsChain digest n prev [] = Unit
IsChain digest n prev (r ∷ rows) =
    Follows digest n prev r × IsChain digest (suc n) (some r.snapshot) rows

-- The row may follow these.
abbrev pub IsNext : Digest → List RevisionRow → RevisionRow → Type 0
IsNext digest rows r = Follows digest (0 + length rows) (last_snapshot none rows) r

-- The revisions of every entity are numbered from 1 in the order of their insertion, each with the
-- hash of its snapshot and the diff to the one before.
abbrev pub HasHistory : Digest → List RevisionRow → Type 0
HasHistory digest table =
    (entity_type : String) (entity_id : ℕ)
    → IsChain digest 0 none (rows_of entity_type entity_id table)

module _ (digest : Digest) where
  pub IsChain-max_version :
      (n : ℕ) (prev : Option Json) (rows : List RevisionRow)
      → IsChain digest n prev rows
      → unwrap_or (max_version rows) n ≡ n + length rows
  IsChain-max_version n prev [] h = omega arith
  IsChain-max_version n prev (r ∷ rows) h =
      let rest = IsChain-max_version (suc n) (some r.snapshot) rows h.1 in
      let first = h.0.0 in ground arith

  -- The row of a version is the one at its place.
  pub IsChain-find :
      (n k : ℕ) (prev : Option Json) (rows : List RevisionRow)
      → IsChain digest n prev rows
      → find (has_version (n + suc k)) rows ≡ get_elem? rows k
  IsChain-find n k prev [] h = refl
  IsChain-find n zero prev (r ∷ rows) h = ground (arith, h.0.0)
  IsChain-find n (suc k) prev (r ∷ rows) h =
      ground (arith, h.0.0, IsChain-find (suc n) k (some r.snapshot) rows h.1)

  IsChain-append :
      (n : ℕ) (prev : Option Json) (rows : List RevisionRow) (r : RevisionRow)
      → IsChain digest n prev rows
      → Follows digest (n + length rows) (last_snapshot prev rows) r
      → IsChain digest n prev (rows ++ (r ∷ []))
  IsChain-append n prev [] r h k = (subst (λ m. Follows digest m prev r) (omega arith) k, tt)
  IsChain-append n prev (x ∷ rows) r h k = (
    h.0,
    IsChain-append (suc n) (some x.snapshot) rows r h.1
        (subst (λ m. Follows digest m (last_snapshot prev (x ∷ rows)) r) (omega arith) k),
  )

snapshot_at-last :
    (prev : Option Json) (r : RevisionRow) (rows : List RevisionRow)
    → snapshot_of (get_elem? (r ∷ rows) (length rows)) ≡ last_snapshot prev (r ∷ rows)
snapshot_at-last prev r [] = refl
snapshot_at-last prev r (x ∷ rows) = snapshot_at-last (some r.snapshot) x rows

-- What `create_revision` reads as the previous snapshot, and the row that it inserts.
abbrev pub read_before : ℕ → List RevisionRow → Option Json
read_before next_version rows =
    if ltb 1 next_version then snapshot_of (find (has_version (next_version - 1)) rows) else none

abbrev pub read_previous : List RevisionRow → Option Json
read_previous rows = read_before (unwrap_or (max_version rows) 0 + 1) rows

abbrev pub inserted : Digest → CreateRevisionRequest → ℕ → ℕ → List RevisionRow → RevisionRow
inserted digest req id now rows =
    new_revision digest req (unwrap_or (max_version rows) 0 + 1) (read_previous rows) id now

module _ (digest : Digest) where
  previous_last :
      (rows : List RevisionRow)
      → IsChain digest 0 none rows
      → read_previous rows ≡ last_snapshot none rows
  previous_last [] h = refl
  previous_last (r ∷ rows) h =
      let next : unwrap_or (max_version (r ∷ rows)) 0 + 1 ≡ length rows + 2 =
        omega (arith, IsChain-max_version digest 0 none (r ∷ rows) h) in
      let place : length rows + 2 - 1 ≡ 0 + suc (length rows) = omega arith in
      ap (λ m. read_before m (r ∷ rows)) next
      ∙ rw (lt→ltb 1 (length rows + 2) (omega arith)) (
          ap (λ m. snapshot_of (find (has_version m) (r ∷ rows))) place
          ∙ ap snapshot_of (IsChain-find digest 0 (length rows) none (r ∷ rows) h)
          ∙ snapshot_at-last none r rows)

  -- The inserted row follows the revisions of its entity.
  pub inserted-Follows :
      (req : CreateRevisionRequest) (id now : ℕ) (rows : List RevisionRow)
      → IsChain digest 0 none rows
      → IsNext digest rows (inserted digest req id now rows)
  inserted-Follows req id now rows h = (
    omega (arith, IsChain-max_version digest 0 none rows h),
    refl,
    ap (λ prev. diff_since prev req.snapshot) (previous_last rows h),
  )

  -- A row that follows the revisions of its entity keeps the history of every entity.
  pub append-HasHistory :
      (table : List RevisionRow) (r : RevisionRow)
      → HasHistory digest table
      → IsNext digest (rows_of r.entity_type r.entity_id table) r
      → HasHistory digest (table ++ (r ∷ []))
  append-HasHistory table r h k entity_type entity_id =
      rw (filter-append (is_of entity_type entity_id) table (r ∷ []))
        (elim (Bool-cases (is_of entity_type entity_id r)) [
          | inl e ↦
              let of_type : r.entity_type ≡ entity_type =
                (eq_iff r.entity_type entity_type).0
                  (and_left (str_eq r.entity_type entity_type) _ e) in
              let of_id : r.entity_id ≡ entity_id =
                (==_iff r.entity_id entity_id).0
                  (and_right (str_eq r.entity_type entity_type) _ e) in
              rw e (
                IsChain-append digest 0 none (rows_of entity_type entity_id table) r
                  (h entity_type entity_id)
                  (subst (λ i. IsNext digest (rows_of entity_type i table) r) of_id
                    (subst (λ t. IsNext digest (rows_of t r.entity_id table) r) of_type k)))
          | inr e ↦
              rw (e, append-nil (rows_of entity_type entity_id table)) (h entity_type entity_id)
        ])
