-- ===== src/Revisions/Log.antt =====
-- The revision service of amos-harness/src/revisions.rs as a log of snapshots per entity.
use amos_platform.Prelude.{
  ℕ, zero, suc, String, str_eq, ◌&&◌, ◌==◌, if◌then◌else◌, Option, none, some, List, [], ◌∷◌, ◌++◌,
  take, drop, reverse, get_elem?,
}
use amos_platform.Prelude.Values.{Json}
use amos_platform.Error.{AmosError, Result, ok, err}
use amos_platform.Revisions.Types.{RevertRequest}
use amos_platform.Revisions.Service.{no_revision}
use amos_platform.Revisions.Requests.{Request, create, revert, read, latest, list}

-- The snapshots of each entity, the oldest first.
abbrev pub Logs : Type 0
Logs = String → ℕ → List Json

-- Versions count from 1.
abbrev pub at_version : ℕ → List Json → Option Json
at_version zero log = none
at_version (suc k) log = get_elem? log k

abbrev pub amend : String → ℕ → Json → Logs → Logs
amend entity_type entity_id snapshot logs t i =
    logs t i ++ (if str_eq entity_type t && entity_id == i then snapshot ∷ [] else [])

abbrev pub one_or : AmosError → Option Json → Result (List Json)
one_or e none = err e
one_or e (some v) = ok (v ∷ [])

abbrev pub amended : RevertRequest → Option Json → Logs → Logs
amended req none logs = logs
amended req (some v) logs = amend req.entity_type req.entity_id v logs

-- What a request answers on the logs, and the logs after it.
abbrev pub reply : Request → Logs → Result (List Json) × Logs
reply (create req) logs =
    (ok (req.snapshot ∷ []), amend req.entity_type req.entity_id req.snapshot logs)
reply (revert req) logs =
    let target = at_version req.target_version (logs req.entity_type req.entity_id) in
    (
      one_or (no_revision req.entity_type req.entity_id req.target_version) target,
      amended req target logs,
    )
reply (read entity_type entity_id version) logs = (
  one_or (no_revision entity_type entity_id version)
      (at_version version (logs entity_type entity_id)),
  logs,
)
reply (latest entity_type entity_id) logs =
    (ok (take 1 (reverse (logs entity_type entity_id))), logs)
reply (list entity_type entity_id limit offset) logs =
    (ok (take limit (drop offset (reverse (logs entity_type entity_id)))), logs)

-- Requests in turn on the logs, whatever time passes between them.
unfoldable pub replay : List (ℕ × Request) → Logs → List (Result (List Json)) × Logs
replay [] logs = ([], logs)
replay ((elapsed, q) ∷ requests) logs =
    let (r, logs') = reply q logs in let (rs, last) = replay requests logs' in (r ∷ rs, last)
