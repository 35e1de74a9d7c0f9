-- ===== src/Revisions/Tests.antt =====
-- A few revisions of amos-harness/src/revisions.rs, and the theorems at them.
use amos_platform.Prelude.{ℕ, ◌≡◌, refl, Bool, true, false, none, some, List, [], ◌∷◌, pos, Same}
use amos_platform.Prelude.Values.{Json, Fields, null, num, str, object, empty, field, int}
use amos_platform.Error.{ok, err}
use amos_platform.Database.{Session}
use amos_platform.Revisions.Types.{
  CreateRevisionRequest, RevertRequest, TemplateRegistryRow, TemplateVersionRow,
  TemplateSubscriptionRow, Tables, TemplateCheckResult,
}
use amos_platform.Revisions.Diff.{Digest, compute_diff}
use amos_platform.Revisions.Restore.{after, before, compute_diff_restores}
use amos_platform.Revisions.Service.{no_revision}
use amos_platform.Revisions.Templates.{check_for_updates}
use amos_platform.Revisions.History.{HasHistory}
use amos_platform.Revisions.Requests.{Request, create, revert, read, list, serve, serve-HasHistory}
use amos_platform.Revisions.Log.{replay}
use amos_platform.Revisions.Refinement.{view, run, run-replay}
use amos_platform.Revisions.Updates.{IsChecked, check_for_updates-breaking}

abbrev digest : Digest
digest = record { print = λ v. "{}"; sha256_hex = λ text. "44136fa3" }

abbrev one : Json
one = num (int (pos 1))

abbrev first : Fields
first = field "name" (str "Stripe") (field "retries" one empty)

abbrev second : Fields
second = field "name" (str "Stripe 2") (field "region" (str "eu") empty)

compute_diff_restores_example :
    Same
      (after (compute_diff (object first) (object second)) "name" (some (str "Stripe")))
      (some (str "Stripe 2"))
    × Same
        (some (str "Stripe"))
        (before (compute_diff (object first) (object second)) "name" (some (str "Stripe 2")))
compute_diff_restores_example = compute_diff_restores first second (refl, (refl, tt)) "name"

diff_of_two :
    compute_diff (object first) (object second)
    ≡ some (
        object (
          field "added" (object (field "region" (str "eu") empty)) (
            field "changed"
              (object (
                field "name"
                  (object (field "new" (str "Stripe 2") (field "old" (str "Stripe") empty)))
                  empty))
              (field "removed" (object (field "retries" one empty)) empty))))
unfolding compute_diff
diff_of_two = refl

abbrev save : Fields → CreateRevisionRequest
save entries = record {
  entity_type = "integration";
  entity_id = 7;
  snapshot = object entries;
  change_type = "manual";
  changed_by = "ada";
  change_summary = none;
  template_id = none;
  template_version = none;
}

abbrev undo : RevertRequest
undo = record { entity_type = "integration"; entity_id = 7; target_version = 1; changed_by = "ada" }

abbrev template : TemplateRegistryRow
template = record {
  id = 40;
  entity_type = "integration";
  slug = "stripe";
  name = "Stripe";
  description = none;
  current_version = 3;
  content_hash = "44136fa3";
  snapshot = object second;
  category = none;
  icon_url = none;
  tags = none;
  metadata = none;
  is_published = true;
  published_at = none;
  deprecated_at = none;
  created_at = 1;
  updated_at = 1;
}

abbrev subscription : TemplateSubscriptionRow
subscription = record {
  id = 50;
  entity_type = "integration";
  entity_id = 7;
  template_id = 40;
  installed_version = 1;
  latest_version = none;
  customization_status = "stock";
  local_content_hash = none;
  template_content_hash = none;
  auto_update = false;
  pin_version = false;
  last_checked_at = none;
  last_synced_at = none;
  created_at = 1;
  updated_at = 1;
}

abbrev version_row : ℕ → Bool → TemplateVersionRow
version_row version is_breaking = record {
  id = version;
  template_id = 40;
  version = version;
  content_hash = "44136fa3";
  snapshot = null;
  diff_from_prev = none;
  release_notes = none;
  is_breaking = is_breaking;
  created_at = 1;
}

abbrev start : Session Tables
start = record {
  tables = record {
    entity_revisions = [];
    template_registry = template ∷ [];
    template_versions = version_row 1 true ∷ version_row 2 true ∷ version_row 3 false ∷ [];
    template_subscriptions = subscription ∷ [];
  };
  now = 10;
  uuids = λ n. n;
  drawn = 0;
  faults = [];
}

abbrev requests : List (ℕ × Request)
requests =
    (1, create (save first))
    ∷ (1, create (save second))
    ∷ (1, revert undo)
    ∷ (1, read "integration" 7 4)
    ∷ (1, list "integration" 7 2 0)
    ∷ []

abbrev no_history : HasHistory digest []
no_history = λ entity_type entity_id. tt

serve-HasHistory_example : HasHistory digest (serve digest requests start).tables.entity_revisions
serve-HasHistory_example = serve-HasHistory digest requests start no_history

run-replay_example : run digest requests start ≡ replay requests (view start)
run-replay_example = run-replay digest requests start refl no_history

-- The revert answers the first snapshot, and the listing has it first.
replayed :
    (replay requests (view start)).0
    ≡ ok (object first ∷ [])
      ∷ ok (object second ∷ [])
      ∷ ok (object first ∷ [])
      ∷ err (no_revision "integration" 7 4)
      ∷ ok (object first ∷ object second ∷ [])
      ∷ []
unfolding replay
replayed = refl

check_for_updates-breaking_example :
    (r : TemplateCheckResult) × ((check_for_updates "integration" 7 start).0 ≡ ok (some r))
    × IsChecked subscription template start.tables.template_versions r
check_for_updates-breaking_example =
    check_for_updates-breaking "integration" 7 start subscription template refl refl refl
