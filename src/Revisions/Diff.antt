-- ===== src/Revisions/Diff.antt =====
-- `compute_content_hash` and `compute_diff` of amos-harness/src/revisions.rs.
use amos_platform.Prelude.{Bool, true, false, ◌&&◌, String, Option, none, some, if◌then◌else◌}
use amos_platform.Prelude.Values.{Json, Fields, object, empty, field, get_field, json_eq}

-- `serde_json::to_string`, and the hexadecimal SHA-256 of a text.
pub record Digest : Type 0 where
  pub print : Json → String
  pub sha256_hex : String → String

unfoldable pub compute_content_hash : Digest → Json → String
compute_content_hash digest snapshot = digest.sha256_hex (digest.print snapshot)

-- `{ "old": …, "new": … }`, in key order.
abbrev pub change_entry : Json → Json → Json
change_entry old_value new_value = object (field "new" new_value (field "old" old_value empty))

-- What one key of the old object puts into `changed`, before what the later keys put.
abbrev pub note_change : String → Json → Option Json → Fields → Fields
note_change key old_value none rest = rest
note_change key old_value (some new_value) rest =
    if json_eq old_value new_value then rest else field key (change_entry old_value new_value) rest

abbrev pub changed_fields : Fields → Fields → Fields
changed_fields empty new_map = empty
changed_fields (field key old_value fs) new_map =
    note_change key old_value (get_field key new_map) (changed_fields fs new_map)

-- An entry that stands where the other object has nothing at its key.
abbrev pub note_missing : String → Json → Option Json → Fields → Fields
note_missing key value none rest = field key value rest
note_missing key value (some _) rest = rest

-- The entries of the first object whose keys the second does not have: `removed` of the old and the
-- new one, `added` of the new and the old one.
abbrev pub missing_fields : Fields → Fields → Fields
missing_fields empty other = empty
missing_fields (field key value fs) other =
    note_missing key value (get_field key other) (missing_fields fs other)

abbrev pub no_fields : Fields → Bool
no_fields empty = true
no_fields (field _ _ _) = false

-- `{ "changed": …, "added": …, "removed": … }`, in key order.
abbrev pub diff_json : Fields → Fields → Fields → Json
diff_json changed added removed = object (
    field "added" (object added)
      (field "changed" (object changed) (field "removed" (object removed) empty)))

abbrev pub diff_or_none : Fields → Fields → Fields → Option Json
diff_or_none changed added removed =
    if no_fields changed && no_fields added && no_fields removed
    then none
    else some (diff_json changed added removed)

-- The `match` of the two values.
abbrev pub diff_values : Json → Json → Option Json
diff_values (object old_map) (object new_map) =
    diff_or_none (changed_fields old_map new_map) (missing_fields new_map old_map)
      (missing_fields old_map new_map)
diff_values old new = some (diff_json (field "_root" (change_entry old new) empty) empty empty)

unfoldable pub compute_diff : Json → Json → Option Json
compute_diff old new = if json_eq old new then none else diff_values old new
