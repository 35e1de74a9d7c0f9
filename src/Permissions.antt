-- ===== src/Permissions.antt =====
-- The permission policy of amos-core/src/permissions.rs. A map is a list of entries.
pub mod Policy
mod Tests
use Prim.Native.String.{[] as end, ◌∷◌ as cons, slice, len}
use Prim.Native.Char.{code}
use text.Mathlib.Text.{starts_with}
use amos_platform.Prelude.{
  ℕ, ◌+◌, Bool, true, false, ◌&&◌, ◌==◌, String, Option, none, some, List, [], ◌∷◌, ◌||◌, leb,
  if◌then◌else◌, str_eq,
}

pub data PermissionLevel : Type 0 where
  read_only workspace_write full_access : PermissionLevel

-- The discriminants, by which the levels are ordered.
unfoldable pub rank : PermissionLevel → ℕ
rank PermissionLevel.read_only = 0
rank PermissionLevel.workspace_write = 1
rank PermissionLevel.full_access = 2

unfoldable pub level_str : PermissionLevel → String
level_str PermissionLevel.read_only = "read_only"
level_str PermissionLevel.workspace_write = "workspace_write"
level_str PermissionLevel.full_access = "full_access"

unfoldable pub allows : PermissionLevel → PermissionLevel → Bool
unfolding rank
allows self required = leb (rank required) (rank self)

pub record PermissionPolicy : Type 0 where
  pub active_mode : PermissionLevel
  pub tool_overrides : List (String × PermissionLevel)

-- `HashMap::get`
unfoldable pub override_of : String → List (String × PermissionLevel) → Option PermissionLevel
override_of tool_name [] = none
override_of tool_name ((name, level) ∷ overrides) =
    if str_eq name tool_name then some level else override_of tool_name overrides

-- `PermissionPolicy::default`
pub default_policy : PermissionPolicy
default_policy = record { active_mode = PermissionLevel.workspace_write; tool_overrides = [] }

-- The level that is asked of a tool: its override, or else its own.
abbrev pub or_required : Option PermissionLevel → PermissionLevel → PermissionLevel
or_required none tool_required = tool_required
or_required (some override_level) tool_required = override_level

unfoldable pub allows_tool : PermissionPolicy → String → PermissionLevel → Bool
unfolding allows override_of
allows_tool policy tool_name tool_required = elim (override_of tool_name policy.tool_overrides) [
  | some override_level ↦ allows policy.active_mode override_level
  | none ↦ allows policy.active_mode tool_required
]

abbrev is_one_of : List String → String → Bool
is_one_of [] s = false
is_one_of (t ∷ texts) s = str_eq t s || is_one_of texts s

-- The tools of the first arm.
abbrev pub read_only_tools : List String
read_only_tools =
    "think" ∷ "recall" ∷ "plan" ∷ "web_search" ∷ "read_file" ∷ "get_workspace_summary"
    ∷ "query_records" ∷ "list_records" ∷ "list_collections" ∷ "search_memory" ∷ "knowledge_search"
    ∷ "view_web_page" ∷ "get_canvas" ∷ "list_canvases" ∷ "list_sites" ∷ "get_site" ∷ "get_page"
    ∷ "list_apps" ∷ "get_app" ∷ []

-- The tools of the second arm.
abbrev pub workspace_write_tools : List String
workspace_write_tools =
    "remember" ∷ "write_file" ∷ "define_collection" ∷ "create_record" ∷ "update_record"
    ∷ "delete_record" ∷ "create_canvas" ∷ "update_canvas" ∷ "create_site" ∷ "create_page"
    ∷ "update_page" ∷ "publish_site" ∷ "create_app" ∷ "update_app_view" ∷ "ingest_document"
    ∷ "remember_this" ∷ "create_automation" ∷ "update_automation" ∷ []

-- The tools of the third arm, which destroy or administer.
abbrev pub full_access_tools : List String
full_access_tools =
    "delete_collection" ∷ "execute_code" ∷ "register_agent" ∷ "assign_task" ∷ "delete_site"
    ∷ "delete_canvas" ∷ "delete_app" ∷ []

-- `tool_name.strip_prefix("harness_").unwrap_or(tool_name)`
abbrev base_name : String → String
base_name tool_name =
    if starts_with tool_name "harness_" then slice tool_name 8 (len tool_name) else tool_name

unfoldable pub default_tool_permission : String → PermissionLevel
default_tool_permission tool_name =
    let base : String = base_name tool_name in
    if is_one_of read_only_tools base
    then PermissionLevel.read_only
    else if is_one_of workspace_write_tools base
    then PermissionLevel.workspace_write
    else if is_one_of full_access_tools base
    then PermissionLevel.full_access
    else PermissionLevel.workspace_write

-- `s.to_lowercase() == word`. The words have no letter that is the small form of another character
-- than its capital, but for the k of a word that has the level of the last arm.
abbrev lower_code : ℕ → ℕ
lower_code c = if leb 65 c && leb c 90 then c + 32 else c

abbrev lower_is : String → String → Bool
lower_is end end = true
lower_is end (cons d word) = false
lower_is (cons c s) end = false
lower_is (cons c s) (cons d word) = (lower_code (code c) == code d) && lower_is s word

abbrev is_one_of_lower : List String → String → Bool
is_one_of_lower [] s = false
is_one_of_lower (t ∷ texts) s = lower_is s t || is_one_of_lower texts s

unfoldable pub from_config_str : String → PermissionLevel
from_config_str s =
    if is_one_of_lower ("read-only" ∷ "readonly" ∷ "read_only" ∷ "plan" ∷ []) s
    then PermissionLevel.read_only
    else if is_one_of_lower ("workspace-write" ∷ "workspace_write" ∷ "auto" ∷ "default" ∷ []) s
    then PermissionLevel.workspace_write
    else if is_one_of_lower ("full-access" ∷ "full_access" ∷ "danger" ∷ "danger-full-access" ∷ []) s
    then PermissionLevel.full_access
    else PermissionLevel.workspace_write
