-- ===== src/Permissions/Tests.antt =====
-- Runs of amos-core/src/permissions.rs.
use amos_platform.Prelude.{◌≡◌, refl, true, false, [], ◌∷◌, leb, arith}
use amos_platform.Permissions.{
  PermissionLevel, PermissionPolicy, rank, override_of, or_required, allows, allows_tool,
  default_tool_permission, from_config_str,
}
use amos_platform.Permissions.Policy.{allows_tool-rank}

-- A session that may only write code as an administrator.
abbrev guarded : PermissionPolicy
guarded = record {
  active_mode = PermissionLevel.workspace_write;
  tool_overrides = ("write_file", PermissionLevel.full_access) ∷ [];
}

allows_tool-rank_example :
    (allows_tool guarded "write_file" PermissionLevel.workspace_write
      ≡ leb
          (rank (
            or_required
              (override_of "write_file" guarded.tool_overrides)
              PermissionLevel.workspace_write))
          (rank guarded.active_mode))
    × (allows_tool guarded "write_file" PermissionLevel.workspace_write ≡ true
        → allows_tool
            (record guarded { active_mode = PermissionLevel.full_access })
            "write_file"
            PermissionLevel.workspace_write
          ≡ true)
unfolding rank
allows_tool-rank_example =
    allows_tool-rank guarded "write_file" PermissionLevel.workspace_write
      PermissionLevel.full_access (omega arith)

not_allowed : allows_tool guarded "write_file" PermissionLevel.workspace_write ≡ false
unfolding allows_tool allows rank override_of
not_allowed = refl

code_is_guarded : default_tool_permission "harness_execute_code" ≡ PermissionLevel.full_access
unfolding default_tool_permission
code_is_guarded = refl

plan_reads : from_config_str "Read-Only" ≡ PermissionLevel.read_only
unfolding from_config_str
plan_reads = refl
