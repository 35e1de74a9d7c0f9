-- ===== src/Permissions/Policy.antt =====
-- The policy of amos-core/src/permissions.rs grants by the order of the levels.
use amos_platform.Prelude.{◌≤◌, ◌≡◌, arith, String, leb, Option-cases, inl, inr, true}
use amos_platform.Permissions.{
  PermissionLevel, PermissionPolicy, rank, allows, override_of, or_required, allows_tool,
}

-- A tool is allowed exactly where the mode is at least the level of the tool's override or, without
-- one, the level that the tool asks for; and what one mode allows, every higher mode allows.
pub allows_tool-rank :
    (policy : PermissionPolicy) (tool_name : String) (tool_required higher : PermissionLevel)
    → rank policy.active_mode ≤ rank higher
    → (allows_tool policy tool_name tool_required
        ≡ leb
            (rank (or_required (override_of tool_name policy.tool_overrides) tool_required))
            (rank policy.active_mode))
      × (allows_tool policy tool_name tool_required ≡ true
          → allows_tool (record policy { active_mode = higher }) tool_name tool_required ≡ true)
unfolding allows_tool allows
allows_tool-rank policy tool_name tool_required higher h =
    elim (Option-cases (override_of tool_name policy.tool_overrides)) [
      | inl own ↦ (ground arith, λ granted. ground arith)
      | inr (level, set) ↦ (ground arith, λ granted. ground arith)
    ]
