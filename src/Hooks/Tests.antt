-- ===== src/Hooks/Tests.antt =====
-- Runs of hooks: an audit that speaks, a guard of the tools whose names end in _file, and one that is
-- for other tools.
use amos_platform.Prelude.{
  ◌≡◌, refl, pos, true, false, String, str_eq, join, Option, none, some, [], ◌∷◌, filter, literal,
  if◌then◌else◌,
}
use mathlib.Core.Logic.{◌↔◌}
use amos_platform.Prelude.Values.{object, empty}
use amos_platform.Hooks.{
  HookEvent, HookDef, HookConfig, Shell, timed_out, exited, is_matched, matches_tool, hooks_of,
  payload_of, run_hooks,
}
use amos_platform.Hooks.Runs.{outcomes, answered, run_hooks_lem}
use amos_platform.Hooks.Globs.{IsBegun, IsEnded, matches_tool_lem}

abbrev hook : String → Option String → HookDef
hook command matcher = record { command = command; matcher = matcher; timeout_ms = 10000 }

abbrev config : HookConfig
config = record {
  pre_tool_use =
      hook "audit" none ∷ hook "never" (some "harness_*") ∷ hook "guard" (some "*_file") ∷ [];
  post_tool_use = hook "slow" none ∷ [];
}

abbrev shell : Shell
shell n command payload timeout_ms =
    if str_eq command "audit"
    then exited (some (pos 0)) " seen\n" ""
    else if str_eq command "guard"
    then exited (some (pos 2)) "" "no files"
    else timed_out

guard_denies :
    run_hooks shell config HookEvent.pre_tool_use "read_file" (object empty) none none
    ≡ record { denied = true; messages = literal "no files" ∷ [] }
unfolding run_hooks is_matched matches_tool
guard_denies = refl

thought_is_allowed :
    run_hooks shell config HookEvent.pre_tool_use "think" (object empty) none none
    ≡ record { denied = false; messages = literal "seen" ∷ [] }
unfolding run_hooks is_matched matches_tool
thought_is_allowed = refl

-- A star in the middle is no wildcard.
middle_star : matches_tool "read_*_file" "read_a_file" ≡ false
unfolding matches_tool
middle_star = refl

run_hooks_lem_example :
    run_hooks shell config HookEvent.pre_tool_use "read_file" (object empty) none none
    ≡ answered [] (
        outcomes shell
          (payload_of HookEvent.pre_tool_use "read_file" (object empty) none none)
          0
          (filter (is_matched "read_file") (hooks_of config HookEvent.pre_tool_use)))
run_hooks_lem_example =
    run_hooks_lem shell config HookEvent.pre_tool_use "read_file" (object empty) none none

abbrev file_end : String
file_end = "_file"

abbrev read_file : String
read_file = "read_file"

matches_tool_lem_example :
    ((matches_tool file_end read_file ≡ true) ↔ (file_end ≡ read_file))
    × ((matches_tool (join file_end "*") read_file ≡ true) ↔ IsBegun read_file file_end)
    × ((matches_tool (join "*" file_end) read_file ≡ true) ↔ IsEnded read_file file_end)
matches_tool_lem_example = matches_tool_lem file_end read_file refl
