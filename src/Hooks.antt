-- ===== src/Hooks.antt =====
-- Hooks around the calls of tools, by amos-core/src/hooks.rs.
use Prim.Native.String.{[] as end, ◌∷◌ as cons}
use Prim.Native.Char.{Char, code}
use amos_platform.Prelude.{
  ℕ, ◌+◌, ℤ, pos, negsuc, Bool, true, false, ◌||◌, ◌&&◌, leb, ◌==◌, if◌then◌else◌, String, str_eq,
  Option, none, some, List, [], ◌∷◌, ◌++◌, unwrap_or, Message, lit, number, literal,
}
use amos_platform.Prelude.Values.{Json}
use text.Mathlib.Text.{starts_with}
pub mod Globs
pub mod Runs
mod Tests

pub data HookEvent : Type 0 where
  pre_tool_use post_tool_use : HookEvent

-- `HookEvent::as_str`
abbrev pub event_str : HookEvent → String
event_str HookEvent.pre_tool_use = "PreToolUse"
event_str HookEvent.post_tool_use = "PostToolUse"

pub record HookDef : Type 0 where
  pub command : String
  pub matcher : Option String
  pub timeout_ms : ℕ

pub record HookConfig : Type 0 where
  pub pre_tool_use : List HookDef
  pub post_tool_use : List HookDef

pub record HookRunResult : Type 0 where
  pub denied : Bool
  pub messages : List Message

abbrev pub allowed : HookRunResult
allowed = record { denied = false; messages = [] }

pub record HookPayload : Type 0 where
  pub hook_event_name : String
  pub tool_name : String
  pub tool_input : Json
  pub tool_output : Option String
  pub tool_result_is_error : Option Bool

-- What becomes of a command that is started: its payload has no text, it cannot be spawned, it is not
-- done in time, waiting for it fails, or it exits with a code, where no signal ended it, and the texts
-- of its output.
pub data Ran : Type 0 where
  unprintable spawn_failed wait_failed : Message → Ran
  timed_out : Ran
  exited : Option ℤ → String → String → Ran

-- The shell: what becomes of a command that comes after so many others, of its payload and timeout.
abbrev pub Shell : Type 0
Shell = ℕ → String → HookPayload → ℕ → Ran

-- `execute_hook_command` answers a result or the text of an error.
pub data Executed : Type 0 where
  done : HookRunResult → Executed
  failed : Message → Executed

-- `char::is_whitespace`
abbrev is_space : ℕ → Bool
is_space c =
    (leb 9 c && leb c 13)
    || (c == 32)
    || (c == 133)
    || (c == 160)
    || (c == 5760)
    || (leb 8192 c && leb c 8202)
    || (c == 8232)
    || (c == 8233)
    || (c == 8239)
    || (c == 8287)
    || (c == 12288)

abbrev trim_start : String → String
trim_start end = end
trim_start (cons c s) = let rest = trim_start s in if is_space (code c) then rest else cons c s

abbrev before_spaces : Char → String → String
before_spaces c end = if is_space (code c) then end else cons c end
before_spaces c (cons d s) = cons c (cons d s)

abbrev trim_end : String → String
trim_end end = end
trim_end (cons c s) = before_spaces c (trim_end s)

-- The message of an output that is not blank.
abbrev message_of : String → List Message
message_of end = []
message_of (cons c s) = literal (cons c s) ∷ []

abbrev trimmed : String → List Message
trimmed s = message_of (trim_end (trim_start s))

-- Exit code 2 denies, and 0 and the others do not.
abbrev is_denial : ℤ → Bool
is_denial (pos n) = n == 2
is_denial (negsuc n) = false

abbrev pub executed : ℕ → Ran → Executed
executed timeout_ms (unprintable e) = failed e
executed timeout_ms (spawn_failed e) = failed (lit "Failed to spawn hook: " ∷ e)
executed timeout_ms (wait_failed e) = failed (lit "Hook execution failed: " ∷ e)
executed timeout_ms timed_out =
    failed (lit "Hook timed out after " ∷ number timeout_ms ∷ lit "ms" ∷ [])
executed timeout_ms (exited exit_code stdout stderr) = done (record {
  denied = is_denial (unwrap_or exit_code (pos 1));
  messages = trimmed stdout ++ trimmed stderr;
})

abbrev pub execute_hook_command : Shell → ℕ → String → HookPayload → ℕ → Executed
execute_hook_command shell n command payload timeout_ms =
    executed timeout_ms (shell n command payload timeout_ms)

-- `contains('*')`, `strip_suffix('*')` and `strip_prefix('*')`; the code of `*` is 42.
abbrev pub has_star : String → Bool
has_star end = false
has_star (cons c s) = (code c == 42) || has_star s

abbrev pub longer : Char → Option String → Option String
longer c none = none
longer c (some s) = some (cons c s)

abbrev pub without_last_star : String → Option String
without_last_star end = none
without_last_star (cons c end) = if code c == 42 then some end else none
without_last_star (cons c (cons d s)) = longer c (without_last_star (cons d s))

abbrev pub without_first_star : String → Option String
without_first_star end = none
without_first_star (cons c s) = if code c == 42 then some s else none

-- `ends_with`
abbrev pub ends_with : String → String → Bool
ends_with end suffix = str_eq end suffix
ends_with (cons c s) suffix = str_eq (cons c s) suffix || ends_with s suffix

abbrev pub matches_glob : Option String → Option String → String → String → Bool
matches_glob (some prefix) suffix pattern tool_name = starts_with tool_name prefix
matches_glob none (some suffix) pattern tool_name = ends_with tool_name suffix
matches_glob none none pattern tool_name = str_eq pattern tool_name

unfoldable pub matches_tool : String → String → Bool
matches_tool pattern tool_name =
    if str_eq pattern "*"
    then true
    else if has_star pattern
    then matches_glob (without_last_star pattern) (without_first_star pattern) pattern tool_name
    else str_eq pattern tool_name

abbrev pub is_matched : String → HookDef → Bool
unfolding matches_tool
is_matched tool_name hook = elim hook.matcher [
  | none ↦ true
  | some pattern ↦ matches_tool pattern tool_name
]

abbrev pub hooks_of : HookConfig → HookEvent → List HookDef
hooks_of config HookEvent.pre_tool_use = config.pre_tool_use
hooks_of config HookEvent.post_tool_use = config.post_tool_use

-- The loop, after so many commands, with the messages so far.
abbrev pub run_each : Shell → HookPayload → String → ℕ → List HookDef → List Message → HookRunResult
run_each shell payload tool_name n [] messages = record { denied = false; messages = messages }
run_each shell payload tool_name n (hook ∷ hooks) messages = elim (is_matched tool_name hook) [
  | false ↦ run_each shell payload tool_name n hooks messages
  | true ↦ elim (execute_hook_command shell n hook.command payload hook.timeout_ms) [
    | failed e ↦
        run_each shell payload tool_name (n + 1) hooks (messages ++ ((lit "Hook error: " ∷ e) ∷ []))
    | done output ↦ elim output.denied [
      | true ↦ output
      | false ↦ run_each shell payload tool_name (n + 1) hooks (messages ++ output.messages)
    ]
  ]
]

abbrev pub payload_of : HookEvent → String → Json → Option String → Option Bool → HookPayload
payload_of event tool_name tool_input tool_output tool_is_error = record {
  hook_event_name = event_str event;
  tool_name = tool_name;
  tool_input = tool_input;
  tool_output = tool_output;
  tool_result_is_error = tool_is_error;
}

unfoldable pub run_hooks :
    Shell → HookConfig → HookEvent → String → Json → Option String → Option Bool → HookRunResult
run_hooks shell config event tool_name tool_input tool_output tool_is_error =
    run_each shell (payload_of event tool_name tool_input tool_output tool_is_error) tool_name 0
      (hooks_of config event) allowed.messages
