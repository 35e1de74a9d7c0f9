-- ===== src/Hooks/Runs.antt =====
-- What the hooks of amos-core/src/hooks.rs answer together.
use amos_platform.Prelude.{
  ℕ, ◌+◌, ◌≡◌, refl, ap, sym, ◌∙◌, Bool, true, false, Bool-cases, inl, inr, String, Option, none,
  some, List, [], ◌∷◌, ◌++◌, filter, unwrap_or, Message, lit,
}
use mathlib.Core.List.{append-nil, append_assoc}
use amos_platform.Prelude.Values.{Json}
use amos_platform.Hooks.{
  HookEvent, HookDef, HookConfig, HookRunResult, HookPayload, Shell, Executed, failed, done,
  execute_hook_command, is_matched, hooks_of, run_each, payload_of, run_hooks,
}

-- What becomes of hooks that are run one after the other, all of them.
abbrev pub outcomes : Shell → HookPayload → ℕ → List HookDef → List Executed
outcomes shell payload n [] = []
outcomes shell payload n (hook ∷ hooks) =
    execute_hook_command shell n hook.command payload hook.timeout_ms
    ∷ outcomes shell payload (n + 1) hooks

-- The first of them that denies.
abbrev pub first_denial : List Executed → Option HookRunResult
first_denial [] = none
first_denial (failed e ∷ os) = first_denial os
first_denial (done output ∷ os) = elim output.denied [
  | true ↦ some output
  | false ↦ first_denial os
]

-- All that they say.
abbrev pub said : List Executed → List Message
said [] = []
said (failed e ∷ os) = (lit "Hook error: " ∷ e) ∷ said os
said (done output ∷ os) = output.messages ++ said os

-- The first denial, or an approval with the messages so far and all that the hooks say.
abbrev pub answered : List Message → List Executed → HookRunResult
answered messages os =
    unwrap_or (first_denial os) (record { denied = false; messages = messages ++ said os })

-- One turn of the loop on the outcome of a command.
abbrev after : Executed → List Message → (List Message → HookRunResult) → HookRunResult
after o messages next = elim o [
  | failed e ↦ next (messages ++ ((lit "Hook error: " ∷ e) ∷ []))
  | done output ↦ elim output.denied [ true ↦ output | false ↦ next (messages ++ output.messages) ]
]

after_lem :
    (o : Executed) (os : List Executed) (messages : List Message)
    (next : List Message → HookRunResult)
    → ((ms : List Message) → next ms ≡ answered ms os)
    → after o messages next ≡ answered messages (o ∷ os)
after_lem (failed e) os messages next h =
    h (messages ++ ((lit "Hook error: " ∷ e) ∷ []))
    ∙ ap (λ ms. unwrap_or (first_denial os) (record { denied = false; messages = ms }))
        (append_assoc messages ((lit "Hook error: " ∷ e) ∷ []) (said os))
after_lem (done output) os messages next h = elim (Bool-cases output.denied) [
  | inl denied ↦ rw denied refl
  | inr allowed ↦ rw allowed (
      h (messages ++ output.messages)
      ∙ ap (λ ms. unwrap_or (first_denial os) (record { denied = false; messages = ms }))
          (append_assoc messages output.messages (said os)))
]

module _ (shell : Shell) (payload : HookPayload) (tool_name : String) where
  run_each_lem :
      (n : ℕ) (hooks : List HookDef) (messages : List Message)
      → run_each shell payload tool_name n hooks messages
        ≡ answered messages (outcomes shell payload n (filter (is_matched tool_name) hooks))
  run_each_lem n [] messages =
      ap (λ ms. record { denied = false; messages = ms }) (sym (append-nil messages))
  run_each_lem n (hook ∷ hooks) messages = elim (Bool-cases (is_matched tool_name hook)) [
    | inl e ↦
        rw (e, run_each)
          (after_lem (execute_hook_command shell n hook.command payload hook.timeout_ms)
            (outcomes shell payload (n + 1) (filter (is_matched tool_name) hooks)) messages
            (run_each shell payload tool_name (n + 1) hooks) (run_each_lem (n + 1) hooks))
    | inr e ↦ rw (e, run_each) (run_each_lem n hooks messages)
  ]

-- The hooks of an event, taken together: of those that match the tool, in their order, the first whose
-- command denies decides, with its own messages alone; where none denies, the tool is allowed, and the
-- messages are those of all of them, an error of a command among them.
pub run_hooks_lem :
    (shell : Shell) (config : HookConfig) (event : HookEvent) (tool_name : String)
    (tool_input : Json) (tool_output : Option String) (tool_is_error : Option Bool)
    → run_hooks shell config event tool_name tool_input tool_output tool_is_error
      ≡ answered [] (
          outcomes shell
            (payload_of event tool_name tool_input tool_output tool_is_error)
            0
            (filter (is_matched tool_name) (hooks_of config event)))
unfolding run_hooks
run_hooks_lem shell config event tool_name tool_input tool_output tool_is_error =
    run_each_lem shell (payload_of event tool_name tool_input tool_output tool_is_error) tool_name 0
      (hooks_of config event) []
