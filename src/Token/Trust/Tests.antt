-- ===== src/Token/Trust/Tests.antt =====
-- Agents of amos-core/src/token/trust.rs with a short history, and the theorems at them.
use amos_platform.Prelude.{◌≡◌, refl, true, false, some, List, [], ◌∷◌}
use amos_platform.Token.Trust.{AgentTrust, new, record_completion, try_upgrade, can_upgrade}
use amos_platform.Token.Trust.History.{Event, outcome, upgrade, run, step, IsSound, run-IsSound}

abbrev history : List Event
history =
    outcome true 100
    ∷ outcome true 100
    ∷ upgrade
    ∷ outcome true 50
    ∷ upgrade
    ∷ upgrade
    ∷ outcome false 0
    ∷ []

-- The first upgrade comes too early and the third finds too few completions.
abbrev verified : AgentTrust
verified = record {
  agent_id = 42;
  trust_level = 2;
  total_completions = 3;
  total_rejections = 1;
  reputation_bps = 7500;
  total_tokens_earned = 250;
}

history_gives : run history (new 42) ≡ some verified
unfolding run step record_completion try_upgrade can_upgrade new
history_gives = refl

run-IsSound_example : IsSound verified
run-IsSound_example = run-IsSound history 42 verified history_gives
