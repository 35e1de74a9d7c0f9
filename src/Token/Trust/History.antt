-- ===== src/Token/Trust/History.antt =====
-- What holds of an agent of amos-core/src/token/trust.rs after any outcomes and upgrade requests.
use amos_platform.Prelude.{
  ℕ, ◌+◌, ◌-◌, ◌*◌, ◌≤◌, ◌≡◌, Bool, true, false, ◌/◌, Option, some, Option-cases, inl, inr, u64_max,
  List, [], ◌∷◌, leb, if◌then◌else◌, arith, u64_max, share-le_amount,
}
use mathlib.Core.Path.{subst}
use mathlib.Core.Option.{some-injective, none-ne-some}
use native.Mathlib.Nat.{add_assoc}
use amos_platform.Token.Trust.{AgentTrust, new, record_completion, try_upgrade, ◌>>=?◌}
use amos_platform.Token.Trust.Levels.{needed_completions, try_upgrade_exact}

pub data Event : Type 0 where
  outcome : Bool → ℕ → Event
  upgrade : Event

-- A step of the agent's record; `none` is a panic.
unfoldable pub step : Event → AgentTrust → Option AgentTrust
step (outcome approved tokens) a = record_completion a approved tokens
step upgrade a = some (try_upgrade a).0

unfoldable pub run : List Event → AgentTrust → Option AgentTrust
run [] a = some a
run (e ∷ events) a = step e a >>=? run events

-- The completions that an agent of a level has shown.
abbrev pub earned_completions : ℕ → ℕ
earned_completions level = if leb level 1 then 0 else needed_completions (level - 1)

pub record IsSound (a : AgentTrust) : Type 0 where
  pub least : 1 ≤ a.trust_level
  pub most : a.trust_level ≤ 5
  pub reputation : a.reputation_bps ≤ 10000
  pub earned : earned_completions a.trust_level ≤ a.total_completions

new-IsSound : (id : ℕ) → IsSound (new id)
unfolding new
new-IsSound id = ground arith

try_upgrade-IsSound : (a : AgentTrust) → IsSound a → IsSound (try_upgrade a).0
try_upgrade-IsSound a h = ground (arith, try_upgrade_exact a)

record_completion-IsSound :
    (a b : AgentTrust) (approved : Bool) (tokens : ℕ)
    → record_completion a approved tokens ≡ some b
    → IsSound a
    → IsSound b
unfolding record_completion
record_completion-IsSound a b true tokens e h = ground (
  arith,
  share-le_amount (a.total_completions + 1) (a.total_completions + 1 + a.total_rejections) 10000,
)
record_completion-IsSound a b false tokens e h = ground (
  arith,
  share-le_amount a.total_completions (a.total_completions + (a.total_rejections + 1)) 10000,
)

step-IsSound : (e : Event) (a b : AgentTrust) → step e a ≡ some b → IsSound a → IsSound b
unfolding step
step-IsSound (outcome approved tokens) a b h s = record_completion-IsSound a b approved tokens h s
step-IsSound upgrade a b h s = subst IsSound (some-injective _ _ h) (try_upgrade-IsSound a s)

run_from-IsSound :
    (events : List Event) (a b : AgentTrust) → run events a ≡ some b → IsSound a → IsSound b
unfolding run
run_from-IsSound [] a b h s = subst IsSound (some-injective _ _ h) s
run_from-IsSound (e ∷ events) a b h s = elim (Option-cases (step e a)) [
  | inl none_left ↦ absurd (none-ne-some b (rw none_left at h))
  | inr (c, stepped) ↦ run_from-IsSound events c b (rw stepped at h) (step-IsSound e a c stepped s)
]

-- Whatever outcomes are recorded and upgrades asked for, a new agent's level stays from 1 to 5, its
-- reputation at most 100%, and it has the completions that its level asks for: 3, 10, 25 and 50
-- from the second level up.
pub run-IsSound :
    (events : List Event) (id : ℕ) (b : AgentTrust) → run events (new id) ≡ some b → IsSound b
run-IsSound events id b h = run_from-IsSound events (new id) b h (new-IsSound id)

regroup_left : (c r : ℕ) → c + 1 + r ≡ c + r + 1
regroup_left c r = omega arith

-- What never goes back.
pub record Grows (a b : AgentTrust) : Type 0 where
  pub level : a.trust_level ≤ b.trust_level
  pub completions : a.total_completions ≤ b.total_completions
  pub rejections : a.total_rejections ≤ b.total_rejections
  pub tokens : a.total_tokens_earned ≤ b.total_tokens_earned
  pub same_agent : b.agent_id ≡ a.agent_id

step-Grows : (e : Event) (a b : AgentTrust) → step e a ≡ some b → Grows a b
unfolding step record_completion
step-Grows (outcome true tokens) a b h = ground arith
step-Grows (outcome false tokens) a b h = ground arith
step-Grows upgrade a b h = ground (arith, try_upgrade_exact a)

-- Levels, counters and earned tokens never fall, and the record stays that of one agent.
pub run-Grows : (events : List Event) (a b : AgentTrust) → run events a ≡ some b → Grows a b
unfolding run
run-Grows [] a b h = ground arith
run-Grows (e ∷ events) a b h = elim (Option-cases (step e a)) [
  | inl none_left ↦ absurd (none-ne-some b (rw none_left at h))
  | inr (c, stepped) ↦
      ground (arith, step-Grows e a c stepped, run-Grows events c b (rw stepped at h))
]

-- A recorded outcome counts once, as a completion with its tokens or as a rejection, and the
-- reputation becomes the share of completions in basis points, rounded down; it does not panic
-- while the counts and the tokens fit.
pub record_completion_exact :
    (a : AgentTrust) (approved : Bool) (tokens : ℕ)
    → a.total_completions + a.total_rejections ≤ 1844674407370954
    → a.total_tokens_earned + tokens ≤ u64_max
    → let done : ℕ = if approved then a.total_completions + 1 else a.total_completions in
      record_completion a approved tokens
      ≡ some (record a {
        total_completions = done;
        total_rejections = if approved then a.total_rejections else a.total_rejections + 1;
        reputation_bps = done * 10000 / (a.total_completions + a.total_rejections + 1);
        total_tokens_earned =
            if approved then a.total_tokens_earned + tokens else a.total_tokens_earned;
      })
unfolding record_completion
record_completion_exact a true tokens h k =
    ground (arith, regroup_left a.total_completions a.total_rejections)
record_completion_exact a false tokens h k =
    ground (arith, add_assoc a.total_completions a.total_rejections 1)
