-- ===== src/Darwin/Types.antt =====
-- The rows that amos-packages/amos-autoresearch/src/darwinian/evaluator.rs reads and writes. The type
-- `F` stands for `f64`, of which the evaluator needs a difference and a sign.
use amos_platform.Prelude.{ℕ, ℤ, Bool, String, Option, List}
use amos_platform.Prelude.Values.{Json}

pub record Score (F : Type 0) : Type 0 where
  -- `0.0`, `a - b` and `d >= 0.0`
  pub zero_score : F
  pub minus : F → F → F
  pub is_gain : F → Bool

pub record Experiment (F : Type 0) : Type 0 where
  pub id : ℕ
  pub swarm_id : ℕ
  pub agent_id : ℕ
  pub experiment_type : String
  pub diff : Json
  pub original_prompt : Option String
  pub mutated_prompt : Option String
  pub status : String
  pub baseline_fitness : Option F
  pub final_fitness : Option F
  pub fitness_delta : Option F
  pub evaluation_days : ℤ
  pub cooldown_days : ℤ
  pub proposed_by : Option String
  pub proposal_reasoning : Option String
  pub started_at : Option ℕ
  pub completed_at : Option ℕ
  pub created_at : ℕ
  pub updated_at : ℕ

-- The columns of `openclaw_agents`, `agent_swarm_members` and `agent_scorecards` that it uses.
pub record Agent : Type 0 where
  pub id : ℕ
  pub system_prompt : Option String

pub record Member (F : Type 0) : Type 0 where
  pub swarm_id : ℕ
  pub agent_id : ℕ
  pub fitness_score : Option F

pub record Scorecard (F : Type 0) : Type 0 where
  pub agent_id : ℕ
  pub swarm_id : ℕ
  pub fitness_score : F
  pub created_at : ℕ

-- `has_experiments` says whether the database has the table `darwinian_experiments`, which no migration
-- of the repository creates; where it has not, the rows of it are none and are never read.
pub record Tables (F : Type 0) : Type 0 where
  pub has_experiments : Bool
  pub experiments : List (Experiment F)
  pub agents : List Agent
  pub members : List (Member F)
  pub scorecards : List (Scorecard F)
