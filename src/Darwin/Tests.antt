-- ===== src/Darwin/Tests.antt =====
-- Runs of amos-packages/amos-autoresearch/src/darwinian/evaluator.rs, with whole numbers for scores.
use amos_platform.Prelude.{
  ◌≡◌, ◌⊎◌, true, false, refl, none, some, [], ◌∷◌, ℤ, pos, ◌-ℤ◌, ltb_ℤ, not,
}
use amos_platform.Prelude.Values.{null}
use amos_platform.Error.{ok, err}
use amos_platform.Database.{Session}
use amos_platform.Darwin.Types.{Score, Experiment, Tables}
use amos_platform.Darwin.Evaluator.{
  no_table, evaluate_all, evaluate_single, evaluate_mature_experiments,
}
use amos_platform.Darwin.Judgement.{IsJudged, IsUnjudged, evaluate_single-IsJudged}
use amos_platform.Darwin.Repeats.{IsEvaluated, evaluate_mature_experiments-once}

abbrev whole : Score ℤ
whole = record { zero_score = pos 0; minus = λ a b. a -ℤ b; is_gain = λ d. not (ltb_ℤ d (pos 0)) }

abbrev trial : Experiment ℤ
trial = record {
  id = 4;
  swarm_id = 1;
  agent_id = 9;
  experiment_type = "prompt";
  diff = null;
  original_prompt = some "be brief";
  mutated_prompt = some "be bold";
  status = "active";
  baseline_fitness = some (pos 50);
  final_fitness = none;
  fitness_delta = none;
  evaluation_days = pos 7;
  cooldown_days = pos 1;
  proposed_by = none;
  proposal_reasoning = none;
  started_at = some 1000;
  completed_at = none;
  created_at = 900;
  updated_at = 1000;
}

-- The agent has done worse than before.
abbrev swarm : Session (Tables ℤ)
swarm = record {
  tables = record {
    has_experiments = true;
    experiments = trial ∷ [];
    agents = record { id = 9; system_prompt = some "be bold" } ∷ [];
    members = record { swarm_id = 1; agent_id = 9; fitness_score = none } ∷ [];
    scorecards =
        record { agent_id = 9; swarm_id = 1; fitness_score = pos 40; created_at = 600000 } ∷ [];
  };
  now = 700000;
  uuids = λ n. n;
  drawn = 0;
  faults = [];
}

evaluate_single-IsJudged_example :
    ((swarm.tables.has_experiments ≡ true)
      × IsJudged whole trial swarm (evaluate_single whole trial swarm))
    ⊎ ((swarm.tables.has_experiments ≡ false)
        × IsUnjudged whole trial swarm (evaluate_single whole trial swarm))
evaluate_single-IsJudged_example = evaluate_single-IsJudged whole trial swarm refl

prompt_is_back :
    (evaluate_single whole trial swarm).1.tables.agents
    ≡ record { id = 9; system_prompt = some "be brief" } ∷ []
unfolding evaluate_single
prompt_is_back = refl

-- The ids of what is judged.
four_is_judged : (evaluate_mature_experiments whole 1 swarm).0 ≡ ok (4 ∷ [])
unfolding evaluate_mature_experiments evaluate_all evaluate_single
four_is_judged = refl

-- A database after the migrations.
abbrev migrated : Session (Tables ℤ)
migrated = record swarm {
  tables = record swarm.tables { has_experiments = false; experiments = [] };
}

migrated_fails :
    (evaluate_mature_experiments whole 1 migrated).0
    ≡ err (no_table "Failed to fetch mature experiments: ")
unfolding evaluate_mature_experiments
migrated_fails = refl

evaluate_mature_experiments-once_example :
    ((swarm.tables.has_experiments ≡ true)
      × IsEvaluated whole 1 swarm (evaluate_mature_experiments whole 1 swarm))
    ⊎ ((swarm.tables.has_experiments ≡ false)
        × (evaluate_mature_experiments whole 1 swarm
            ≡ (err (no_table "Failed to fetch mature experiments: "), swarm)))
evaluate_mature_experiments-once_example = evaluate_mature_experiments-once whole 1 swarm refl
