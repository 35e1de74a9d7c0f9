-- ===== src/Darwin/Evaluator.antt =====
-- The operations of `Evaluator` in
-- amos-packages/amos-autoresearch/src/darwinian/evaluator.rs. The clock counts seconds.
use amos_platform.Prelude.{
  ℕ, ◌+◌, ◌*◌, Bool, true, false, not, ◌&&◌, ◌||◌, String, Option, none, some, List, [], ◌∷◌,
  filter, find, update_where, length, sort_by, head?, leb, ◌==◌, if◌then◌else◌, str_eq, unwrap_or,
  ℤ, pos, ◌-ℤ◌, mul_ℕ, ltb_ℤ, lit, number, literal,
}
use amos_platform.Error.{AmosError, Result, ok, err, internal, not_found, validation, ◌⊕◌}
use amos_platform.Database.{
  Action, ◌>>=◌, ◌>>◌, pure, raise, or_raise, outcome, utc_now, execute, fetch,
}
use amos_platform.Darwin.Types.{Score, Experiment, Member, Scorecard, Tables}

abbrev pub seconds_per_day : ℕ
seconds_per_day = 86400

-- `started_at IS NOT NULL AND started_at + evaluation_days <= NOW()`
abbrev pub window_over : ℕ → ℤ → Option ℕ → Bool
window_over now days none = false
window_over now days (some started) =
    not (ltb_ℤ (pos now -ℤ pos started) (mul_ℕ days seconds_per_day))

abbrev pub cannot_revert : String → AmosError
cannot_revert status = validation (
    lit "Cannot revert experiment in status '"
    ∷ lit status
    ∷ lit "' — only active or evaluating experiments can be reverted"
    ∷ [])

-- The refusal of a statement on the experiments where there is no such table.
abbrev pub no_table : String → AmosError
no_table what = internal (
    literal what
    ⊕ literal "error returned from database: relation \"darwinian_experiments\" does not exist")

module _ {F : Type 0} where
  abbrev pub is_mature : ℕ → ℕ → Experiment F → Bool
  is_mature swarm_id now e =
      (e.swarm_id == swarm_id)
      && str_eq e.status "active"
      && window_over now e.evaluation_days e.started_at

  abbrev pub is_experiment : ℕ → Experiment F → Bool
  is_experiment id e = e.id == id

  abbrev pub change_experiments :
      (Experiment F → Bool) → (Experiment F → Experiment F) → Tables F → Tables F
  change_experiments p f t = record t { experiments = update_where p f t.experiments }

  -- `UPDATE openclaw_agents SET system_prompt = $1 WHERE id = $2`
  abbrev pub set_prompt : String → ℕ → Tables F → Tables F
  set_prompt prompt agent_id t = record t {
    agents =
        update_where (λ a. a.id == agent_id) (λ a. record a { system_prompt = some prompt })
          t.agents;
  }

  -- A statement that answers nothing.
  abbrev pub execute_update : String → (Tables F → Tables F) → Action (Tables F) (Unit {0})
  execute_update what body = execute what (λ t. (tt, body t))

  abbrev taken : {A : Type 0} → A × Tables F → Option A × Tables F
  taken (a, t) = (some a, t)

  abbrev pub if_table :
      {A : Type 0} → Bool → (Tables F → A × Tables F) → Tables F → Option A × Tables F
  if_table true body t = taken (body t)
  if_table false body t = (none, t)

  -- A statement on the experiments.
  abbrev pub execute_experiments :
      {A : Type 0} → String → (Tables F → A × Tables F) → Action (Tables F) A
  execute_experiments what body = do
    done ← execute what (λ t. if_table t.has_experiments body t)
    or_raise done (no_table what)

  abbrev pub fetch_experiments : {A : Type 0} → String → (Tables F → A) → Action (Tables F) A
  fetch_experiments what read = execute_experiments what (λ t. (read t, t))

  abbrev pub update_experiments : String → (Tables F → Tables F) → Action (Tables F) (Unit {0})
  update_experiments what body = execute_experiments what (λ t. (tt, body t))

  abbrev pub newest_first : Scorecard F → Scorecard F → Bool
  newest_first a b = leb b.created_at a.created_at

  abbrev pub latest_scorecard : ℕ → ℕ → Tables F → Option (Scorecard F)
  latest_scorecard agent_id swarm_id t = head? (
      sort_by newest_first
        (filter (λ c. (c.agent_id == agent_id) && (c.swarm_id == swarm_id)) t.scorecards))

  abbrev pub is_member : ℕ → ℕ → Member F → Bool
  is_member agent_id swarm_id m = (m.agent_id == agent_id) && (m.swarm_id == swarm_id)

  abbrev pub stored_fitness : Option (Member F) → Option F
  stored_fitness none = none
  stored_fitness (some m) = m.fitness_score

  -- `if let Some(ref original) = experiment.original_prompt`, under a test.
  abbrev pub restore_if : Bool → Option String → ℕ → Action (Tables F) (Unit {0})
  restore_if true (some original) agent_id =
      execute_update "Failed to restore agent prompt: " (set_prompt original agent_id)
  restore_if _ _ agent_id = pure tt

  abbrev pub reverted : ℕ → Experiment F → Experiment F
  reverted now e = record e { status = "reverted"; completed_at = some now; updated_at = now }

  abbrev pub can_revert : Experiment F → Bool
  can_revert e = str_eq e.status "active" || str_eq e.status "evaluating"

  unfoldable pub revert_experiment : ℕ → Action (Tables F) (Unit {0})
  revert_experiment experiment_id = do
    found ←
        fetch_experiments "Failed to fetch experiment for revert: "
          (λ t. find (is_experiment experiment_id) t.experiments)
    experiment ← or_raise found (not_found (literal "Experiment") (number experiment_id ∷ []))
    if can_revert experiment then pure tt else raise (cannot_revert experiment.status)
    restore_if true experiment.original_prompt experiment.agent_id
    now ← utc_now
    update_experiments "Failed to mark experiment as reverted: "
        (change_experiments (is_experiment experiment_id) (reverted now))

  abbrev pub is_stale : ℕ → Experiment F → Bool
  is_stale now e = str_eq e.status "proposed" && leb (e.created_at + 7 * seconds_per_day) now

  abbrev pub expired : ℕ → Experiment F → Experiment F
  expired now e = record e { status = "expired"; completed_at = some now; updated_at = now }

  unfoldable pub expire_stale_experiments : Action (Tables F) ℕ
  expire_stale_experiments = do
    now ← utc_now
    execute_experiments "Failed to expire stale experiments: " (λ t. (
      length (filter (is_stale now) t.experiments),
      change_experiments (is_stale now) (expired now) t,
    ))

module _ {F : Type 0} (score : Score F) where
  open score use {zero_score, minus, is_gain}

  abbrev pub or_member : ℕ → ℕ → Option (Scorecard F) → Action (Tables F) F
  or_member agent_id swarm_id (some card) = pure card.fitness_score
  or_member agent_id swarm_id none = do
    member ←
        fetch "Failed to fetch member fitness: " (λ t. find (is_member agent_id swarm_id) t.members)
    pure (unwrap_or (stored_fitness member) zero_score)

  unfoldable pub get_current_fitness : ℕ → ℕ → Action (Tables F) F
  get_current_fitness agent_id swarm_id = do
    card ← fetch "Failed to fetch current fitness: " (latest_scorecard agent_id swarm_id)
    or_member agent_id swarm_id card

  abbrev pub delta_of : Experiment F → F → F
  delta_of experiment current = minus current (unwrap_or experiment.baseline_fitness zero_score)

  -- The status that the difference decides.
  abbrev pub new_status : F → String
  new_status delta = if is_gain delta then "accepted" else "reverted"

  abbrev pub judged : F → F → ℕ → Experiment F → Experiment F
  judged current delta now e = record e {
    status = new_status delta;
    final_fitness = some current;
    fitness_delta = some delta;
    completed_at = some now;
    updated_at = now;
  }

  abbrev pub set_fitness : F → ℕ → ℕ → Tables F → Tables F
  set_fitness current agent_id swarm_id t = record t {
    members =
        update_where (is_member agent_id swarm_id) (λ m. record m { fitness_score = some current })
          t.members;
  }

  -- The two records of the result, after the prompt.
  abbrev pub record_result : Experiment F → F → Action (Tables F) (Unit {0})
  record_result experiment current_fitness = do
    now ← utc_now
    update_experiments "Failed to update experiment result: " (
        change_experiments (is_experiment experiment.id)
          (judged current_fitness (delta_of experiment current_fitness) now))
    execute_update "Failed to update member fitness: "
        (set_fitness current_fitness experiment.agent_id experiment.swarm_id)

  abbrev pub judge : Experiment F → F → Action (Tables F) (Unit {0})
  judge experiment current_fitness =
      restore_if (not (is_gain (delta_of experiment current_fitness))) experiment.original_prompt
        experiment.agent_id
      >> record_result experiment current_fitness

  unfoldable pub evaluate_single : Experiment F → Action (Tables F) (Unit {0})
  unfolding get_current_fitness
  evaluate_single experiment =
      get_current_fitness experiment.agent_id experiment.swarm_id >>= judge experiment

  -- A failed evaluation is skipped.
  abbrev pub add_evaluated : ℕ → Result (Unit {0}) → List ℕ → List ℕ
  add_evaluated id (ok _) ids = id ∷ ids
  add_evaluated id (err e) ids = ids

  unfoldable pub evaluate_all : List (Experiment F) → Action (Tables F) (List ℕ)
  evaluate_all [] = pure []
  evaluate_all (experiment ∷ rows) = do
    judgement ← outcome (evaluate_single experiment)
    evaluated_ids ← evaluate_all rows
    pure (add_evaluated experiment.id judgement evaluated_ids)

  unfoldable pub evaluate_mature_experiments : ℕ → Action (Tables F) (List ℕ)
  evaluate_mature_experiments swarm_id = do
    now ← utc_now
    rows ←
        fetch_experiments "Failed to fetch mature experiments: "
          (λ t. filter (is_mature swarm_id now) t.experiments)
    evaluate_all rows
