-- ===== src/Darwin/Judgement.antt =====
-- What one judgement and one revert of
-- amos-packages/amos-autoresearch/src/darwinian/evaluator.rs do.
use amos_platform.Prelude.{
  ℕ, ◌==◌, ◌≡◌, ◌⊎◌, ◌≤◌, ◌&&◌, leb→le, arith, Bool-cases, All, Any, All-map, inl, inr, refl, ◌∙◌,
  subst, sym, ap, Bool, true, false, not, String, Option, none, some, List, [], find, update_where,
  if◌then◌else◌, unwrap_or,
}
use amos_platform.Error.{Result, ok, err}
use amos_platform.Database.{Session, bind-ok}
use amos_platform.Darwin.Latest.{query_cases}
use amos_platform.Darwin.Types.{Score, Experiment, Agent, Member, Scorecard, Tables}
use amos_platform.Darwin.Evaluator.{
  newest_first, no_table, execute_experiments, is_experiment, latest_scorecard, is_member,
  stored_fitness, set_prompt, change_experiments, restore_if, or_member, judge, record_result,
  get_current_fitness, delta_of, judged, set_fitness, evaluate_single,
}

-- The agents with the original prompt restored.
abbrev pub restored_agents : Option String → ℕ → List Agent → List Agent
restored_agents none agent_id agents = agents
restored_agents (some original) agent_id agents =
    update_where (λ a. a.id == agent_id) (λ a. record a { system_prompt = some original }) agents

-- A scorecard of an agent in a swarm.
abbrev pub IsCardOf : {F : Type 0} → ℕ → ℕ → Scorecard F → Type 0
IsCardOf agent_id swarm_id c = (c.agent_id ≡ agent_id) × (c.swarm_id ≡ swarm_id)

newest_total : {F : Type 0} (a b : Scorecard F) → newest_first a b ≡ false → newest_first b a ≡ true
newest_total a b h = ground arith

newest_trans :
    {F : Type 0} (a b c : Scorecard F)
    → newest_first a b ≡ true
    → newest_first b c ≡ true
    → newest_first a c ≡ true
newest_trans a b c h k = ground arith

card_passes :
    {F : Type 0} (agent swarm : ℕ) (c : Scorecard F)
    → c.agent_id ≡ agent
    → c.swarm_id ≡ swarm
    → ((c.agent_id == agent) && (c.swarm_id == swarm)) ≡ true
card_passes agent swarm c h k = ground arith

passes_card :
    {F : Type 0} (agent swarm : ℕ) (c : Scorecard F)
    → ((c.agent_id == agent) && (c.swarm_id == swarm)) ≡ true
    → IsCardOf agent swarm c
passes_card agent swarm c h = (ground arith, ground arith)

module _ {F : Type 0} where
  -- The prompt of the agent after a judgement.
  abbrev pub restored : Bool → Option String → ℕ → Tables F → Tables F
  restored true (some original) agent_id t = set_prompt original agent_id t
  restored _ _ agent_id t = t

module _ {F : Type 0} (score : Score F) where
  open score use {zero_score, minus, is_gain}

  abbrev fitness_of : Option (Scorecard F) → Option (Member F) → F
  fitness_of (some card) m = card.fitness_score
  fitness_of none m = unwrap_or (stored_fitness m) zero_score

  abbrev fitness : ℕ → ℕ → Tables F → F
  fitness agent_id swarm_id t =
      fitness_of (latest_scorecard agent_id swarm_id t)
        (find (is_member agent_id swarm_id) t.members)

  -- What an agent's fitness in a swarm is: the score of a scorecard of theirs than which none of theirs
  -- is later, or where they have none, what the first membership of theirs stores, else 0.
  abbrev pub IsFitness : ℕ → ℕ → Tables F → F → Type 0
  IsFitness agent_id swarm_id t f =
      ((card : Scorecard F) × Any (λ c. c ≡ card) t.scorecards
        × IsCardOf agent_id swarm_id card
        × All (λ c. IsCardOf agent_id swarm_id c → c.created_at ≤ card.created_at) t.scorecards
        × (f ≡ card.fitness_score))
      ⊎ (All (λ c. IsCardOf agent_id swarm_id c → ⊥) t.scorecards
          × (f
              ≡ (elim (find (λ m. (m.agent_id == agent_id) && (m.swarm_id == swarm_id)) t.members) [
                | none ↦ zero_score
                | some m ↦ unwrap_or m.fitness_score zero_score
              ])))

  stored_value :
      (o : Option (Member F))
      → unwrap_or (stored_fitness o) zero_score
        ≡ elim o [ none ↦ zero_score | some m ↦ unwrap_or m.fitness_score zero_score ]
  stored_value none = refl
  stored_value (some m) = refl

  fitness-IsFitness :
      (agent swarm : ℕ) (t : Tables F) → IsFitness agent swarm t (fitness agent swarm t)
  fitness-IsFitness agent swarm t =
      let p : Scorecard F → Bool = λ c. (c.agent_id == agent) && (c.swarm_id == swarm) in
      let member : Option (Member F) = find (is_member agent swarm) t.members in
      elim (query_cases newest_first newest_total newest_trans p t.scorecards) [
        | inl (card, is_latest, listed, passes, all) ↦ inl (
          card,
          listed,
          passes_card agent swarm card passes,
          All-map
              (λ c f (a, b).
                leb→le c.created_at card.created_at (f (card_passes agent swarm c a b)))
              t.scorecards all,
          ap (λ o. fitness_of o member) is_latest,
        )
        | inr (is_none, all) ↦ inr (
          All-map (λ c f (a, b). f (card_passes agent swarm c a b)) t.scorecards all,
          ap (λ o. fitness_of o member) is_none ∙ stored_value member,
        )
      ]

  -- A session in which no statement will be refused, but for those on a table that is not there.
  abbrev quiet : Session (Tables F) → Session (Tables F)
  quiet s = record s { faults = [] }

  pub table_there :
      {A : Type 0} (what : String) (body : Tables F → A × Tables F) (s : Session (Tables F))
      → s.tables.has_experiments ≡ true
      → execute_experiments what body (quiet s)
        ≡ (ok (body s.tables).0, quiet (record s { tables = (body s.tables).1 }))
  table_there what body s h = rw (h, execute_experiments) refl

  pub table_gone :
      {A : Type 0} (what : String) (body : Tables F → A × Tables F) (s : Session (Tables F))
      → s.tables.has_experiments ≡ false
      → execute_experiments what body (quiet s) ≡ (err (no_table what), quiet s)
  table_gone what body s h = rw (h, execute_experiments) refl

  or_member_lem :
      (agent swarm : ℕ) (s : Session (Tables F)) (card : Option (Scorecard F))
      → or_member score agent swarm card (quiet s)
        ≡ (ok (fitness_of card (find (is_member agent swarm) s.tables.members)), quiet s)
  or_member_lem agent swarm s none = refl
  or_member_lem agent swarm s (some card) = refl

  fitness_read :
      (agent swarm : ℕ) (s : Session (Tables F))
      → get_current_fitness score agent swarm (quiet s)
        ≡ (ok (fitness agent swarm s.tables), quiet s)
  unfolding get_current_fitness
  fitness_read agent swarm s = or_member_lem agent swarm s (latest_scorecard agent swarm s.tables)

  -- The tables after the judgement of one experiment.
  abbrev after_judgement : Experiment F → ℕ → Tables F → Tables F
  after_judgement e now t =
      let current : F = fitness e.agent_id e.swarm_id t in
      let delta : F = delta_of score e current in
      set_fitness score current e.agent_id e.swarm_id (
        change_experiments (is_experiment e.id) (judged score current delta now)
          (restored (not (is_gain delta)) e.original_prompt e.agent_id t))

  restored_first :
      (b : Bool) (o : Option String) (agent : ℕ) (s : Session (Tables F))
      → restore_if b o agent (quiet s)
        ≡ (ok tt, quiet (record s { tables = restored b o agent s.tables }))
  restored_first true (some o) agent s = refl
  restored_first true none agent s = refl
  restored_first false o agent s = refl

  kept_experiments :
      (b : Bool) (o : Option String) (agent : ℕ) (t : Tables F)
      → ((restored b o agent t).experiments ≡ t.experiments)
        × ((restored b o agent t).has_experiments ≡ t.has_experiments)
        × ((restored b o agent t).members ≡ t.members)
  kept_experiments true (some o) agent t = (refl, refl, refl)
  kept_experiments true none agent t = (refl, refl, refl)
  kept_experiments false o agent t = (refl, refl, refl)

  new_prompts :
      (gain : Bool) (o : Option String) (agent : ℕ) (t : Tables F)
      → (restored (not gain) o agent t).agents
        ≡ (if gain then t.agents else restored_agents o agent t.agents)
  new_prompts true o agent t = refl
  new_prompts false (some o) agent t = refl
  new_prompts false none agent t = refl

  -- A judgement reads the fitness, restores the prompt where it must, and records the result.
  single_quiet :
      (e : Experiment F) (s : Session (Tables F))
      → let current : F = fitness e.agent_id e.swarm_id s.tables in
        evaluate_single score e (quiet s)
        ≡ record_result score e current (
            quiet (record s {
              tables =
                  restored
                    (not (is_gain (delta_of score e current)))
                    e.original_prompt
                    e.agent_id
                    s.tables;
            }))
  unfolding evaluate_single
  single_quiet e s =
      let current : F = fitness e.agent_id e.swarm_id s.tables in
      let lost : Bool = not (is_gain (delta_of score e current)) in
      bind-ok (get_current_fitness score e.agent_id e.swarm_id) (judge score e) (quiet s) current
        (quiet s) (fitness_read e.agent_id e.swarm_id s)
      ∙ bind-ok (restore_if lost e.original_prompt e.agent_id) (λ _. record_result score e current)
          (quiet s) tt
          (quiet (record s { tables = restored lost e.original_prompt e.agent_id s.tables }))
          (restored_first lost e.original_prompt e.agent_id s)

  recorded :
      (e : Experiment F) (current : F) (s : Session (Tables F))
      → s.tables.has_experiments ≡ true
      → record_result score e current (quiet s) ≡ (
        ok tt,
        quiet (record s {
          tables = set_fitness score current e.agent_id e.swarm_id (
              change_experiments
                (is_experiment e.id)
                (judged score current (delta_of score e current) s.now)
                s.tables);
        }),
      )
  recorded e current s h = rw (h, record_result) refl

  unrecorded :
      (e : Experiment F) (current : F) (s : Session (Tables F))
      → s.tables.has_experiments ≡ false
      → record_result score e current (quiet s)
        ≡ (err (no_table "Failed to update experiment result: "), quiet s)
  unrecorded e current s h = rw (h, record_result) refl

  -- What a judgement leaves, where there is a table of experiments.
  pub record IsJudged (e : Experiment F) (s : Session (Tables F))
      (r : Result (Unit {0}) × Session (Tables F)) : Type 0 where
    pub current : F
    pub is_current : IsFitness e.agent_id e.swarm_id s.tables current
    pub answered : r.0 ≡ ok tt
    pub experiments :
        r.1.tables.experiments
        ≡ update_where
            (λ x. x.id == e.id)
            (λ x. record x {
              status =
                  if is_gain (minus current (unwrap_or e.baseline_fitness zero_score))
                  then "accepted"
                  else "reverted";
              final_fitness = some current;
              fitness_delta = some (minus current (unwrap_or e.baseline_fitness zero_score));
              completed_at = some s.now;
              updated_at = s.now;
            })
            s.tables.experiments
    pub prompts : r.1.tables.agents ≡ (
        if is_gain (minus current (unwrap_or e.baseline_fitness zero_score))
        then s.tables.agents
        else restored_agents e.original_prompt e.agent_id s.tables.agents)
    pub memberships :
        r.1.tables.members
        ≡ update_where
            (λ m. (m.agent_id == e.agent_id) && (m.swarm_id == e.swarm_id))
            (λ m. record m { fitness_score = some current })
            s.tables.members
    pub quiet_after : r.1.faults ≡ []
    pub table_kept : r.1.tables.has_experiments ≡ s.tables.has_experiments

  -- What it leaves where there is none.
  pub record IsUnjudged (e : Experiment F) (s : Session (Tables F))
      (r : Result (Unit {0}) × Session (Tables F)) : Type 0 where
    pub current : F
    pub is_current : IsFitness e.agent_id e.swarm_id s.tables current
    pub refused : r.0 ≡ err (no_table "Failed to update experiment result: ")
    pub prompts : r.1.tables.agents ≡ (
        if is_gain (minus current (unwrap_or e.baseline_fitness zero_score))
        then s.tables.agents
        else restored_agents e.original_prompt e.agent_id s.tables.agents)
    pub members_kept : r.1.tables.members ≡ s.tables.members
    pub experiments_kept : r.1.tables.experiments ≡ s.tables.experiments

  quiet-IsJudged :
      (e : Experiment F) (s : Session (Tables F))
      → s.tables.has_experiments ≡ true
      → IsJudged e (quiet s) (evaluate_single score e (quiet s))
  quiet-IsJudged e s h =
      let current : F = fitness e.agent_id e.swarm_id s.tables in
      let delta : F = delta_of score e current in
      let gain : Bool = is_gain delta in
      let t : Tables F = restored (not gain) e.original_prompt e.agent_id s.tables in
      let (same, table, members) =
        kept_experiments (not gain) e.original_prompt e.agent_id s.tables in
      subst (IsJudged e (quiet s))
        (sym (single_quiet e s ∙ recorded e current (record s { tables = t }) (table ∙ h)))
        (record {
          current = current;
          is_current = fitness-IsFitness e.agent_id e.swarm_id s.tables;
          answered = refl;
          experiments =
              ap (update_where (is_experiment e.id) (judged score current delta s.now)) same;
          prompts = new_prompts gain e.original_prompt e.agent_id s.tables;
          memberships =
              ap
                (update_where (is_member e.agent_id e.swarm_id)
                  (λ m. record m { fitness_score = some current }))
                members;
          quiet_after = refl;
          table_kept = table;
        })

  quiet-IsUnjudged :
      (e : Experiment F) (s : Session (Tables F))
      → s.tables.has_experiments ≡ false
      → IsUnjudged e (quiet s) (evaluate_single score e (quiet s))
  quiet-IsUnjudged e s h =
      let current : F = fitness e.agent_id e.swarm_id s.tables in
      let gain : Bool = is_gain (delta_of score e current) in
      let t : Tables F = restored (not gain) e.original_prompt e.agent_id s.tables in
      let (same, table, members) =
        kept_experiments (not gain) e.original_prompt e.agent_id s.tables in
      subst (IsUnjudged e (quiet s))
        (sym (single_quiet e s ∙ unrecorded e current (record s { tables = t }) (table ∙ h)))
        (record {
          current = current;
          is_current = fitness-IsFitness e.agent_id e.swarm_id s.tables;
          refused = refl;
          prompts = new_prompts gain e.original_prompt e.agent_id s.tables;
          members_kept = members;
          experiments_kept = same;
        })

  pub with_table-IsJudged :
      (e : Experiment F) (s : Session (Tables F))
      → s.faults ≡ []
      → s.tables.has_experiments ≡ true
      → IsJudged e s (evaluate_single score e s)
  with_table-IsJudged e s h there =
      subst
        (λ f.
          IsJudged e (record s { faults = f }) (evaluate_single score e (record s { faults = f })))
        (sym h) (quiet-IsJudged e s there)

  -- Where the database refuses no statement on a table that it has: if it has the table of experiments,
  -- a judgement compares the agent's fitness, of a scorecard than which none of theirs is later or else
  -- of the membership, with the baseline; the experiment is accepted with no change of the agent's
  -- prompt where the difference is a gain or none, and else reverted and the original prompt, if one is
  -- stored, is restored; the fitness and the difference are recorded. If it has no such table, the
  -- judgement is an error and records nothing, but restores the prompt in the same way.
  pub evaluate_single-IsJudged :
      (e : Experiment F) (s : Session (Tables F))
      → s.faults ≡ []
      → ((s.tables.has_experiments ≡ true) × IsJudged e s (evaluate_single score e s))
        ⊎ ((s.tables.has_experiments ≡ false) × IsUnjudged e s (evaluate_single score e s))
  evaluate_single-IsJudged e s h = elim (Bool-cases s.tables.has_experiments) [
    | inl there ↦ inl (there, with_table-IsJudged e s h there)
    | inr gone ↦ inr (
      gone,
      subst
          (λ f.
            IsUnjudged e (record s { faults = f })
              (evaluate_single score e (record s { faults = f })))
          (sym h) (quiet-IsUnjudged e s gone),
    )
  ]
