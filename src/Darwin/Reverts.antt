-- ===== src/Darwin/Reverts.antt =====
-- Reverts by hand in amos-packages/amos-autoresearch/src/darwinian/evaluator.rs.
use amos_platform.Prelude.{ℕ, ◌≡◌, arith, true, some, [], find, update_where, if◌then◌else◌}
use amos_platform.Error.{AmosError, ok, err}
use amos_platform.Database.{Session}
use amos_platform.Darwin.Types.{Experiment, Tables}
use amos_platform.Darwin.Evaluator.{
  is_experiment, can_revert, cannot_revert, reverted, revert_experiment,
}
use amos_platform.Darwin.Judgement.{restored_agents}

-- A revert that ends in an error, of whatever statement, has changed no experiment: it can be asked
-- for again.
pub revert_error_unchanged :
    {F : Type 0} (id : ℕ) (s : Session (Tables F)) (e : AmosError)
    → (revert_experiment id s).0 ≡ err e
    → (revert_experiment id s).1.tables.experiments ≡ s.tables.experiments
unfolding revert_experiment
revert_error_unchanged id s e h = ground arith

-- Where the database refuses nothing and has the table, an experiment that is active or under evaluation is marked as
-- reverted and its agent has the original prompt again, if one is stored; one of another status is
-- left alone, with all else, and the revert is an error.
pub revert_found :
    {F : Type 0} (id : ℕ) (s : Session (Tables F)) (x : Experiment F)
    → s.faults ≡ []
    → s.tables.has_experiments ≡ true
    → find (is_experiment id) s.tables.experiments ≡ some x
    → (revert_experiment id s).0 ≡ (if can_revert x then ok tt else err (cannot_revert x.status))
      × ((revert_experiment id s).1.tables.experiments ≡ (
          if can_revert x
          then update_where (is_experiment id) (reverted s.now) s.tables.experiments
          else s.tables.experiments))
      × ((revert_experiment id s).1.tables.agents ≡ (
          if can_revert x
          then restored_agents x.original_prompt x.agent_id s.tables.agents
          else s.tables.agents))
unfolding revert_experiment
revert_found id s x quiet there found = (ground arith, ground arith, ground arith)
