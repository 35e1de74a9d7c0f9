-- ===== src/Darwin/Repeats.antt =====
-- Repeated evaluations of a swarm by
-- amos-packages/amos-autoresearch/src/darwinian/evaluator.rs.
use amos_platform.Prelude.{
  ℕ, suc, ℤ, pos, negsuc, ◌+◌, ◌*◌, ◌≤◌, ◌↔◌, ◌⊎◌, inl, inr, Bool-cases, and_left, and_right,
  ==_iff, eq_iff, ◌==◌, ◌&&◌, String, Option, none, some, ◌≡◌, refl, sym, subst, arith, Bool, true,
  false, ap, ◌∙◌, List, [], ◌∷◌, All, All-map, All-updated, filter, is_any, if◌then◌else◌, str_eq,
}
use mathlib.Core.Bool.{false≢true}
use mathlib.Core.Option.{some-injective}
use amos_platform.Error.{Result, ok, err}
use amos_platform.Database.{Session, Action, pure, ◌>>=◌, bind-ok}
use amos_platform.Darwin.Types.{Score, Experiment, Tables}
use amos_platform.Darwin.Evaluator.{
  no_table, fetch_experiments, window_over, delta_of, is_mature, is_experiment, evaluate_single,
  evaluate_all, evaluate_mature_experiments, add_evaluated,
}
use amos_platform.Darwin.Judgement.{with_table-IsJudged, table_there, table_gone}

abbrev ids_of : {F : Type 0} → List (Experiment F) → List ℕ
ids_of [] = []
ids_of (e ∷ rows) = e.id ∷ ids_of rows

not_active : (gain : Bool) → str_eq (if gain then "accepted" else "reverted") "active" ≡ false
not_active true = refl
not_active false = refl

module _ {F : Type 0} (score : Score F) (swarm now : ℕ) where
  -- The experiments that can be judged are among those of the ids.
  abbrev AreAmong : List ℕ → Tables F → Type 0
  AreAmong ids t = All (λ e. is_mature swarm now e ≡ true → is_any ids e.id ≡ true) t.experiments

  judged-AreAmong :
      (e : Experiment F) (ids : List ℕ) (s : Session (Tables F))
      → s.faults ≡ []
      → s.tables.has_experiments ≡ true
      → AreAmong (e.id ∷ ids) s.tables
      → AreAmong ids (evaluate_single score e s).1.tables
  judged-AreAmong e ids s quiet there among =
      let h = with_table-IsJudged score e s quiet there in
      rw h.experiments (
        All-updated (λ x. is_mature swarm now x ≡ true → is_any (e.id ∷ ids) x.id ≡ true)
          (λ x. is_mature swarm now x ≡ true → is_any ids x.id ≡ true) (is_experiment e.id) _
          s.tables.experiments
          (λ x k p t. ground (arith, not_active (score.is_gain (delta_of score e h.current))))
          (λ x k p t. ground (arith, k t)) among)

  evaluate_all-AreAmong :
      (rows : List (Experiment F)) (s : Session (Tables F))
      → s.faults ≡ []
      → s.tables.has_experiments ≡ true
      → AreAmong (ids_of rows) s.tables
      → ((evaluate_all score rows s).0 ≡ ok (ids_of rows))
        × AreAmong [] (evaluate_all score rows s).1.tables
        × ((evaluate_all score rows s).1.faults ≡ [])
  unfolding evaluate_all
  evaluate_all-AreAmong [] s quiet there among = (refl, among, quiet)
  evaluate_all-AreAmong (e ∷ rows) s quiet there among =
      let s' : Session (Tables F) = (evaluate_single score e s).1 in
      let s'' : Session (Tables F) = (evaluate_all score rows s').1 in
      let h = with_table-IsJudged score e s quiet there in
      let (answer_is, none_left, still) =
        evaluate_all-AreAmong rows s' h.quiet_after (h.table_kept ∙ there)
          (judged-AreAmong e (ids_of rows) s quiet there among) in
      let add : List ℕ → Action (Tables F) (List ℕ) =
        λ ids. pure (add_evaluated score e.id (evaluate_single score e s).0 ids) in
      let run : (evaluate_all score rows >>= add) s' ≡ (ok (e.id ∷ ids_of rows), s'') =
        bind-ok (evaluate_all score rows) add s' (ids_of rows) s'' (ap (λ r. (r, s'')) answer_is)
        ∙ ap (λ r. (ok (add_evaluated score e.id r (ids_of rows)), s'')) h.answered in
      subst (λ r. (r.0 ≡ ok (e.id ∷ ids_of rows)) × AreAmong [] r.1.tables × (r.1.faults ≡ []))
        (sym run) (refl, none_left, still)

listed_mature :
    {F : Type 0} (p : Experiment F → Bool) (rows : List (Experiment F))
    → All (λ x. p x ≡ true → is_any (ids_of (filter p rows)) x.id ≡ true) rows
listed_mature p [] = tt
listed_mature p (r ∷ rows) =
    ((λ t. ground arith), All-map (λ x k t. ground (arith, k t)) rows (listed_mature p rows))

-- The evaluation window of an experiment is over: so many days after its start, or before it.
abbrev pub IsOver : ℕ → ℤ → ℕ → Type 0
IsOver started (pos days) now = started + days * 86400 ≤ now
IsOver started (negsuc n) now = started ≤ now + suc n * 86400

abbrev pub IsDue : {F : Type 0} → ℕ → ℕ → Experiment F → Type 0
IsDue swarm now e =
    (e.swarm_id ≡ swarm)
    × (e.status ≡ "active")
    × ((started : ℕ) × (e.started_at ≡ some started) × IsOver started e.evaluation_days now)

window-IsOver :
    (now started : ℕ) (days : ℤ)
    → (window_over now days (some started) ≡ true) ↔ IsOver started days now
window-IsOver now started (pos d) = (λ h. ground arith, λ h. ground arith)
window-IsOver now started (negsuc n) = (λ h. ground arith, λ h. ground arith)

window_cases :
    (now : ℕ) (days : ℤ) (o : Option ℕ)
    → (window_over now days o ≡ true)
      ↔ ((started : ℕ) × (o ≡ some started) × IsOver started days now)
window_cases now days none = (λ h. cc, λ (started, h, over). cc)
window_cases now days (some t) = (
  λ h. (t, refl, (window-IsOver now t days).0 h),
  λ (started, same, over).
      (window-IsOver now t days).1
        (subst (λ x. IsOver x days now) (sym (some-injective t started same)) over),
)

is_mature-IsDue :
    {F : Type 0} (swarm now : ℕ) (e : Experiment F)
    → (is_mature swarm now e ≡ true) ↔ IsDue swarm now e
is_mature-IsDue swarm now e =
    let window = window_over now e.evaluation_days e.started_at in
    let active = str_eq e.status "active" in
    (
      λ h.
          let front = and_left ((e.swarm_id == swarm) && active) window h in
          (
            (==_iff e.swarm_id swarm).0 (and_left (e.swarm_id == swarm) active front),
            (eq_iff e.status "active").0 (and_right (e.swarm_id == swarm) active front),
            (window_cases now e.evaluation_days e.started_at).0
                (and_right ((e.swarm_id == swarm) && active) window h),
          ),
      λ (same, is_active, over).
          rw
            (
              (==_iff e.swarm_id swarm).1 same,
              (eq_iff e.status "active").1 is_active,
              (window_cases now e.evaluation_days e.started_at).1 over,
            )
            refl,
    )

module _ {F : Type 0} (score : Score F) (swarm : ℕ) where
  due : Session (Tables F) → List (Experiment F)
  due s = filter (is_mature swarm s.now) s.tables.experiments

  mature_quiet :
      (s : Session (Tables F))
      → s.tables.has_experiments ≡ true
      → let s₀ : Session (Tables F) = record s { faults = [] } in
        evaluate_mature_experiments score swarm s₀ ≡ evaluate_all score (due s) s₀
  unfolding evaluate_mature_experiments due
  mature_quiet s there =
      let what : String = "Failed to fetch mature experiments: " in
      let read : Tables F → List (Experiment F) =
        λ t. filter (is_mature swarm s.now) t.experiments in
      let s₀ : Session (Tables F) = record s { faults = [] } in
      bind-ok (fetch_experiments what read) (evaluate_all score) s₀ (due s) s₀
        (table_there score what (λ t. (read t, t)) s there)

  mature_gone :
      (s : Session (Tables F))
      → s.tables.has_experiments ≡ false
      → let s₀ : Session (Tables F) = record s { faults = [] } in
        evaluate_mature_experiments score swarm s₀
        ≡ (err (no_table "Failed to fetch mature experiments: "), s₀)
  unfolding evaluate_mature_experiments
  mature_gone s gone =
      let what : String = "Failed to fetch mature experiments: " in
      let read : Tables F → List (Experiment F) =
        λ t. filter (is_mature swarm s.now) t.experiments in
      ap
        (λ p. elim p.0 as (λ _. Result (List ℕ) × Session (Tables F)) [
          | ok rows ↦ evaluate_all score rows p.1
          | err e ↦ (err e, p.1)
        ])
        (table_gone score what (λ t. (read t, t)) s gone)

  -- What an evaluation of a swarm has done, where there is a table of experiments: for a test that says
  -- exactly which experiments are due, it answered their ids, and leaves none that is.
  abbrev pub IsEvaluated : Session (Tables F) → Result (List ℕ) × Session (Tables F) → Type 0
  IsEvaluated s r =
      (is_due : Experiment F → Bool) × ((e : Experiment F)
        → (is_due e ≡ true) ↔ IsDue swarm s.now e)
      × (r.0 ≡ ok (ids_of (filter is_due s.tables.experiments)))
      × All (λ e. ¬ IsDue swarm s.now e) r.1.tables.experiments

  quiet-IsEvaluated :
      (s : Session (Tables F))
      → s.tables.has_experiments ≡ true
      → IsEvaluated s (evaluate_mature_experiments score swarm (record s { faults = [] }))
  unfolding due
  quiet-IsEvaluated s there =
      let s₀ : Session (Tables F) = record s { faults = [] } in
      let (answer_is, none_left, still) =
        evaluate_all-AreAmong score swarm s.now (due s) s₀ refl there
          (listed_mature (is_mature swarm s.now) s.tables.experiments) in
      subst (IsEvaluated s) (sym (mature_quiet s there)) (
        is_mature swarm s.now,
        is_mature-IsDue swarm s.now,
        answer_is,
        All-map (λ e h over. false≢true (h ((is_mature-IsDue swarm s.now e).1 over)))
            (evaluate_all score (due s) s₀).1.tables.experiments none_left,
      )

  -- Where the database refuses no statement on a table that it has: if it has the table of experiments,
  -- an evaluation of a swarm judges exactly its active experiments whose days of evaluation since the
  -- start are over, in the order of the table, and leaves none that an evaluation at that time would
  -- judge again. If it has no such table, the evaluation is an error and changes nothing.
  pub evaluate_mature_experiments-once :
      (s : Session (Tables F))
      → s.faults ≡ []
      → ((s.tables.has_experiments ≡ true)
          × IsEvaluated s (evaluate_mature_experiments score swarm s))
        ⊎ ((s.tables.has_experiments ≡ false)
            × (evaluate_mature_experiments score swarm s
                ≡ (err (no_table "Failed to fetch mature experiments: "), s)))
  evaluate_mature_experiments-once s quiet = elim (Bool-cases s.tables.has_experiments) [
    | inl there ↦ inl (
      there,
      subst (λ f. IsEvaluated s (evaluate_mature_experiments score swarm (record s { faults = f })))
          (sym quiet) (quiet-IsEvaluated s there),
    )
    | inr gone ↦ inr (
      gone,
      subst
          (λ f.
            evaluate_mature_experiments score swarm (record s { faults = f })
            ≡ (err (no_table "Failed to fetch mature experiments: "), record s { faults = f }))
          (sym quiet) (mature_gone s gone),
    )
  ]
