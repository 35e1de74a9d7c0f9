-- ===== src/Swarm/Family.antt =====
-- That routing comes to an end: the parents of amos-packages/amos-autoresearch/src/swarm form no cycle.
use amos_platform.Prelude.{
  ℕ, zero, suc, ◌<◌, ◌≡◌, ◌⊎◌, refl, ap, sym, ◌∙◌, subst, arith, true, false, ◌==◌, Option, none,
  some, List, [], ◌∷◌, filter, find, sort_by, All, All-sort_by, All-filter, All-both, All-map,
  filter-All, Bool-cases, Option-cases, inl, inr, String,
}
use amos_platform.Error.{AmosError, Result, ok, err}
use amos_platform.Database.{
  Session, Action, pure, or_raise, ◌>>=◌, fetch, bind_answers, fetch_reads,
}
use amos_platform.Swarm.Types.{RoutingStrategy, Swarm, RouteTaskRequest, Tables, parse_strategy}
use amos_platform.Swarm.Manager.{
  has_id, is_child_of, layer_before, no_swarm, get_swarm, get_child_swarms,
}
use amos_platform.Swarm.Router.{
  Chance, route_by_fitness, route_round_robin, route_by_capability, route_by_load, swarm_disabled,
  unknown_strategy, found, or_next, try_children, route_children, route_by, route_task,
}
use amos_platform.Swarm.Strategies.{Reads}
use amos_platform.Swarm.Routed.{within, route_task-Reads}

abbrev pub IsBelow : (ℕ → ℕ) → ℕ → Option ℕ → Type 0
IsBelow rank id none = Unit
IsBelow rank id (some parent_id) = rank id < rank parent_id

-- Each swarm ranks below its parent.
abbrev pub IsRanked : {F : Type 0} → (ℕ → ℕ) → Tables F → Type 0
IsRanked rank t = All (λ s. IsBelow rank s.id s.parent_swarm_id) t.swarms

same_id : (a b : ℕ) → (a == b) ≡ true → a ≡ b
same_id a b h = ground arith

below_parent :
    (rank : ℕ → ℕ) (id child_id : ℕ) (o : Option ℕ)
    → IsBelow rank child_id o
    → elim o [ none ↦ false | some p ↦ p == id ] ≡ true
    → rank child_id < rank id
below_parent rank id child_id none h k = cc
below_parent rank id child_id (some p) h k = subst (λ x. rank child_id < rank x) (same_id p id k) h

-- An answer that is not `none`: the call has returned.
abbrev pub Returns : {F : Type 0} → Action (Tables F) (Option ℕ) → Session (Tables F) → Type 0
Returns m s = ¬ ((m s).0 ≡ ok none)

module _ {F : Type 0} (chance : Chance F) where
  found-Returns : (m : Action (Tables F) ℕ) (s : Session (Tables F)) → Returns (found chance m) s
  found-Returns m s h =
      let (b, got, same) = bind_answers m (λ x. pure (some x)) s none h in
      let apart : ok (some b) ≡ ok none = ap (λ p. p.0) (sym same) ∙ h in cc

  module _ (route : ℕ → Action (Tables F) (Option ℕ)) (reads : (id : ℕ) → Reads chance (route id))
      (t : Tables F) where
    next-Returns :
        (r : Result (Option ℕ)) (rest : Action (Tables F) (Option ℕ)) (s : Session (Tables F))
        → (r ≡ ok none → ⊥)
        → Returns rest s
        → (or_next chance r rest s).0 ≡ ok none
        → ⊥
    next-Returns (ok a) rest s here later h = here h
    next-Returns (err e) rest s here later h = later h

    try-Returns :
        (id : ℕ) (children : List Swarm)
        → All (λ c. (s : Session (Tables F)) → s.tables ≡ t → Returns (route c.id) s) children
        → (s : Session (Tables F)) → s.tables ≡ t
        → Returns (try_children chance route id children) s
    try-Returns id [] all s same h = cc
    try-Returns id (c ∷ children) all s same h = elim (Bool-cases c.enabled) [
      | inl e ↦
          next-Returns (route c.id s).0 (try_children chance route id children) (route c.id s).1
            (all.0 s same) (try-Returns id children all.1 (route c.id s).1 (reads c.id s ∙ same))
            (rw e at h)
      | inr e ↦ try-Returns id children all.1 s same (rw e at h)
    ]

    children-Returns :
        (id : ℕ) (children : List Swarm)
        → All (λ c. (s : Session (Tables F)) → s.tables ≡ t → Returns (route c.id) s) children
        → (s : Session (Tables F)) → s.tables ≡ t
        → Returns (route_children chance route id children) s
    children-Returns id [] all s same = found-Returns (route_by_fitness chance id) s
    children-Returns id (c ∷ children) all s same = try-Returns id (c ∷ children) all s same

    by-Returns :
        (req : RouteTaskRequest) (id : ℕ)
        → All
            (λ c. (s : Session (Tables F)) → s.tables ≡ t → Returns (route c.id) s)
            (filter (is_child_of id) t.swarms)
        → (strategy : RoutingStrategy) (s : Session (Tables F)) → s.tables ≡ t
        → Returns (route_by chance route req id strategy) s
    unfolding get_child_swarms
    by-Returns req id all RoutingStrategy.round_robin s same h =
        found-Returns (route_round_robin chance id) s h
    by-Returns req id all RoutingStrategy.capability s same h =
        found-Returns (route_by_capability chance id req.required_capabilities) s h
    by-Returns req id all RoutingStrategy.load s same h =
        found-Returns (route_by_load chance id) s h
    by-Returns req id all RoutingStrategy.fitness s same h =
        found-Returns (route_by_fitness chance id) s h
    by-Returns req id all RoutingStrategy.hierarchical s same h =
        let what : String = "Failed to fetch child swarms: " in
        let read : Tables F → List Swarm =
          λ u. sort_by layer_before (filter (is_child_of id) u.swarms) in
        let (children, got, goes) =
          bind_answers (fetch what read) (route_children chance route id) s none h in
        let (is_children, still) = fetch_reads what read s children got in
        let P : Swarm → Type 0 =
          λ c. (s : Session (Tables F)) → s.tables ≡ t → Returns (route c.id) s in
        children-Returns id children
          (subst (All P) (ap read (sym same) ∙ is_children)
            (All-sort_by P layer_before (filter (is_child_of id) t.swarms) all))
          (fetch what read s).1 (still ∙ same) (ap (λ p. p.0) (sym goes) ∙ h)

  children_below :
      (rank : ℕ → ℕ) (fuel id : ℕ) (t : Tables F)
      → IsRanked rank t
      → rank id < suc fuel
      → All (λ c. rank c.id < fuel) (filter (is_child_of id) t.swarms)
  children_below rank fuel id t ranked enough =
      let P : Swarm → Type 0 = λ c. IsBelow rank c.id c.parent_swarm_id in
      let Q : Swarm → Type 0 = λ c. is_child_of id c ≡ true in
      All-map
        (λ c both. under (rank c.id) (below_parent rank id c.id c.parent_swarm_id both.0 both.1))
        (filter (is_child_of id) t.swarms)
        (All-both P Q (filter (is_child_of id) t.swarms)
          (All-filter P (is_child_of id) t.swarms ranked) (filter-All (is_child_of id) t.swarms))
    where
      under : (n : ℕ) → n < rank id → n < fuel
      under n h = omega arith

  within-Returns :
      (fuel : ℕ) (req : RouteTaskRequest) (id : ℕ) (o : Option Swarm) (s : Session (Tables F))
      → ((strategy : RoutingStrategy)
          → Returns (route_by chance (route_task chance fuel req) req id strategy) s)
      → Returns (or_raise o (no_swarm id) >>= within chance fuel req id) s
  within-Returns fuel req id none s returns h = cc
  within-Returns fuel req id (some swarm) s returns h = elim (Bool-cases swarm.enabled) [
    | inl e ↦ elim (Option-cases (parse_strategy swarm.routing_strategy)) [
      | inl unknown ↦
          let apart : err (unknown_strategy chance swarm.routing_strategy) ≡ ok none =
            rw (e, unknown) at h in
          cc
      | inr (strategy, parsed) ↦ returns strategy (rw (e, parsed) at h)
    ]
    | inr e ↦ let apart : err (swarm_disabled chance id) ≡ ok none = rw e at h in cc
  ]

  route_task-Returns :
      (rank : ℕ → ℕ) (fuel : ℕ) (req : RouteTaskRequest) (id : ℕ) (s : Session (Tables F))
      → IsRanked rank s.tables
      → rank id < fuel
      → Returns (route_task chance fuel req id) s
  unfolding route_task get_swarm
  route_task-Returns rank zero req id s ranked enough h = omega arith
  route_task-Returns rank (suc fuel) req id s ranked enough h =
      let what : String = "Failed to fetch swarm: " in
      let read : Tables F → Option Swarm = λ t. find (has_id id) t.swarms in
      let (o, got, goes) =
        bind_answers (fetch what read) (λ o. or_raise o (no_swarm id) >>= within chance fuel req id)
          s none h in
      let still = (fetch_reads what read s o got).1 in
      let all =
        All-map
          (λ c low s' same.
            route_task-Returns rank fuel req c.id s' (subst (IsRanked rank) (sym same) ranked) low)
          (filter (is_child_of id) s.tables.swarms)
          (children_below rank fuel id s.tables ranked enough) in
      within-Returns fuel req id o (fetch what read s).1
        (λ strategy.
          by-Returns (route_task chance fuel req) (route_task-Reads chance fuel req) s.tables req id
            all strategy (fetch what read s).1 still)
        (ap (λ p. p.0) (sym goes) ∙ h)

  -- Where a ranking puts each swarm below its parent, on fuel above the rank of the swarm, routing a task
  -- comes to an end, with an agent or with an error: it goes from swarms to children.
  pub route_task_ends :
      (rank : ℕ → ℕ) (fuel : ℕ) (req : RouteTaskRequest) (id : ℕ) (s : Session (Tables F))
      → IsRanked rank s.tables
      → rank id < fuel
      → ((agent_id : ℕ) × ((route_task chance fuel req id s).0 ≡ ok (some agent_id)))
        ⊎ ((e : AmosError) × ((route_task chance fuel req id s).0 ≡ err e))
  route_task_ends rank fuel req id s ranked enough =
      ends (route_task chance fuel req id s).0 (route_task-Returns rank fuel req id s ranked enough)
    where
      ends :
          (r : Result (Option ℕ))
          → ¬ (r ≡ ok none)
          → ((agent_id : ℕ) × (r ≡ ok (some agent_id))) ⊎ ((e : AmosError) × (r ≡ err e))
      ends (ok none) h = absurd (h refl)
      ends (ok (some a)) h = inl (a, refl)
      ends (err e) h = inr (e, refl)
