-- ===== src/Swarm/Routed.antt =====
-- Where amos-packages/amos-autoresearch/src/swarm/router.rs sends a task: to a member of an enabled
-- swarm at or below the one asked.
use amos_platform.Prelude.{
  ℕ, zero, suc, ◌≡◌, ◌⊎◌, refl, ap, sym, ◌∙◌, subst, true, Option, none, some, List, [], ◌∷◌,
  filter, find, sort_by, All, All-sort_by, filter-All, Bool-cases, inl, inr, Option-cases,
  Option-cases, String,
}
use amos_platform.Error.{AmosError, Result, ok, err}
use amos_platform.Database.{Session, Action, or_raise, ◌>>=◌, fetch, bind_answers, fetch_reads}
use amos_platform.Swarm.Types.{RoutingStrategy, Swarm, RouteTaskRequest, Tables, parse_strategy}
use amos_platform.Swarm.Manager.{
  has_id, is_child_of, layer_before, no_swarm, get_swarm, get_child_swarms,
}
use amos_platform.Swarm.Router.{
  Chance, route_round_robin, route_by_capability, route_by_load, route_by_fitness, or_random,
  enabled_or, swarm_disabled, unknown_strategy, or_next, try_children, route_children, route_by,
  route_task,
}
use amos_platform.Swarm.Listed.{Listed}
use amos_platform.Swarm.Strategies.{
  Reads, found-Reads, fitness-Reads, bind-Reads, or_random-Reads, fetch-Reads, raise-Reads,
  enabled-Reads, capability-Reads, found_answers, fitness-Listed, capability-Listed,
  round_robin-Listed, load_fails,
}

-- An agent that a task for a swarm may go to: a member of the swarm, or of one that is reached from it
-- through children; each of these swarms is enabled.
pub data Reaches {F : Type 0} (t : Tables F) : ℕ → ℕ → Type 0 where
  member :
      {id agent_id : ℕ} (swarm : Swarm)
      → find (has_id id) t.swarms ≡ some swarm
      → swarm.enabled ≡ true
      → Listed t id agent_id
      → Reaches t id agent_id
  child :
      {id agent_id : ℕ} (swarm below : Swarm)
      → find (has_id id) t.swarms ≡ some swarm
      → swarm.enabled ≡ true
      → is_child_of id below ≡ true
      → Reaches t below.id agent_id
      → Reaches t id agent_id

module _ {F : Type 0} (chance : Chance F) (route : ℕ → Action (Tables F) (Option ℕ))
    (reads : (id : ℕ) → Reads chance (route id)) where
  next-Reads :
      (r : Result (Option ℕ)) (rest : Action (Tables F) (Option ℕ))
      → Reads chance rest
      → Reads chance (or_next chance r rest)
  next-Reads (ok answer) rest h s = refl
  next-Reads (err e) rest h s = h s

  try-Reads :
      (id : ℕ) (children : List Swarm) → Reads chance (try_children chance route id children)
  try-Reads id [] s = refl
  try-Reads id (c ∷ children) s = elim (Bool-cases c.enabled) [
    | inl e ↦ rw e (
        next-Reads (route c.id s).0 (try_children chance route id children) (try-Reads id children)
          (route c.id s).1
        ∙ reads c.id s)
    | inr e ↦ rw e (try-Reads id children s)
  ]

  children-Reads :
      (id : ℕ) (children : List Swarm) → Reads chance (route_children chance route id children)
  children-Reads id [] = found-Reads chance (route_by_fitness chance id) (fitness-Reads chance id)
  children-Reads id (c ∷ children) = try-Reads id (c ∷ children)

  by-Reads :
      (req : RouteTaskRequest) (id : ℕ) (strategy : RoutingStrategy)
      → Reads chance (route_by chance route req id strategy)
  unfolding route_round_robin route_by_load get_child_swarms
  by-Reads req id RoutingStrategy.round_robin = found-Reads chance (route_round_robin chance id) (
      bind-Reads chance _ (or_random chance id) (fetch-Reads chance "Round-robin query failed: " _)
        (or_random-Reads chance id))
  by-Reads req id RoutingStrategy.capability =
      found-Reads chance (route_by_capability chance id req.required_capabilities)
        (capability-Reads chance id req.required_capabilities)
  by-Reads req id RoutingStrategy.load = λ s. refl
  by-Reads req id RoutingStrategy.fitness =
      found-Reads chance (route_by_fitness chance id) (fitness-Reads chance id)
  by-Reads req id RoutingStrategy.hierarchical =
      bind-Reads chance (get_child_swarms id) (route_children chance route id)
        (fetch-Reads chance "Failed to fetch child swarms: " _) (children-Reads id)

  next_cases :
      (r : Result (Option ℕ)) (rest : Action (Tables F) (Option ℕ)) (s : Session (Tables F)) (a : ℕ)
      → (or_next chance r rest s).0 ≡ ok (some a)
      → (r ≡ ok (some a)) ⊎ ((rest s).0 ≡ ok (some a))
  next_cases (ok answer) rest s a h = inl h
  next_cases (err e) rest s a h = inr h

  try-Reaches :
      (id agent_id : ℕ) (t : Tables F)
      → ((c : ℕ) (s : Session (Tables F))
          → s.tables ≡ t
          → (route c s).0 ≡ ok (some agent_id)
          → Reaches t c agent_id)
      → (children : List Swarm) → All (λ c. is_child_of id c ≡ true) children
      → (s : Session (Tables F)) → s.tables ≡ t
      → (try_children chance route id children s).0 ≡ ok (some agent_id)
      → (below : Swarm) × (is_child_of id below ≡ true) × Reaches t below.id agent_id
  try-Reaches id agent_id t answers [] children s same h = cc
  try-Reaches id agent_id t answers (c ∷ rest) children s same h =
      let later : (s' : Session (Tables F))
          → s'.tables ≡ t
          → (try_children chance route id rest s').0 ≡ ok (some agent_id)
          → (below : Swarm) × (is_child_of id below ≡ true) × Reaches t below.id agent_id =
        try-Reaches id agent_id t answers rest children.1 in
      elim (Bool-cases c.enabled) [
        | inl e ↦
            elim (next_cases (route c.id s).0 (try_children chance route id rest) (route c.id s).1
              agent_id (rw e at h)) [
                | inl here ↦ (c, children.0, answers c.id s same here)
                | inr there ↦ later (route c.id s).1 (reads c.id s ∙ same) there
              ]
        | inr e ↦ later s same (rw e at h)
      ]

  children-Reaches :
      (id agent_id : ℕ) (t : Tables F) (swarm : Swarm)
      → ((c : ℕ) (s : Session (Tables F))
          → s.tables ≡ t
          → (route c s).0 ≡ ok (some agent_id)
          → Reaches t c agent_id)
      → find (has_id id) t.swarms ≡ some swarm
      → swarm.enabled ≡ true
      → (children : List Swarm) → All (λ c. is_child_of id c ≡ true) children
      → (s : Session (Tables F)) → s.tables ≡ t
      → (route_children chance route id children s).0 ≡ ok (some agent_id)
      → Reaches t id agent_id
  children-Reaches id a t swarm answers known enabled [] all s same h = member swarm known enabled (
      subst (λ u. Listed u id a) same
        (fitness-Listed chance id a s (found_answers chance (route_by_fitness chance id) s a h)))
  children-Reaches id a t swarm answers known enabled (c ∷ rest) all s same h =
      let (below, is_below, reached) = try-Reaches id a t answers (c ∷ rest) all s same h in
      child swarm below known enabled is_below reached

  by-Reaches :
      (req : RouteTaskRequest) (id agent_id : ℕ) (t : Tables F) (swarm : Swarm)
      → ((c : ℕ) (s : Session (Tables F))
          → s.tables ≡ t
          → (route c s).0 ≡ ok (some agent_id)
          → Reaches t c agent_id)
      → find (has_id id) t.swarms ≡ some swarm
      → swarm.enabled ≡ true
      → (strategy : RoutingStrategy) (s : Session (Tables F)) → s.tables ≡ t
      → (route_by chance route req id strategy s).0 ≡ ok (some agent_id)
      → Reaches t id agent_id
  unfolding get_child_swarms
  by-Reaches req id a t swarm answers known enabled RoutingStrategy.round_robin s same h =
      member swarm known enabled (
        subst (λ u. Listed u id a) same
          (round_robin-Listed chance id a s
            (found_answers chance (route_round_robin chance id) s a h)))
  by-Reaches req id a t swarm answers known enabled RoutingStrategy.capability s same h =
      member swarm known enabled (
        subst (λ u. Listed u id a) same
          (capability-Listed chance id a req.required_capabilities s
            (found_answers chance (route_by_capability chance id req.required_capabilities) s a h)))
  by-Reaches req id a t swarm answers known enabled RoutingStrategy.load s same h =
      absurd (load_fails chance id a s (found_answers chance (route_by_load chance id) s a h))
  by-Reaches req id a t swarm answers known enabled RoutingStrategy.fitness s same h =
      member swarm known enabled (
        subst (λ u. Listed u id a) same
          (fitness-Listed chance id a s (found_answers chance (route_by_fitness chance id) s a h)))
  by-Reaches req id a t swarm answers known enabled RoutingStrategy.hierarchical s same h =
      let what : String = "Failed to fetch child swarms: " in
      let read : Tables F → List Swarm =
        λ u. sort_by layer_before (filter (is_child_of id) u.swarms) in
      let (children, got, goes) =
        bind_answers (fetch what read) (route_children chance route id) s (some a) h in
      let (is_children, still) = fetch_reads what read s children got in
      let all : All (λ c. is_child_of id c ≡ true) children =
        subst (All (λ c. is_child_of id c ≡ true)) is_children (
          All-sort_by (λ c. is_child_of id c ≡ true) layer_before
            (filter (is_child_of id) s.tables.swarms)
            (filter-All (is_child_of id) s.tables.swarms)) in
      children-Reaches id a t swarm answers known enabled children all (fetch what read s).1
        (still ∙ same) (ap (λ p. p.0) (sym goes) ∙ h)

failed : (r : Result (Option ℕ)) (e : AmosError) (a : Option ℕ) → r ≡ err e → r ≡ ok a → ⊥
failed r e a h k = cc

module _ {F : Type 0} (chance : Chance F) where
  -- What `route_task` does with the swarm that it read.
  abbrev pub named : ℕ → RouteTaskRequest → ℕ → Swarm → Action (Tables F) (Option ℕ)
  named fuel req id swarm = do
    strategy ←
        or_raise (parse_strategy swarm.routing_strategy)
          (unknown_strategy chance swarm.routing_strategy)
    route_by chance (route_task chance fuel req) req id strategy

  abbrev pub within : ℕ → RouteTaskRequest → ℕ → Swarm → Action (Tables F) (Option ℕ)
  within fuel req id swarm =
      enabled_or chance swarm.enabled (swarm_disabled chance id) >>= λ _. named fuel req id swarm

  pub route_task-Reads :
      (fuel : ℕ) (req : RouteTaskRequest) (id : ℕ) → Reads chance (route_task chance fuel req id)
  unfolding route_task get_swarm
  route_task-Reads zero req id = λ s. refl
  route_task-Reads (suc fuel) req id =
      bind-Reads chance (get_swarm id)
        (λ read. or_raise read (no_swarm id) >>= λ swarm. within fuel req id swarm)
        (fetch-Reads chance "Failed to fetch swarm: " (λ t. find (has_id id) t.swarms))
        (λ read.
          bind-Reads chance (or_raise read (no_swarm id)) (within fuel req id)
            (raise-Reads chance read (no_swarm id))
            (λ swarm.
              bind-Reads chance (enabled_or chance swarm.enabled (swarm_disabled chance id))
                (λ _. named fuel req id swarm)
                (enabled-Reads chance swarm.enabled (swarm_disabled chance id))
                (λ _.
                  bind-Reads chance
                    (or_raise (parse_strategy swarm.routing_strategy)
                      (unknown_strategy chance swarm.routing_strategy))
                    (route_by chance (route_task chance fuel req) req id)
                    (raise-Reads chance (parse_strategy swarm.routing_strategy)
                      (unknown_strategy chance swarm.routing_strategy))
                    (λ strategy.
                      by-Reads chance (route_task chance fuel req) (route_task-Reads fuel req) req
                        id strategy))))

  within_answers :
      (fuel : ℕ) (req : RouteTaskRequest) (id agent_id : ℕ) (o : Option Swarm)
      (s : Session (Tables F))
      → ((or_raise o (no_swarm id) >>= within fuel req id) s).0 ≡ ok (some agent_id)
      → (swarm : Swarm) × (o ≡ some swarm)
        × (swarm.enabled ≡ true)
        × ((strategy : RoutingStrategy) × ((route_by chance
                (route_task chance fuel req)
                req
                id
                strategy
                s).0
              ≡ ok (some agent_id)))
  within_answers fuel req id a none s h = cc
  within_answers fuel req id a (some swarm) s h = elim (Bool-cases swarm.enabled) [
    | inl e ↦ elim (Option-cases (parse_strategy swarm.routing_strategy)) [
      | inl unknown ↦ absurd (
          failed _ (unknown_strategy chance swarm.routing_strategy) (some a) (rw (e, unknown) refl)
            h)
      | inr (strategy, parsed) ↦ (swarm, refl, e, (strategy, rw (e, parsed) at h))
    ]
    | inr e ↦ absurd (failed _ (swarm_disabled chance id) (some a) (rw e refl) h)
  ]

  -- A task for a swarm goes to a member of an enabled swarm: of this one or of one that is reached from
  -- it by going from enabled swarms to enabled children.
  pub route_task-Reaches :
      (fuel : ℕ) (req : RouteTaskRequest) (id agent_id : ℕ) (s : Session (Tables F))
      → (route_task chance fuel req id s).0 ≡ ok (some agent_id)
      → Reaches s.tables id agent_id
  unfolding route_task get_swarm
  route_task-Reaches zero req id a s h = cc
  route_task-Reaches (suc fuel) req id a s h =
      let what : String = "Failed to fetch swarm: " in
      let read : Tables F → Option Swarm = λ t. find (has_id id) t.swarms in
      let (o, got, goes) =
        bind_answers (fetch what read) (λ o. or_raise o (no_swarm id) >>= within fuel req id) s
          (some a) h in
      let (is_read, still) = fetch_reads what read s o got in
      let (swarm, is_swarm, enabled, (strategy, routed)) =
        within_answers fuel req id a o (fetch what read s).1 (ap (λ p. p.0) (sym goes) ∙ h) in
      by-Reaches chance (route_task chance fuel req) (route_task-Reads fuel req) req id a s.tables
        swarm
        (λ c s' same answered.
          subst (λ t. Reaches t c a) same (route_task-Reaches fuel req c a s' answered))
        (is_read ∙ is_swarm) enabled strategy (fetch what read s).1 still routed
