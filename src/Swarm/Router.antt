-- ===== src/Swarm/Router.antt =====
-- `SwarmRouter` of amos-packages/amos-autoresearch/src/swarm/router.rs.
use amos_platform.Prelude.{
  ℕ, zero, suc, ◌+◌, ◌%◌, Bool, true, false, ◌&&◌, String, Option, none, some, List, [], ◌∷◌, ◌++◌,
  map, filter, find, head?, length, sort_by, get_elem?, leb, ◌==◌, if◌then◌else◌, unwrap_or,
  Message, lit, number, literal,
}
use amos_platform.Prelude.Values.{Json, Number, Items, str, array, nil, cons}
use amos_platform.Prelude.Entries.{contains}
use amos_platform.Error.{AmosError, Result, ok, err, internal, validation, ◌⊕◌}
use amos_platform.Database.{Action, pure, raise, or_raise, outcome, ◌>>=◌, ◌>>◌, fetch}
use amos_platform.Swarm.Types.{
  RoutingStrategy, Swarm, SwarmMember, RouteTaskRequest, AgentRow, Attribution, Tables,
  parse_strategy,
}
use amos_platform.Swarm.Manager.{no_swarm, in_swarm, get_swarm, get_child_swarms}

-- The operations on `f64` that the router calls, and what is drawn at random: a place in a list of a
-- length, and a number below a total, each at a number of the draw.
pub record Chance (F : Type 0) : Type 0 where
  pub one : F
  pub zero_f : F
  pub plus : F → F → F
  pub minus : F → F → F
  -- `f.max(0.01)` and `f <= 0.0`
  pub clamped : F → F
  pub is_spent : F → Bool
  -- `ORDER BY weight DESC`
  pub heavier : F → F → Bool
  -- PostgreSQL's equality of numbers in jsonb values, by `@>`.
  pub same_number : Number → Number → Bool
  pub place : ℕ → ℕ → ℕ
  pub gen_range : ℕ → F → F
  -- What PostgreSQL says of the query of `route_by_load`.
  pub load_refusal : Message

abbrev pub draw : {F : Type 0} → Action (Tables F) ℕ
draw s = (ok s.drawn, record s { drawn = s.drawn + 1 })

abbrev pub no_members : ℕ → AmosError
no_members swarm_id = validation (lit "Swarm " ∷ number swarm_id ∷ lit " has no members" ∷ [])

-- The creation times of the attributions of a member, with one null where it has none.
abbrev pub for_member : ℕ → ℕ → Attribution → Bool
for_member swarm_id agent_id a =
    a.agent_id == agent_id && elim a.swarm_id [ none ↦ false | some id ↦ id == swarm_id ]

abbrev pub or_null : ℕ → List (ℕ × Option ℕ) → List (ℕ × Option ℕ)
or_null agent_id [] = (agent_id, none) ∷ []
or_null agent_id (r ∷ rows) = r ∷ rows

abbrev pub attributed : ℕ → List Attribution → List (ℕ × Option ℕ)
attributed agent_id rows = map (λ a. (agent_id, some a.created_at)) rows

-- `ORDER BY ta.created_at ASC NULLS FIRST`
abbrev pub nulls_first : ℕ × Option ℕ → ℕ × Option ℕ → Bool
nulls_first (a, none) (b, t) = true
nulls_first (a, some t) (b, none) = false
nulls_first (a, some t) (b, some u) = leb t u

-- `to_value` of texts, a JSON array.
abbrev pub caps_items : List String → Items
caps_items [] = nil
caps_items (c ∷ caps) = cons (str c) (caps_items caps)

abbrev pub has_capabilities : (Number → Number → Bool) → Json → ℕ → List AgentRow → Bool
has_capabilities same_number caps_json agent_id agents =
    elim (find (λ a. a.id == agent_id) agents) [
      | none ↦ false
      | some a ↦ contains same_number a.capabilities caps_json
    ]

abbrev pub first_use : Option (ℕ × Option ℕ) → Option ℕ
first_use none = none
first_use (some (agent_id, t)) = some agent_id

module _ {F : Type 0} where
  abbrev pub agent_of : Option (SwarmMember F) → Option ℕ
  agent_of none = none
  agent_of (some m) = some m.agent_id

  abbrev pub members_of : ℕ → Tables F → List (SwarmMember F)
  members_of swarm_id t = filter (in_swarm swarm_id) t.members

  -- The rows of the left join.
  abbrev pub last_uses : ℕ → List (SwarmMember F) → List Attribution → List (ℕ × Option ℕ)
  last_uses swarm_id [] attributions = []
  last_uses swarm_id (m ∷ members) attributions =
      or_null m.agent_id
        (attributed m.agent_id (filter (for_member swarm_id m.agent_id) attributions))
      ++ last_uses swarm_id members attributions

  abbrev pub least_recent : ℕ → Tables F → Option ℕ
  least_recent swarm_id t =
      first_use
        (head? (sort_by nulls_first (last_uses swarm_id (members_of swarm_id t) t.attributions)))

  abbrev pub last_agent : ℕ → List (ℕ × F) → ℕ
  last_agent agent_id [] = agent_id
  last_agent agent_id ((next, f) ∷ pairs) = last_agent next pairs

module _ {F : Type 0} (chance : Chance F) where
  abbrev pub drawn_member : ℕ → ℕ → Tables F → Option (SwarmMember F)
  drawn_member n swarm_id t =
      let rows = members_of swarm_id t in
      get_elem? rows (chance.place n (length rows) % length rows)

  unfoldable pub random_member : ℕ → Action (Tables F) ℕ
  random_member swarm_id = do
    n ← draw
    row ← fetch "Random member query failed: " (λ t. agent_of (drawn_member n swarm_id t))
    or_raise row (no_members swarm_id)

  abbrev pub or_random : ℕ → Option ℕ → Action (Tables F) ℕ
  or_random swarm_id (some agent_id) = pure agent_id
  or_random swarm_id none = random_member swarm_id

  unfoldable pub route_round_robin : ℕ → Action (Tables F) ℕ
  unfolding random_member
  route_round_robin swarm_id = do
    row ← fetch "Round-robin query failed: " (least_recent swarm_id)
    or_random swarm_id row

  abbrev pub capable : List String → ℕ → Tables F → Option ℕ
  capable caps swarm_id t = agent_of (
      head? (
        sort_by (λ a b. chance.heavier a.weight b.weight)
          (filter
            (λ m. has_capabilities chance.same_number (array (caps_items caps)) m.agent_id t.agents)
            (members_of swarm_id t))))

  unfoldable pub route_by_capability : ℕ → Option (List String) → Action (Tables F) ℕ
  unfolding random_member
  route_by_capability swarm_id none = random_member swarm_id
  route_by_capability swarm_id (some []) = random_member swarm_id
  route_by_capability swarm_id (some (c ∷ caps)) = do
    row ← fetch "Capability routing query failed: " (capable (c ∷ caps) swarm_id)
    or_random swarm_id row

  -- The query orders by a column that it does not group by and joins on `tasks.assigned_agent_id`,
  -- which the table does not have: PostgreSQL refuses it.
  unfoldable pub route_by_load : ℕ → Action (Tables F) ℕ
  route_by_load swarm_id =
      raise (internal (literal "Load routing query failed: " ⊕ chance.load_refusal))

  abbrev pub fitness_pairs : List (SwarmMember F) → List (ℕ × F)
  fitness_pairs rows =
      map (λ m. (m.agent_id, chance.clamped (unwrap_or m.fitness_score chance.one))) rows

  -- `iter().sum()`
  abbrev pub total_from : F → List (ℕ × F) → F
  total_from acc [] = acc
  total_from acc ((agent_id, f) ∷ pairs) = total_from (chance.plus acc f) pairs

  -- The loop that subtracts from the picked number.
  abbrev pub pick_fit : List (ℕ × F) → F → Option ℕ
  pick_fit [] pick = none
  pick_fit ((agent_id, f) ∷ pairs) pick =
      let left = chance.minus pick f in
      let rest = pick_fit pairs left in if chance.is_spent left then some agent_id else rest

  -- The agent that is selected, where there are members.
  abbrev pub select_fit : List (ℕ × F) → F → Option ℕ
  select_fit [] pick = none
  select_fit ((agent_id, f) ∷ pairs) pick =
      some (unwrap_or (pick_fit ((agent_id, f) ∷ pairs) pick) (last_agent agent_id pairs))

  -- The number that is drawn where there are no members is not used.
  unfoldable pub route_by_fitness : ℕ → Action (Tables F) ℕ
  route_by_fitness swarm_id = do
    rows ← fetch "Fitness routing query failed: " (members_of swarm_id)
    n ← draw
    let pairs = fitness_pairs rows
    or_raise (select_fit pairs (chance.gen_range n (total_from chance.zero_f pairs)))
        (no_members swarm_id)

  abbrev pub swarm_disabled : ℕ → AmosError
  swarm_disabled swarm_id = validation (lit "Swarm " ∷ number swarm_id ∷ lit " is disabled" ∷ [])

  abbrev pub unknown_strategy : String → AmosError
  unknown_strategy s = validation (lit "Unknown routing strategy: " ∷ lit s ∷ [])

  abbrev pub exhausted : ℕ → AmosError
  exhausted parent_id =
      internal (lit "Hierarchical routing exhausted all child swarms of " ∷ number parent_id ∷ [])

  abbrev pub enabled_or : Bool → AmosError → Action (Tables F) (Unit {0})
  enabled_or true e = pure tt
  enabled_or false e = raise e

  -- An answer that was found on the fuel given.
  abbrev pub found : Action (Tables F) ℕ → Action (Tables F) (Option ℕ)
  found m = do agent_id ← m; pure (some agent_id)

  -- What the loop over the children does with the outcome of one.
  abbrev pub or_next :
      Result (Option ℕ) → Action (Tables F) (Option ℕ) → Action (Tables F) (Option ℕ)
  or_next (ok answer) rest = pure answer
  or_next (err e) rest = rest

  -- The loop, by a function that routes within one child.
  abbrev pub try_children :
      (ℕ → Action (Tables F) (Option ℕ)) → ℕ → List Swarm → Action (Tables F) (Option ℕ)
  try_children route parent_id [] = raise (exhausted parent_id)
  try_children route parent_id (child ∷ children) =
      let rest = try_children route parent_id children in
      if child.enabled then (outcome (route child.id) >>= λ r. or_next r rest) else rest

  abbrev pub route_children :
      (ℕ → Action (Tables F) (Option ℕ)) → ℕ → List Swarm → Action (Tables F) (Option ℕ)
  route_children route parent_id [] = found (route_by_fitness parent_id)
  route_children route parent_id (child ∷ children) =
      try_children route parent_id (child ∷ children)

  abbrev pub route_by :
      (ℕ → Action (Tables F) (Option ℕ))
      → RouteTaskRequest
      → ℕ
      → RoutingStrategy
      → Action (Tables F) (Option ℕ)
  route_by route req swarm_id RoutingStrategy.round_robin = found (route_round_robin swarm_id)
  route_by route req swarm_id RoutingStrategy.capability =
      found (route_by_capability swarm_id req.required_capabilities)
  route_by route req swarm_id RoutingStrategy.load = found (route_by_load swarm_id)
  route_by route req swarm_id RoutingStrategy.fitness = found (route_by_fitness swarm_id)
  route_by route req swarm_id RoutingStrategy.hierarchical = do
    children ← get_child_swarms swarm_id
    route_children route swarm_id children

  -- A route on fuel: `none` is a call that has not returned yet.
  unfoldable pub route_task : ℕ → RouteTaskRequest → ℕ → Action (Tables F) (Option ℕ)
  route_task zero req swarm_id = pure none
  route_task (suc fuel) req swarm_id = do
    read ← get_swarm swarm_id
    swarm ← or_raise read (no_swarm swarm_id)
    enabled_or swarm.enabled (swarm_disabled swarm_id)
    strategy ←
        or_raise (parse_strategy swarm.routing_strategy) (unknown_strategy swarm.routing_strategy)
    route_by (route_task fuel req) req swarm_id strategy
