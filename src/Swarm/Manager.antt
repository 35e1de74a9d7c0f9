-- ===== src/Swarm/Manager.antt =====
-- `SwarmManager` of amos-packages/amos-autoresearch/src/swarm/mod.rs.
use amos_platform.Prelude.{
  ℕ, zero, suc, ℤ, pos, ltb_ℤ, leb, Bool, true, false, not, ◌&&◌, String, Option, none, some, List,
  [], ◌∷◌, ◌++◌, filter, find, length, sort_by, update_where, ◌==◌, if◌then◌else◌, unwrap_or, lit,
  number, integer, literal,
}
use amos_platform.Prelude.Values.{object, empty}
use amos_platform.Error.{AmosError, not_found, validation}
use amos_platform.Database.{
  Action, pure, raise, or_raise, ◌>>=◌, ◌>>◌, utc_now, new_v4, execute, fetch,
}
use amos_platform.Swarm.Types.{
  Swarm, SwarmMember, CreateSwarmRequest, UpdateSwarmRequest, AddMemberRequest, Tables,
}

abbrev pub no_swarm : ℕ → AmosError
no_swarm id = not_found (literal "Swarm") (number id ∷ [])

abbrev no_member : ℕ → ℕ → AmosError
no_member swarm_id agent_id =
    not_found (literal "SwarmMember")
      (lit "swarm=" ∷ number swarm_id ∷ lit ", agent=" ∷ number agent_id ∷ [])

abbrev pub swarm_full : ℤ → AmosError
swarm_full max_agents =
    validation (lit "Swarm has reached its maximum of " ∷ integer max_agents ∷ lit " agents" ∷ [])

abbrev pub has_id : ℕ → Swarm → Bool
has_id id s = s.id == id

-- `Option::or`
abbrev or_else : Option String → Option String → Option String
or_else none o = o
or_else (some a) o = some a

abbrev pub new_swarm : ℕ → ℕ → CreateSwarmRequest → Swarm
new_swarm id now req = record {
  id = id;
  name = req.name;
  description = req.description;
  parent_swarm_id = req.parent_swarm_id;
  layer_order = unwrap_or req.layer_order (pos 0);
  routing_strategy = unwrap_or req.routing_strategy "round_robin";
  max_agents = unwrap_or req.max_agents (pos 10);
  enabled = true;
  domain = unwrap_or req.domain "general";
  metadata = unwrap_or req.metadata (object empty);
  created_at = now;
  updated_at = now;
}

-- What the update writes: the request's fields where they are given, else those read before.
abbrev pub updated : UpdateSwarmRequest → Swarm → ℕ → Swarm → Swarm
updated req current now row = record row {
  name = unwrap_or req.name current.name;
  description = or_else req.description current.description;
  routing_strategy = unwrap_or req.routing_strategy current.routing_strategy;
  max_agents = unwrap_or req.max_agents current.max_agents;
  enabled = unwrap_or req.enabled current.enabled;
  domain = unwrap_or req.domain current.domain;
  metadata = unwrap_or req.metadata current.metadata;
  updated_at = now;
}

-- `ON DELETE SET NULL` of the children of a deleted swarm.
abbrev pub orphaned : ℕ → Swarm → Swarm
orphaned id s = record s { parent_swarm_id = none }

abbrev pub is_child_of : ℕ → Swarm → Bool
is_child_of parent_id s = elim s.parent_swarm_id [ none ↦ false | some p ↦ p == parent_id ]

-- `ORDER BY layer_order ASC, created_at ASC`
abbrev pub layer_before : Swarm → Swarm → Bool
layer_before a b =
    if ltb_ℤ a.layer_order b.layer_order
    then true
    else if ltb_ℤ b.layer_order a.layer_order
    then false
    else leb a.created_at b.created_at

abbrev if_affected : {F : Type 0} → AmosError → ℕ → Action (Tables F) (Unit {0})
if_affected e zero = raise e
if_affected e (suc n) = pure tt

module _ {F : Type 0} where
  abbrev pub in_swarm : ℕ → SwarmMember F → Bool
  in_swarm swarm_id m = m.swarm_id == swarm_id

  abbrev pub is_member : ℕ → ℕ → SwarmMember F → Bool
  is_member swarm_id agent_id m = m.swarm_id == swarm_id && m.agent_id == agent_id

  unfoldable pub create_swarm : CreateSwarmRequest → Action (Tables F) Swarm
  create_swarm req = do
    id ← new_v4
    now ← utc_now
    let swarm = new_swarm id now req
    execute "Failed to create swarm: "
        (λ t. (swarm, record t { swarms = t.swarms ++ (swarm ∷ []) }))

  unfoldable pub get_swarm : ℕ → Action (Tables F) (Option Swarm)
  get_swarm id = fetch "Failed to fetch swarm: " (λ t. find (has_id id) t.swarms)

  unfoldable pub list_swarms : Action (Tables F) (List Swarm)
  list_swarms =
      fetch "Failed to list swarms: " (λ t. sort_by (λ a b. leb a.created_at b.created_at) t.swarms)

  unfoldable pub list_enabled_swarms : Action (Tables F) (List Swarm)
  list_enabled_swarms =
      fetch "Failed to list enabled swarms: "
        (λ t. sort_by (λ a b. leb a.created_at b.created_at) (filter (λ s. s.enabled) t.swarms))

  -- The row that the update returns, which is one of its id.
  unfoldable pub update_swarm : ℕ → UpdateSwarmRequest → Action (Tables F) Swarm
  unfolding get_swarm
  update_swarm id req = do
    found ← get_swarm id
    current ← or_raise found (no_swarm id)
    now ← utc_now
    execute "Failed to update swarm: " (λ t. (
      updated req current now current,
      record t { swarms = update_where (has_id id) (updated req current now) t.swarms },
    ))

  -- The second statement takes with the swarm its members, by `ON DELETE CASCADE`, and makes its
  -- children roots.
  unfoldable pub delete_swarm : ℕ → Action (Tables F) (Unit {0})
  delete_swarm id = do
    execute "Failed to delete swarm members: "
        (λ t. (tt, record t { members = filter (λ m. not (in_swarm id m)) t.members }))
    rows_affected ← execute "Failed to delete swarm: " (λ t. (
      length (filter (has_id id) t.swarms),
      record t {
        swarms =
            update_where (is_child_of id) (orphaned id) (filter (λ s. not (has_id id s)) t.swarms);
        members = filter (λ m. not (in_swarm id m)) t.members;
      },
    ))
    if_affected (no_swarm id) rows_affected

  abbrev pub new_member : F → ℕ → ℕ → AddMemberRequest F → ℕ → SwarmMember F
  new_member one id swarm_id req now = record {
    id = id;
    swarm_id = swarm_id;
    agent_id = req.agent_id;
    weight = unwrap_or req.weight one;
    fitness_score = none;
    role = unwrap_or req.role "worker";
    joined_at = now;
  }

  abbrev pub raise_if : Bool → AmosError → Action (Tables F) (Unit {0})
  raise_if true e = raise e
  raise_if false e = pure tt

  -- The first argument is `1.0`.
  unfoldable pub add_member : F → ℕ → AddMemberRequest F → Action (Tables F) (SwarmMember F)
  unfolding get_swarm
  add_member one swarm_id req = do
    found ← get_swarm swarm_id
    swarm ← or_raise found (no_swarm swarm_id)
    member_count ←
        fetch "Failed to count members: " (λ t. length (filter (in_swarm swarm_id) t.members))
    raise_if (not (ltb_ℤ (pos member_count) swarm.max_agents)) (swarm_full swarm.max_agents)
    id ← new_v4
    now ← utc_now
    let member = new_member one id swarm_id req now
    execute "Failed to add swarm member: "
        (λ t. (member, record t { members = t.members ++ (member ∷ []) }))

  unfoldable pub remove_member : ℕ → ℕ → Action (Tables F) (Unit {0})
  remove_member swarm_id agent_id = do
    rows_affected ← execute "Failed to remove swarm member: " (λ t. (
      length (filter (is_member swarm_id agent_id) t.members),
      record t { members = filter (λ m. not (is_member swarm_id agent_id m)) t.members },
    ))
    if_affected (no_member swarm_id agent_id) rows_affected

  unfoldable pub list_members : ℕ → Action (Tables F) (List (SwarmMember F))
  list_members swarm_id =
      fetch "Failed to list swarm members: "
        (λ t. sort_by (λ a b. leb a.joined_at b.joined_at) (filter (in_swarm swarm_id) t.members))

  unfoldable pub get_child_swarms : ℕ → Action (Tables F) (List Swarm)
  get_child_swarms parent_id =
      fetch "Failed to fetch child swarms: "
        (λ t. sort_by layer_before (filter (is_child_of parent_id) t.swarms))

  -- The two updates of one column of a member.
  abbrev change_member :
      String → (SwarmMember F → SwarmMember F) → ℕ → ℕ → Action (Tables F) (Unit {0})
  change_member what f swarm_id agent_id = do
    rows_affected ← execute what (λ t. (
      length (filter (is_member swarm_id agent_id) t.members),
      record t { members = update_where (is_member swarm_id agent_id) f t.members },
    ))
    if_affected (no_member swarm_id agent_id) rows_affected

  unfoldable pub update_member_weight : ℕ → ℕ → F → Action (Tables F) (Unit {0})
  update_member_weight swarm_id agent_id weight =
      change_member "Failed to update member weight: " (λ m. record m { weight = weight }) swarm_id
        agent_id

  unfoldable pub update_member_fitness : ℕ → ℕ → F → Action (Tables F) (Unit {0})
  update_member_fitness swarm_id agent_id fitness =
      change_member "Failed to update member fitness: "
        (λ m. record m { fitness_score = some fitness }) swarm_id agent_id
