-- ===== src/Swarm/Tests.antt =====
-- Runs of the swarm manager and router on a small company: a hierarchical swarm 1 with a disabled
-- child 3 in front of the child 2.
use amos_platform.Prelude.{
  ℕ, ◌+◌, ◌-◌, ◌≡◌, refl, arith, Bool, true, false, max, leb, ltb, pos, ◌≤ℤ◌, Option, none, some,
  [], ◌∷◌, find, length, literal, ◌⊎◌, String, if◌then◌else◌,
}
use amos_platform.Prelude.Values.{number_eq, object, empty, array, cons, nil, str}
use amos_platform.Error.{AmosError, ok, err}
use amos_platform.Database.{Session}
use amos_platform.Swarm.Types.{
  Swarm, SwarmMember, CreateSwarmRequest, UpdateSwarmRequest, AddMemberRequest, RouteTaskRequest,
  Tables, parse_strategy,
}
use amos_platform.Swarm.Manager.{
  has_id, get_swarm, get_child_swarms, create_swarm, update_swarm, delete_swarm, add_member,
  swarm_full,
}
use amos_platform.Swarm.Router.{Chance, members_of, route_by_capability, route_task}
use amos_platform.Swarm.Capacity.{IsAdded, add_member-IsAdded}
use amos_platform.Swarm.Family.{route_task_ends}
use amos_platform.Swarm.Routed.{Reaches, route_task-Reaches}
use amos_platform.Swarm.Acyclic.{IsAcyclic, manager-IsAcyclic}

abbrev swarm : ℕ → Option ℕ → String → Bool → Swarm
swarm id parent strategy enabled = record {
  id = id;
  name = "swarm";
  description = none;
  parent_swarm_id = parent;
  layer_order = pos 0;
  routing_strategy = strategy;
  max_agents = pos 2;
  enabled = enabled;
  domain = "general";
  metadata = object empty;
  created_at = 10 - id;
  updated_at = 0;
}

abbrev member : ℕ → ℕ → SwarmMember ℕ
member swarm_id agent_id = record {
  id = 100 + agent_id;
  swarm_id = swarm_id;
  agent_id = agent_id;
  weight = 1;
  fitness_score = none;
  role = "worker";
  joined_at = 0;
}

abbrev company : Tables ℕ
company = record {
  swarms =
      swarm 1 none "hierarchical" true
      ∷ swarm 2 (some 1) "capability" true
      ∷ swarm 3 (some 1) "fitness" false
      ∷ swarm 4 none "load" true
      ∷ [];
  members = member 3 5 ∷ member 2 6 ∷ member 4 8 ∷ member 4 9 ∷ [];
  agents = record { id = 6; capabilities = array (cons (str "rust") nil) } ∷ [];
  attributions = [];
}

abbrev session : Session (Tables ℕ)
session = record { tables = company; now = 50; uuids = λ n. 20 + n; drawn = 0; faults = [] }

abbrev chance : Chance ℕ
chance = record {
  one = 1;
  zero_f = 0;
  plus = λ a b. a + b;
  minus = λ a b. a - b;
  clamped = λ f. max f 1;
  is_spent = λ f. leb f 0;
  heavier = λ a b. leb b a;
  same_number = number_eq;
  place = λ n len. n;
  gen_range = λ n f. 0;
  load_refusal = literal "column t.assigned_agent_id does not exist";
}

abbrev task : RouteTaskRequest
task = record {
  task_description = "write a parser";
  required_capabilities = some ("rust" ∷ []);
  metadata = none;
}

route_is_6 : (route_task chance 2 task 1 session).0 ≡ ok (some 6)
unfolding route_task get_swarm parse_strategy get_child_swarms route_by_capability
route_is_6 = refl

route_task-Reaches_example : Reaches company 1 6
unfolding route_task get_swarm parse_strategy get_child_swarms route_by_capability
route_task-Reaches_example = route_task-Reaches chance 2 task 1 6 session refl

abbrev depth : ℕ → ℕ
depth id = if ltb 1 id then 0 else 1

route_task_ends_example :
    ((agent_id : ℕ) × ((route_task chance 2 task 1 session).0 ≡ ok (some agent_id)))
    ⊎ ((e : AmosError) × ((route_task chance 2 task 1 session).0 ≡ err e))
route_task_ends_example =
    route_task_ends chance depth 2 task 1 session (tt, (omega arith, (omega arith, (tt, tt))))
      (omega arith)

abbrev creation : CreateSwarmRequest
creation = record {
  name = "writers";
  description = none;
  parent_swarm_id = some 2;
  layer_order = none;
  routing_strategy = none;
  max_agents = none;
  domain = none;
  metadata = none;
}

abbrev changes : UpdateSwarmRequest
changes = record {
  name = none;
  description = none;
  routing_strategy = some "fitness";
  max_agents = none;
  enabled = none;
  domain = none;
  metadata = none;
}

manager-IsAcyclic_example :
    IsAcyclic (create_swarm creation session).1.tables
    × IsAcyclic (update_swarm 1 changes session).1.tables
    × IsAcyclic (delete_swarm 1 session).1.tables
manager-IsAcyclic_example =
    manager-IsAcyclic creation 1 changes session
      (depth, (tt, (omega arith, (omega arith, (tt, tt)))))
      ((refl, refl), ((refl, refl), ((refl, refl), ((refl, refl), tt)))) refl

abbrev request : AddMemberRequest ℕ
request = record { agent_id = 7; role = none; weight = none }

abbrev added : SwarmMember ℕ
added = record (member 2 7) { id = 20; joined_at = 50 }

add_member-IsAdded_example :
    (s : Swarm) × (find (has_id 2) company.swarms ≡ some s)
    × (pos (length (members_of 2 (add_member 1 2 request session).1.tables)) ≤ℤ s.max_agents)
    × IsAdded 1 2 request company added (add_member 1 2 request session).1.tables
unfolding add_member get_swarm
add_member-IsAdded_example = add_member-IsAdded 1 2 request session added refl

-- A full swarm takes no one.
swarm_is_full : (add_member 1 4 request session).0 ≡ err (swarm_full (pos 2))
unfolding add_member get_swarm
swarm_is_full = refl
