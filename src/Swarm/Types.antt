-- ===== src/Swarm/Types.antt =====
-- The types of amos-packages/amos-autoresearch/src/types.rs that concern swarms, and the tables that
-- the swarms live in. The type `F` stands for `f64`.
use amos_platform.Prelude.{ℕ, ℤ, Bool, String, str_eq, Option, none, some, List, if◌then◌else◌}
use amos_platform.Prelude.Values.{Json}

pub data RoutingStrategy : Type 0 where
  round_robin capability load fitness hierarchical : RoutingStrategy

-- `RoutingStrategy::parse`
unfoldable pub parse_strategy : String → Option RoutingStrategy
parse_strategy s =
    if str_eq s "round_robin"
    then some RoutingStrategy.round_robin
    else if str_eq s "capability"
    then some RoutingStrategy.capability
    else if str_eq s "load"
    then some RoutingStrategy.load
    else if str_eq s "fitness"
    then some RoutingStrategy.fitness
    else if str_eq s "hierarchical"
    then some RoutingStrategy.hierarchical
    else none

pub record Swarm : Type 0 where
  pub id : ℕ
  pub name : String
  pub description : Option String
  pub parent_swarm_id : Option ℕ
  pub layer_order : ℤ
  pub routing_strategy : String
  pub max_agents : ℤ
  pub enabled : Bool
  pub domain : String
  pub metadata : Json
  pub created_at : ℕ
  pub updated_at : ℕ

pub record SwarmMember (F : Type 0) : Type 0 where
  pub id : ℕ
  pub swarm_id : ℕ
  pub agent_id : ℕ
  pub weight : F
  pub fitness_score : Option F
  pub role : String
  pub joined_at : ℕ

pub record CreateSwarmRequest : Type 0 where
  pub name : String
  pub description : Option String
  pub parent_swarm_id : Option ℕ
  pub layer_order : Option ℤ
  pub routing_strategy : Option String
  pub max_agents : Option ℤ
  pub domain : Option String
  pub metadata : Option Json

pub record UpdateSwarmRequest : Type 0 where
  pub name : Option String
  pub description : Option String
  pub routing_strategy : Option String
  pub max_agents : Option ℤ
  pub enabled : Option Bool
  pub domain : Option String
  pub metadata : Option Json

pub record AddMemberRequest (F : Type 0) : Type 0 where
  pub agent_id : ℕ
  pub role : Option String
  pub weight : Option F

pub record RouteTaskRequest : Type 0 where
  pub task_description : String
  pub required_capabilities : Option (List String)
  pub metadata : Option Json

-- The columns of `openclaw_agents` and `agent_task_attribution` that the router reads.
pub record AgentRow : Type 0 where
  pub id : ℕ
  pub capabilities : Json

pub record Attribution : Type 0 where
  pub agent_id : ℕ
  pub swarm_id : Option ℕ
  pub created_at : ℕ

pub record Tables (F : Type 0) : Type 0 where
  pub swarms : List Swarm
  pub members : List (SwarmMember F)
  pub agents : List AgentRow
  pub attributions : List Attribution
