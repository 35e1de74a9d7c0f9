-- ===== src/Automation/Types.antt =====
-- The types of amos-harness/src/automations/mod.rs, the rows of the tables behind them, and the
-- reading of a row (`automation_from_row` of engine.rs).
use amos_platform.Prelude.{
  ℕ, Bool, String, Option, none, some, str_eq, if◌then◌else◌, Message, lit, [], ◌∷◌,
}
use amos_platform.Prelude.Values.{Json}
use amos_platform.Error.{Result, ok, ◌>>=◌, ok_or, internal}

pub data TriggerType : Type 0 where
  record_created record_updated record_deleted schedule : TriggerType
  webhook manual automation_completed : TriggerType

unfoldable pub trigger_str : TriggerType → String
trigger_str TriggerType.record_created = "record_created"
trigger_str TriggerType.record_updated = "record_updated"
trigger_str TriggerType.record_deleted = "record_deleted"
trigger_str TriggerType.schedule = "schedule"
trigger_str TriggerType.webhook = "webhook"
trigger_str TriggerType.manual = "manual"
trigger_str TriggerType.automation_completed = "automation_completed"

unfoldable pub parse_trigger : String → Option TriggerType
parse_trigger s =
    if str_eq s "record_created"
    then some TriggerType.record_created
    else if str_eq s "record_updated"
    then some TriggerType.record_updated
    else if str_eq s "record_deleted"
    then some TriggerType.record_deleted
    else if str_eq s "schedule"
    then some TriggerType.schedule
    else if str_eq s "webhook"
    then some TriggerType.webhook
    else if str_eq s "manual"
    then some TriggerType.manual
    else if str_eq s "automation_completed"
    then some TriggerType.automation_completed
    else none

pub data ActionType : Type 0 where
  create_record update_record send_notification : ActionType
  call_webhook run_agent_task create_bounty : ActionType

unfoldable pub action_str : ActionType → String
action_str ActionType.create_record = "create_record"
action_str ActionType.update_record = "update_record"
action_str ActionType.send_notification = "send_notification"
action_str ActionType.call_webhook = "call_webhook"
action_str ActionType.run_agent_task = "run_agent_task"
action_str ActionType.create_bounty = "create_bounty"

unfoldable pub parse_action : String → Option ActionType
parse_action s =
    if str_eq s "create_record"
    then some ActionType.create_record
    else if str_eq s "update_record"
    then some ActionType.update_record
    else if str_eq s "send_notification"
    then some ActionType.send_notification
    else if str_eq s "call_webhook"
    then some ActionType.call_webhook
    else if str_eq s "run_agent_task"
    then some ActionType.run_agent_task
    else if str_eq s "create_bounty"
    then some ActionType.create_bounty
    else none

pub record Automation : Type 0 where
  pub id : ℕ
  pub name : String
  pub description : Option String
  pub enabled : Bool
  pub trigger_type : TriggerType
  pub trigger_config : Json
  pub condition : Option Json
  pub action_type : ActionType
  pub action_config : Json
  pub created_at : ℕ
  pub updated_at : ℕ

pub record TriggerEvent : Type 0 where
  pub event_type : TriggerType
  pub collection : Option String
  pub record_id : Option ℕ
  pub event_data : Json

-- A row of the table `automations`, whose two kinds are texts.
pub record AutomationRow : Type 0 where
  pub id : ℕ
  pub name : String
  pub description : Option String
  pub enabled : Bool
  pub trigger_type : String
  pub trigger_config : Json
  pub condition : Option Json
  pub action_type : String
  pub action_config : Json
  pub created_at : ℕ
  pub updated_at : ℕ

-- A row of `automation_runs`; an error is a formatted text.
pub record AutomationRun : Type 0 where
  pub id : ℕ
  pub automation_id : ℕ
  pub trigger_data : Json
  pub status : String
  pub result : Option Json
  pub error : Option Message
  pub duration_ms : Option ℕ
  pub created_at : ℕ

-- A row of `automation_retry_queue`. The engine writes attempts from 1 up.
pub record RetryEntry : Type 0 where
  pub id : ℕ
  pub automation_id : ℕ
  pub action_type : String
  pub trigger_data : Json
  pub attempt : ℕ
  pub max_attempts : ℕ
  pub next_attempt_at : ℕ
  pub last_error : Option Message
  pub status : String
  pub created_at : ℕ
  pub updated_at : ℕ

unfoldable pub automation_from_row : AutomationRow → Result Automation
automation_from_row row = do
  trigger_type ←
      ok_or (parse_trigger row.trigger_type)
        (internal (lit "Unknown trigger_type in database: " ∷ lit row.trigger_type ∷ []))
  action_type ←
      ok_or (parse_action row.action_type)
        (internal (lit "Unknown action_type in database: " ∷ lit row.action_type ∷ []))
  ok (record {
    id = row.id;
    name = row.name;
    description = row.description;
    enabled = row.enabled;
    trigger_type = trigger_type;
    trigger_config = row.trigger_config;
    condition = row.condition;
    action_type = action_type;
    action_config = row.action_config;
    created_at = row.created_at;
    updated_at = row.updated_at;
  })
