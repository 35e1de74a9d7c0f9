-- ===== src/Automation/Codes.antt =====
-- The texts of the trigger and action types of amos-harness/src/automations/mod.rs.
use amos_platform.Prelude.{◌≡◌, refl, some}
use amos_platform.Automation.Types.{
  TriggerType, ActionType, trigger_str, parse_trigger, action_str, parse_action,
}

pub trigger_read : (t : TriggerType) → parse_trigger (trigger_str t) ≡ some t
unfolding trigger_str parse_trigger
trigger_read TriggerType.record_created = refl
trigger_read TriggerType.record_updated = refl
trigger_read TriggerType.record_deleted = refl
trigger_read TriggerType.schedule = refl
trigger_read TriggerType.webhook = refl
trigger_read TriggerType.manual = refl
trigger_read TriggerType.automation_completed = refl

pub action_read : (a : ActionType) → parse_action (action_str a) ≡ some a
unfolding action_str parse_action
action_read ActionType.create_record = refl
action_read ActionType.update_record = refl
action_read ActionType.send_notification = refl
action_read ActionType.call_webhook = refl
action_read ActionType.run_agent_task = refl
action_read ActionType.create_bounty = refl
