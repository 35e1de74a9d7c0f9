-- ===== src/Automation/Matching.antt =====
-- Which automations an event starts: `find_matching_automations` and `evaluate_condition` of
-- amos-harness/src/automations/engine.rs.
use amos_platform.Prelude.{
  Bool, true, false, ◌&&◌, String, Option, none, some, List, [], ◌∷◌, filter, if◌then◌else◌, str_eq,
  and_then, unwrap_or,
}
use amos_platform.Prelude.Values.{
  json_eq, Json, Fields, object, empty, field, get, get_field, as_str,
}
use amos_platform.Error.{Result, ok, err}
use amos_platform.Database.{Action, ◌>>=◌, answer, fetch}
use amos_platform.Automation.Types.{
  Automation, AutomationRow, TriggerEvent, TriggerType, trigger_str, automation_from_row,
}
use amos_platform.Automation.Webhook.{Tables}

-- The arms of the `match` on one expected entry.
abbrev pub is_expected : Json → Option Json → Bool
is_expected expected none = false
is_expected expected (some actual) = json_eq actual expected

unfoldable pub all_expected : Fields → Fields → Bool
all_expected empty values = true
all_expected (field key expected fs) values =
    let rest = all_expected fs values in
    if is_expected expected (get_field key values) then rest else false

abbrev pub is_empty_object : Fields → Bool
is_empty_object empty = true
is_empty_object (field _ _ _) = false

unfoldable pub evaluate_condition : Json → Json → Bool
unfolding all_expected
evaluate_condition (object cond_obj) (object data_obj) = all_expected cond_obj data_obj
evaluate_condition (object cond_obj) _ = is_empty_object cond_obj
evaluate_condition _ values = true

abbrev pub text_at : Json → String → Option String
text_at value key = and_then (get value key) as_str

abbrev is_record_event : TriggerType → Bool
is_record_event TriggerType.record_created = true
is_record_event TriggerType.record_updated = true
is_record_event TriggerType.record_deleted = true
is_record_event _ = false

abbrev collections_match : Option String → Option String → Bool
collections_match (some config_col) (some event_col) = str_eq config_col event_col
collections_match _ _ = true

abbrev pub collection_fits : Automation → TriggerEvent → Bool
collection_fits automation event =
    if is_record_event event.event_type
    then collections_match (text_at automation.trigger_config "collection") event.collection
    else true

abbrev is_chain_event : TriggerType → Bool
is_chain_event TriggerType.automation_completed = true
is_chain_event _ = false

abbrev source_matches : Option String → String → Bool
source_matches none source = true
source_matches (some required) source = str_eq required source

abbrev pub source_fits : Automation → TriggerEvent → Bool
source_fits automation event =
    if is_chain_event event.event_type
    then source_matches (text_at automation.trigger_config "automation_id")
        (unwrap_or (text_at event.event_data "source_automation_id") "")
    else true

unfoldable pub condition_holds : Option Json → Json → Bool
unfolding evaluate_condition
condition_holds none values = true
condition_holds (some condition) values = evaluate_condition condition values

abbrev pub fires : TriggerEvent → Automation → Bool
fires event automation =
    collection_fits automation event
    && source_fits automation event
    && condition_holds automation.condition event.event_data

-- One turn of the loop: `?` on a row that is not read, and `continue` where a test fails.
abbrev pub add_matching :
    TriggerEvent → Result Automation → Result (List Automation) → Result (List Automation)
add_matching event (err e) rest = err e
add_matching event (ok automation) (err e) = err e
add_matching event (ok automation) (ok matching) =
    ok (if fires event automation then automation ∷ matching else matching)

unfoldable pub matching_rows : TriggerEvent → List AutomationRow → Result (List Automation)
matching_rows event [] = ok []
matching_rows event (row ∷ rows) =
    add_matching event (automation_from_row row) (matching_rows event rows)

abbrev pub is_triggered : TriggerEvent → AutomationRow → Bool
is_triggered event row = str_eq row.trigger_type (trigger_str event.event_type) && row.enabled

unfoldable pub find_matching_automations : TriggerEvent → Action Tables (List Automation)
unfolding matching_rows
find_matching_automations event = do
  rows ← fetch "Failed to query automations: " (λ t. filter (is_triggered event) t.automations)
  answer (matching_rows event rows)
