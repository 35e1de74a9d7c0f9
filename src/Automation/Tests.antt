-- ===== src/Automation/Tests.antt =====
-- Runs of the automations of amos-harness/src/automations/engine.rs.
use amos_platform.Prelude.{
  String, str_eq, Bool-cases, inl, inr, ℕ, ◌+◌, ◌≤◌, ◌≡◌, refl, arith, true, none, some, List, [],
  ◌∷◌, All, length, sum_by, literal,
}
use amos_platform.Prelude.Values.{Json, object, empty, field, str}
use amos_platform.Error.{ok}
use amos_platform.Database.{Session}
use amos_platform.Automation.Types.{
  AutomationRow, RetryEntry, TriggerEvent, TriggerType, ActionType, Automation, trigger_str,
  automation_from_row, parse_trigger, parse_action,
}
use amos_platform.Automation.Webhook.{Http, Tables, Answer, action_call_webhook}
use amos_platform.Automation.Retry.{
  process_retry_queue, retry_delay_for_attempt, claim_due, process_all, process_entry,
  get_automation, log_run,
}
use amos_platform.Automation.Matching.{find_matching_automations, matching_rows, condition_holds}
use amos_platform.Automation.Started.{IsStarted, find_matching_automations-IsStarted}
use amos_platform.Automation.Spending.{IsQueue, waiting}
use amos_platform.Automation.Deliveries.{work, work-IsQueue}
use amos_platform.Automation.Template.{
  replacement, substitute_once, substitute_string, split_once, strip_prefix,
}
use amos_platform.Automation.Substitution.{braces, substitute_string-ends}
use amos_platform.Automation.Passes.{AllAtRest, work-AllAtRest}

-- A server that is down.
abbrev down : Http
down = record {
  uuid_text = λ id. "id";
  sign = λ id body. "signature";
  respond = λ before request. Answer.response 503 "try later";
}

abbrev hook : AutomationRow
hook = record {
  id = 1;
  name = "notify";
  description = none;
  enabled = true;
  trigger_type = "record_created";
  trigger_config = object (field "collection" (str "orders") empty);
  condition = some (object (field "state" (str "paid") empty));
  action_type = "call_webhook";
  action_config = object (field "url" (str "https://example.org/hook") empty);
  created_at = 5;
  updated_at = 5;
}

-- An entry as `enqueue_retry` makes it at time 100.
abbrev failed_once : RetryEntry
failed_once = record {
  id = 7;
  automation_id = 1;
  action_type = "call_webhook";
  trigger_data = object empty;
  attempt = 1;
  max_attempts = 3;
  next_attempt_at = 130;
  last_error = some (literal "Webhook request failed: timeout");
  status = "pending";
  created_at = 100;
  updated_at = 100;
}

abbrev engine : Session Tables
engine = record {
  tables = record { automations = hook ∷ []; runs = []; retries = failed_once ∷ []; requests = [] };
  now = 100;
  uuids = λ n. 1000 + n;
  drawn = 0;
  faults = [];
}

engine-IsQueue : IsQueue 3 engine.tables
engine-IsQueue = record { keys = λ id. ground arith; within = ((omega arith, omega arith), tt) }

abbrev times : List ℕ
times = 130 ∷ 260 ∷ 900 ∷ 5000 ∷ []

work-IsQueue_example :
    IsQueue 3 (work down times engine).tables
    × (length (work down times engine).tables.requests
          + sum_by (waiting 3) (work down times engine).tables.retries
        ≤ length engine.tables.requests + sum_by (waiting 3) engine.tables.retries)
work-IsQueue_example = work-IsQueue down 3 times engine engine-IsQueue

-- The bound is reached: three requests, and the entry is a dead letter.
three_requests : length (work down times engine).tables.requests ≡ 3
unfolding work process_retry_queue claim_due process_all process_entry get_automation
    automation_from_row parse_trigger parse_action action_call_webhook log_run
    retry_delay_for_attempt
three_requests = refl

work-AllAtRest_example : AllAtRest (work down times engine).tables.retries
work-AllAtRest_example = work-AllAtRest down times engine refl (inl refl, tt)

abbrev order_paid : TriggerEvent
order_paid = record {
  event_type = TriggerType.record_created;
  collection = some "orders";
  record_id = some 3;
  event_data = object (field "amount" (str "12") (field "state" (str "paid") empty));
}

abbrev notify : Automation
notify = record {
  id = 1;
  name = "notify";
  description = none;
  enabled = true;
  trigger_type = TriggerType.record_created;
  trigger_config = object (field "collection" (str "orders") empty);
  condition = some (object (field "state" (str "paid") empty));
  action_type = ActionType.call_webhook;
  action_config = object (field "url" (str "https://example.org/hook") empty);
  created_at = 5;
  updated_at = 5;
}

notify_matches : (find_matching_automations order_paid engine).0 ≡ ok (notify ∷ [])
unfolding find_matching_automations matching_rows trigger_str automation_from_row parse_trigger
    parse_action condition_holds
notify_matches = refl

find_matching_automations-IsStarted_example : All (IsStarted order_paid) (notify ∷ [])
find_matching_automations-IsStarted_example =
    find_matching_automations-IsStarted order_paid engine (notify ∷ []) notify_matches

-- Trigger data without braces, and no values that are not texts.
abbrev person : Json
person = object (field "name" (str "Ann") empty)

abbrev no_print : Json → String
no_print value = "value"

abbrev greeting : String
greeting = "Dear {{trigger.name}}, welcome"

person_plain : (name : String) → braces (replacement no_print person name) ≡ 0
person_plain name = elim (Bool-cases (str_eq "name" name)) [
  | inl same ↦ rw same refl
  | inr other ↦ rw other refl
]

substitute_string-ends_example :
    (t : String) × (substitute_string no_print 2 person greeting ≡ some t)
    × (substitute_once no_print person t ≡ none)
substitute_string-ends_example =
    substitute_string-ends no_print person person_plain 2 greeting (omega arith)

greeted : substitute_string no_print 2 person greeting ≡ some "Dear Ann, welcome"
unfolding substitute_string substitute_once split_once strip_prefix
greeted = refl

-- A value that is its own binding is put in again and again.
self_binding :
    substitute_once no_print
      (object (field "name" (str "{{trigger.name}}") empty))
      "{{trigger.name}}"
    ≡ some "{{trigger.name}}"
unfolding substitute_once split_once strip_prefix
self_binding = refl
