-- ===== src/Schema/Tests.antt =====
-- A small collection of amos-harness/src/schema.rs, and the theorems at it.
use amos_platform.Prelude.{
  join, ◌⊎◌, min, ◌-◌, ℕ, ◌≡◌, ◌↔◌, refl, true, false, String, str_eq, none, some, List, [], ◌∷◌,
  All, length, lit,
}
use amos_platform.Prelude.Values.{
  number_eq, Json, null, str, array, object, nil, cons, empty, field,
}
use amos_platform.Error.{ok, err, validation}
use amos_platform.Database.{Session, Collation}
use amos_platform.Automation.Types.{
  TriggerType, ActionType, Automation, AutomationRow, automation_from_row, trigger_str,
  parse_trigger, parse_action,
}
use amos_platform.Automation.Webhook
use amos_platform.Automation.Matching.{find_matching_automations, matching_rows, condition_holds}
use amos_platform.Schema.Types.{
  FieldType, FieldDefinition, Collection, FieldsColumn, CollectionRow, Record, Tables,
}
use amos_platform.Schema.Validation.{UuidReader, validate_record_data}
use amos_platform.Schema.Collections.{get_collection}
use amos_platform.Schema.Records.{create_record, record_event}
use amos_platform.Schema.Queries.{
  JsonText, SortKey, query_records, order_expr, query_text, select_sql, limit_sql,
}
use amos_platform.Schema.Conforms.{Conforms, validate_record_data-Conforms}
use amos_platform.Schema.Stored.{IsStored, create_record-IsStored}
use amos_platform.Schema.Announced.{ReactsTo, created_reacts}
use amos_platform.Schema.Requests.{Request, define, drop_collection, create, change, serve}
use amos_platform.Schema.Links.{AllBelong, serve-AllBelong}
use amos_platform.Schema.Quoting.{IsColumn, IsQuoted, query_text-IsQuoted}
use amos_platform.Schema.Found.{IsFound, IsWanted, IsCount, query_records-IsFound}

abbrev reader : UuidReader
reader = record { is_uuid = λ s. str_eq s "b2f1" }

abbrev plain : String → FieldType → FieldDefinition
plain name field_type = record {
  name = name;
  display_name = name;
  field_type = field_type;
  required = true;
  unique = false;
  default_value = none;
  description = none;
  options = object empty;
}

abbrev stages : Json
stages = object (field "choices" (array (cons (str "lead") (cons (str "won") nil))) empty)

abbrev fields : List FieldDefinition
fields =
    plain "name" FieldType.text
    ∷ record (plain "stage" FieldType.enum) { default_value = some (str "lead"); options = stages }
    ∷ []

abbrev row : CollectionRow
row = record {
  id = 5;
  name = "deals";
  display_name = "Deals";
  description = none;
  fields = FieldsColumn.definitions fields;
  settings = object empty;
  created_at = 1;
  updated_at = 1;
}

abbrev start : Session Tables
start = record {
  tables = record {
    collections = row ∷ [];
    records = [];
    has_sender = true;
    room = 8;
    events = [];
  };
  now = 20;
  uuids = λ n. n;
  drawn = 100;
  faults = [];
}

abbrev given : Json
given = object (field "name" (str "Acme") empty)

abbrev complete : Json
complete = object (field "name" (str "Acme") (field "stage" (str "lead") empty))

abbrev made : Record
made = record {
  id = 100;
  collection_id = 5;
  collection_name = "deals";
  contents = complete;
  created_at = 20;
  updated_at = 20;
}

created : (create_record reader "deals" given start).0 ≡ ok made
unfolding create_record get_collection validate_record_data
created = refl

create_record-IsStored_example :
    IsStored reader "deals" given start made (create_record reader "deals" given start).1
create_record-IsStored_example = create_record-IsStored reader "deals" given start made created

validate_record_data-Conforms_example :
    (validate_record_data reader fields complete ≡ ok tt) ↔ Conforms reader fields complete
validate_record_data-Conforms_example = validate_record_data-Conforms reader fields complete

-- A value that is none of the choices.
rejected :
    validate_record_data reader fields
      (object (field "name" (str "Acme") (field "stage" (str "lost") empty)))
    ≡ err (
        validation (
          lit "'"
          ∷ lit "stage"
          ∷ lit "'"
          ∷ lit " must be one of: "
          ∷ lit "lead"
          ∷ lit ", "
          ∷ lit "won"
          ∷ []))
unfolding validate_record_data
rejected = refl

abbrev rule : AutomationRow
rule = record {
  id = 9;
  name = "greet";
  description = none;
  enabled = true;
  trigger_type = "record_created";
  trigger_config = object (field "collection" (str "deals") empty);
  condition = some (object (field "stage" (str "lead") empty));
  action_type = "run_agent_task";
  action_config = null;
  created_at = 1;
  updated_at = 1;
}

abbrev engine : Session Webhook.Tables
engine = record {
  tables = record { automations = rule ∷ []; runs = []; retries = []; requests = [] };
  now = 20;
  uuids = λ n. n;
  drawn = 0;
  faults = [];
}

abbrev greeter : Automation
greeter = record {
  id = 9;
  name = "greet";
  description = none;
  enabled = true;
  trigger_type = TriggerType.record_created;
  trigger_config = object (field "collection" (str "deals") empty);
  condition = some (object (field "stage" (str "lead") empty));
  action_type = ActionType.run_agent_task;
  action_config = null;
  created_at = 1;
  updated_at = 1;
}

greets :
    (find_matching_automations
      (record_event TriggerType.record_created "deals" 100 complete)
      engine).0
    ≡ ok (greeter ∷ [])
unfolding find_matching_automations matching_rows trigger_str automation_from_row parse_trigger
    parse_action condition_holds
greets = refl

created_reacts_example : All (ReactsTo "deals" complete) (greeter ∷ [])
created_reacts_example =
    created_reacts reader "deals" given start made engine (greeter ∷ []) created greets

abbrev requests : List (ℕ × Request)
requests =
    (1, create "deals" given)
    ∷ (1, change 100 (object (field "stage" (str "won") empty)))
    ∷ (1, define "deals" "Deals" none fields)
    ∷ (1, drop_collection "deals")
    ∷ []

serve-AllBelong_example : AllBelong (serve reader requests start).tables
serve-AllBelong_example = serve-AllBelong reader requests start tt

by_stage : order_expr (some "stage") ≡ SortKey.by_field "stage"
unfolding order_expr
by_stage = refl

by_stage_text :
    query_text (some "stage") (some "asc") ≡ join select_sql (join "r.data->>'stage' ASC" limit_sql)
unfolding query_text order_expr
by_stage_text = refl

query_text-IsQuoted_example :
    (key : String) × (dir : String) × (query_text (some "stage") (some "asc; DROP TABLE records")
      ≡ join select_sql (join key (join " " (join dir limit_sql))))
    × ((dir ≡ "ASC") ⊎ (dir ≡ "DESC"))
    × (IsColumn key ⊎ IsQuoted (some "stage") key)
query_text-IsQuoted_example = query_text-IsQuoted (some "stage") (some "asc; DROP TABLE records")

abbrev bytes : Collation
bytes = record { before = λ a b. true }

abbrev texts : JsonText
texts = record { json_text = λ v. ""; same_number = number_eq }

abbrev after_creation : Session Tables
after_creation = record start {
  tables = record start.tables {
    records =
        record {
          id = 100;
          collection_id = 5;
          contents = complete;
          created_at = 20;
          updated_at = 20;
        }
        ∷ [];
  };
}

abbrev leads : Json
leads = object (field "stage" (str "lead") empty)

queried :
    (query_records bytes texts "deals" (some leads) (some "name") none 10 0 after_creation).0
    ≡ ok (made ∷ [], 1)
unfolding query_records get_collection order_expr
queried = refl

query_records-IsFound_example :
    (c : Collection) × ((get_collection "deals" after_creation).0 ≡ ok c)
    × All (IsFound texts "deals" c.id leads) (made ∷ [])
    × IsCount (IsWanted texts c.id leads) after_creation.tables.records 1
    × (length (made ∷ []) ≡ min 10 (1 - 0))
query_records-IsFound_example =
    query_records-IsFound bytes texts "deals" (some leads) (some "name") none 10 0 after_creation
      (made ∷ []) 1 queried
