-- ===== src/Schema/Announced.antt =====
-- From amos-harness/src/schema.rs to the automations: what the event of a created record starts.
use amos_platform.Prelude.{ℕ, ◌≡◌, refl, sym, subst, true, String, eq_iff, some, List, All, All-map}
use amos_platform.Prelude.Values.{Json, Fields, object, get, get_field, json_eq}
use amos_platform.Error.{ok}
use amos_platform.Database.{Session}
use amos_platform.Automation.Types.{TriggerType, TriggerEvent, Automation}
use amos_platform.Automation.Webhook
use amos_platform.Automation.Matching.{find_matching_automations, text_at}
use amos_platform.Automation.Started.{IsStarted, find_matching_automations-IsStarted}
use amos_platform.Schema.Types.{Record, Tables}
use amos_platform.Schema.Validation.{UuidReader}
use amos_platform.Schema.Records.{record_event, create_record}
use amos_platform.Schema.Stored.{create_record-IsStored}

-- What is true of an automation that the creation of a record starts.
abbrev pub ReactsTo : String → Json → Automation → Type 0
ReactsTo name contents a =
    (a.enabled ≡ true)
    × (a.trigger_type ≡ TriggerType.record_created)
    × ((wanted : String) → text_at a.trigger_config "collection" ≡ some wanted → wanted ≡ name)
    × ((expected : Fields) (key : String) (value : Json)
        → a.condition ≡ some (object expected)
        → get_field key expected ≡ some value
        → (found : Json) × (get contents key ≡ some found) × (json_eq found value ≡ true))

started_reacts :
    (name : String) (id : ℕ) (obj : Fields) (a : Automation)
    → IsStarted (record_event TriggerType.record_created name id (object obj)) a
    → ReactsTo name (object obj) a
started_reacts name id obj a h = (
  h.is_enabled,
  h.triggered,
  λ wanted asks. (eq_iff wanted name).0 (rw asks at h.in_collection),
  λ expected key value asks has. h.expects expected obj asks refl key value has,
)

-- An automation that the event of a created record starts is enabled, waits for creations, in this
-- collection where it names one, and the stored record has every entry that its condition expects.
pub created_reacts :
    (reader : UuidReader) (name : String) (given : Json) (s : Session Tables) (r : Record)
    (engine : Session Webhook.Tables) (started : List Automation)
    → (create_record reader name given s).0 ≡ ok r
    → (find_matching_automations
        (record_event TriggerType.record_created name r.id r.contents)
        engine).0
      ≡ ok started
    → All (ReactsTo name r.contents) started
created_reacts reader name given s r engine started h k =
    let (obj, is_object, rest) = (create_record-IsStored reader name given s r h).conforms in
    let event : Json → TriggerEvent = record_event TriggerType.record_created name r.id in
    let found : (find_matching_automations (event (object obj)) engine).0 ≡ ok started =
      subst (λ v. (find_matching_automations (event v) engine).0 ≡ ok started) is_object k in
    subst (λ v. All (ReactsTo name v) started) (sym is_object)
      (All-map (started_reacts name r.id obj) started
        (find_matching_automations-IsStarted (event (object obj)) engine started found))
