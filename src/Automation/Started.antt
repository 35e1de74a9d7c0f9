-- ===== src/Automation/Started.antt =====
-- What `find_matching_automations` of amos-harness/src/automations/engine.rs promises of the
-- automations that an event starts.
use amos_platform.Prelude.{
  ◌≡◌, refl, subst, arith, true, String, Option, none, some, List, [], ◌∷◌, All, filter-All, filter,
  str_eq, eq_iff, if◌then◌else◌, Bool-cases, inl, inr, and_left,
}
use amos_platform.Prelude.Values.{json_eq, Json, Fields, object, empty, field, get_field}
use amos_platform.Error.{Result, ok, err, ok-injective}
use amos_platform.Database.{Session}
use mathlib.Core.Option.{some-injective}
use amos_platform.Automation.Types.{
  Automation, AutomationRow, TriggerEvent, trigger_str, parse_trigger, automation_from_row,
}
use amos_platform.Automation.Webhook.{Tables}
use amos_platform.Automation.Codes.{trigger_read}
use amos_platform.Automation.Matching.{
  is_expected, all_expected, evaluate_condition, condition_holds, fires, matching_rows,
  is_triggered, find_matching_automations, collection_fits, source_fits, add_matching,
}

-- Every entry that is expected is there, with an equal value.
abbrev pub Expects : Fields → Fields → Type 0
Expects expected actual =
    (key : String) (value : Json)
    → get_field key expected ≡ some value
    → (found : Json) × (get_field key actual ≡ some found) × (json_eq found value ≡ true)

expected_found :
    (value : Json) (found : Option Json)
    → is_expected value found ≡ true
    → (v : Json) × (found ≡ some v) × (json_eq v value ≡ true)
expected_found value none h = cc
expected_found value (some v) h = (v, refl, h)

all_expected-Expects :
    (expected actual : Fields) → all_expected expected actual ≡ true → Expects expected actual
unfolding all_expected
all_expected-Expects empty actual h key value g = cc
all_expected-Expects (field j v fs) actual h key value g = elim (Bool-cases (str_eq j key)) [
  | inl same ↦
      let here : is_expected v (get_field j actual) ≡ true = ground arith in
      let value_is : v ≡ value = some-injective v value (rw same at g) in
      expected_found value (get_field key actual) (
        subst (λ k. is_expected value (get_field k actual) ≡ true) ((eq_iff j key).0 same)
          (subst (λ w. is_expected w (get_field j actual) ≡ true) value_is here))
  | inr apart ↦ all_expected-Expects fs actual (ground arith) key value (rw apart at g)
]

-- A condition that is an object holds of data that is an object only where the data has all that it
-- expects.
condition_holds-Expects :
    (expected actual : Fields)
    → condition_holds (some (object expected)) (object actual) ≡ true
    → Expects expected actual
unfolding condition_holds evaluate_condition
condition_holds-Expects expected actual h = all_expected-Expects expected actual h

-- What is true of an automation that an event starts.
pub record IsStarted (event : TriggerEvent) (a : Automation) : Type 0 where
  pub is_enabled : a.enabled ≡ true
  pub triggered : a.trigger_type ≡ event.event_type
  pub in_collection : collection_fits a event ≡ true
  pub from_source : source_fits a event ≡ true
  pub expects :
      (expected actual : Fields)
      → a.condition ≡ some (object expected)
      → event.event_data ≡ object actual
      → Expects expected actual

started_row :
    (event : TriggerEvent) (row : AutomationRow) (a : Automation)
    → is_triggered event row ≡ true
    → automation_from_row row ≡ ok a
    → (a.enabled ≡ true) × (a.trigger_type ≡ event.event_type)
unfolding automation_from_row
started_row event row a h k =
    let text : row.trigger_type ≡ trigger_str event.event_type =
      (eq_iff row.trigger_type (trigger_str event.event_type)).0 (and_left _ _ h) in
    let read : parse_trigger row.trigger_type ≡ some event.event_type =
      rw text (trigger_read event.event_type) in
    (ground (arith, read), ground (arith, read))

if_IsStarted :
    (event : TriggerEvent) (a : Automation) (rest : List Automation)
    → (a.enabled ≡ true) × (a.trigger_type ≡ event.event_type)
    → All (IsStarted event) rest
    → All (IsStarted event) (if fires event a then a ∷ rest else rest)
if_IsStarted event a rest row tail = elim (Bool-cases (fires event a)) [
  | inl fired ↦
      let holds : condition_holds a.condition event.event_data ≡ true = ground arith in
      rw fired (
        record {
          is_enabled = row.0;
          triggered = row.1;
          in_collection = ground arith;
          from_source = ground arith;
          expects =
              λ expected actual c d. condition_holds-Expects expected actual (rw (c, d) at holds);
        },
        tail,
      )
  | inr other ↦ rw other tail
]

add_matching-IsStarted :
    (event : TriggerEvent) (r : Result Automation) (rest : Result (List Automation))
    (started : List Automation)
    → ((a : Automation) → r ≡ ok a → (a.enabled ≡ true) × (a.trigger_type ≡ event.event_type))
    → ((as' : List Automation) → rest ≡ ok as' → All (IsStarted event) as')
    → add_matching event r rest ≡ ok started
    → All (IsStarted event) started
add_matching-IsStarted event (err e) rest started h k m = cc
add_matching-IsStarted event (ok a) (err e) started h k m = cc
add_matching-IsStarted event (ok a) (ok rest) started h k m =
    subst (All (IsStarted event)) (ok-injective _ started m)
      (if_IsStarted event a rest (h a refl) (k rest refl))

matching_rows-IsStarted :
    (event : TriggerEvent) (rows : List AutomationRow) (started : List Automation)
    → All (λ r. is_triggered event r ≡ true) rows
    → matching_rows event rows ≡ ok started
    → All (IsStarted event) started
unfolding matching_rows
matching_rows-IsStarted event [] started h k =
    subst (All (IsStarted event)) (ok-injective [] started k) tt
matching_rows-IsStarted event (row ∷ rows) started h k =
    add_matching-IsStarted event (automation_from_row row) (matching_rows event rows) started
      (λ a read. started_row event row a h.0 read)
      (λ rest m. matching_rows-IsStarted event rows rest h.1 m) k

-- Every automation that an event starts is enabled, has the event's trigger, passes the tests of
-- collection and source, and where its condition and the event's data are objects, the data has an
-- equal value for each field of the condition.
pub find_matching_automations-IsStarted :
    (event : TriggerEvent) (s : Session Tables) (started : List Automation)
    → (find_matching_automations event s).0 ≡ ok started
    → All (IsStarted event) started
unfolding find_matching_automations
find_matching_automations-IsStarted event s started h =
    matching_rows-IsStarted event (filter (is_triggered event) s.tables.automations) started
      (filter-All (is_triggered event) s.tables.automations) (ground arith)
