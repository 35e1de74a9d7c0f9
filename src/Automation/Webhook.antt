-- ===== src/Automation/Webhook.antt =====
-- The outgoing webhook, `action_call_webhook` of amos-harness/src/automations/engine.rs: the request
-- it builds and what it makes of the answer. `Http` stands for the HTTP client, HMAC-SHA256 and the
-- text of an id.
use amos_platform.Prelude.{
  upper_is, ℕ, zero, suc, ◌&&◌, String, Option, some, List, [], ◌∷◌, ◌++◌, leb, if◌then◌else◌,
  unwrap_or, and_then, pos, Message, lit, number, literal,
}
use amos_platform.Prelude.Values.{Json, Fields, int, str, num, object, empty, field, get, as_str}
use amos_platform.Error.{Result, ok, err, validation, internal, ◌⊕◌}
use amos_platform.Database.{Action, ◌>>=◌, answer, or_raise}
use amos_platform.Automation.Types.{Automation, AutomationRow, AutomationRun, RetryEntry}
use Prim.Native.String.{[] as end, ◌∷◌ as cons}

pub data Method : Type 0 where
  get_method put_method patch_method delete_method post_method : Method

pub record WebhookRequest : Type 0 where
  pub url : String
  pub method : Method
  pub headers : List (String × String)
  pub body : Json
  pub signature : String

-- What the client answers: no response, with the reason, or a status with a body.
pub data Answer : Type 0 where
  unreachable : Message → Answer
  response : ℕ → String → Answer

-- The answer may depend on every request made before.
pub record Http : Type 0 where
  pub uuid_text : ℕ → String
  pub sign : ℕ → Json → String
  pub respond : List WebhookRequest → WebhookRequest → Answer

-- The state of the engine: its tables, and the requests made so far.
pub record Tables : Type 0 where
  pub automations : List AutomationRow
  pub runs : List AutomationRun
  pub retries : List RetryEntry
  pub requests : List WebhookRequest

unfoldable pub method_of : String → Method
method_of m =
    if upper_is m "GET"
    then Method.get_method
    else if upper_is m "PUT"
    then Method.put_method
    else if upper_is m "PATCH"
    then Method.patch_method
    else if upper_is m "DELETE"
    then Method.delete_method
    else Method.post_method

-- `s.chars().take(n).collect()`
abbrev take_chars : ℕ → String → String
take_chars zero s = end
take_chars (suc n) end = end
take_chars (suc n) (cons c s) = cons c (take_chars n s)

abbrev pub config_text : Automation → String → Option String
config_text automation key = and_then (get automation.action_config key) as_str

-- The headers of the configuration whose values are texts.
abbrev text_fields : Fields → List (String × String)
text_fields empty = []
text_fields (field k (str v) fs) = (k, v) ∷ text_fields fs
text_fields (field k _ fs) = text_fields fs

abbrev custom_headers : Option Json → List (String × String)
custom_headers (some (object fs)) = text_fields fs
custom_headers _ = []

module _ (http : Http) where
  abbrev pub webhook_request : Automation → Json → String → WebhookRequest
  webhook_request automation trigger_data url =
      let body : Json = object (
        field "automation_id" (str (http.uuid_text automation.id)) (
          field "automation_name" (str automation.name)
            (field "trigger_data" trigger_data empty))) in
      let signature : String = http.sign automation.id body in
      record {
        url = url;
        method = method_of (unwrap_or (config_text automation "method") "POST");
        headers =
            custom_headers (get automation.action_config "headers")
            ++ ("Content-Type", "application/json") ∷ ("X-AMOS-Signature", signature) ∷ [];
        body = body;
        signature = signature;
      }

  -- `send()`
  abbrev pub send : WebhookRequest → Action Tables Answer
  send request s = (
    ok (http.respond s.tables.requests request),
    record s { tables = record s.tables { requests = s.tables.requests ++ request ∷ [] } },
  )

  -- `?` on the request, and the test of the status.
  abbrev pub delivered : String → Answer → Result Json
  delivered url (Answer.unreachable reason) =
      err (internal (literal "Webhook request failed: " ⊕ reason))
  delivered url (Answer.response status_code text) =
      if leb 200 status_code && leb status_code 299
      then ok (
          object (
            field "action" (str "call_webhook")
              (field "status" (num (int (pos status_code))) (field "url" (str url) empty))))
      else err (
          internal (
            lit "Webhook returned HTTP "
            ∷ number status_code
            ∷ lit ": "
            ∷ lit (take_chars 500 text)
            ∷ []))

  unfoldable pub action_call_webhook : Automation → Json → Action Tables Json
  action_call_webhook automation trigger_data = do
    url ←
        or_raise (config_text automation "url")
          (validation (literal "call_webhook action requires 'url' in action_config"))
    reply ← send (webhook_request automation trigger_data url)
    answer (delivered url reply)
