-- ===== src/Error.antt =====
-- The unified error type of amos-core/src/error.rs, its client-facing message and HTTP status, and
-- the `Result` in which the fallible functions of every component answer.
pub mod Client
mod Tests
use amos_platform.Prelude.{
  ℕ, ◌≡◌, ◌⊎◌, inl, inr, refl, String, Bool, true, false, Option, none, some, List, [], ◌∷◌,
  Fragment, lit, number, debug_list, Message, literal,
}

-- A `String` payload is a formatted message. A wrapped error of another crate is its `Display`.
pub data AmosError : Type 0 where
  arithmetic_overflow : Message → AmosError
  insufficient_stake : ℕ → ℕ → AmosError
  stake_too_recent : ℕ → ℕ → AmosError
  decay_rate_out_of_range : ℕ → ℕ → ℕ → AmosError
  no_revenue_to_claim : AmosError
  treasury_exhausted : ℕ → AmosError
  trust_level_insufficient : ℕ → ℕ → AmosError
  trust_upgrade_not_eligible : Message → AmosError
  already_max_trust : ℕ → AmosError
  within_grace_period : ℕ → AmosError
  at_decay_floor : AmosError
  tool_not_found : Message → AmosError
  tool_execution_failed : Message → Message → AmosError
  model_invocation_failed : Message → Message → AmosError
  model_escalation_exhausted : List String → AmosError
  agent_loop_exceeded : ℕ → AmosError
  context_window_exceeded : ℕ → ℕ → AmosError
  database : Message → AmosError
  http : Message → AmosError
  solana_rpc : Message → AmosError
  config : Message → AmosError
  missing_env_var : Message → AmosError
  unauthorized : Message → AmosError
  forbidden : Message → AmosError
  not_found : Message → Message → AmosError
  validation : Message → AmosError
  internal : Message → AmosError
  other : Message → AmosError

infixr 67 ◌⊕◌
-- Pieces put after one another.
abbrev pub ◌⊕◌ : Message → Message → Message
[] ⊕ b = b
(p ∷ a) ⊕ b = p ∷ (a ⊕ b)

abbrev two : String → Message → String → Message → Message
two s a t b = literal s ⊕ a ⊕ literal t ⊕ b

-- `to_string`, by the `#[error(…)]` lines.
pub display : AmosError → Message
display (arithmetic_overflow context) =
    literal "Arithmetic overflow in token calculation: " ⊕ context
display (insufficient_stake have need) =
    lit "Insufficient stake: have " ∷ number have ∷ lit ", need " ∷ number need ∷ []
display (stake_too_recent held required) =
    lit "Stake too recent: " ∷ number held ∷ lit " days held, need " ∷ number required ∷ []
display (decay_rate_out_of_range rate lo hi) =
    lit "Decay rate "
    ∷ number rate
    ∷ lit " bps out of allowed range ["
    ∷ number lo
    ∷ lit ", "
    ∷ number hi
    ∷ lit "]"
    ∷ []
display no_revenue_to_claim = literal "No revenue available to claim"
display (treasury_exhausted remaining) =
    lit "Treasury exhausted: " ∷ number remaining ∷ lit " tokens remaining" ∷ []
display (trust_level_insufficient current required) =
    lit "Trust level insufficient: level " ∷ number current ∷ lit ", need " ∷ number required ∷ []
display (trust_upgrade_not_eligible reason) = literal "Trust upgrade not eligible: " ⊕ reason
display (already_max_trust level) =
    lit "Already at maximum trust level (" ∷ number level ∷ lit ")" ∷ []
display (within_grace_period days) =
    lit "Within grace period: " ∷ number days ∷ lit " days remaining" ∷ []
display at_decay_floor = literal "At decay floor: balance already at minimum preserved amount"
display (tool_not_found name) = literal "Tool not found: " ⊕ name
display (tool_execution_failed tool reason) = two "Tool execution failed: " tool " - " reason
display (model_invocation_failed model reason) = two "Model invocation failed: " model " - " reason
display (model_escalation_exhausted tried) =
    lit "Model escalation exhausted after trying: " ∷ debug_list tried ∷ []
display (agent_loop_exceeded max) =
    lit "Agent loop exceeded maximum iterations (" ∷ number max ∷ lit ")" ∷ []
display (context_window_exceeded tokens max_tokens) =
    lit "Context window exceeded: " ∷ number tokens ∷ lit " tokens, max " ∷ number max_tokens ∷ []
display (database e) = literal "Database error: " ⊕ e
display (http e) = literal "HTTP request failed: " ⊕ e
display (solana_rpc e) = literal "Solana RPC error: " ⊕ e
display (config e) = literal "Configuration error: " ⊕ e
display (missing_env_var e) = literal "Missing required environment variable: " ⊕ e
display (unauthorized e) = literal "Unauthorized: " ⊕ e
display (forbidden e) = literal "Forbidden: " ⊕ e
display (not_found entity id) = two "Not found: " entity " with id " id
display (validation e) = literal "Validation error: " ⊕ e
display (internal e) = literal "Internal error: " ⊕ e
display (other e) = e

pub client_message : AmosError → Message
client_message (database _) = literal "A database error occurred"
client_message (http _) = literal "An upstream request failed"
client_message (solana_rpc _) = literal "A blockchain RPC error occurred"
client_message (config _) = literal "A server configuration error occurred"
client_message (missing_env_var _) = literal "A server configuration error occurred"
client_message (internal _) = literal "An internal error occurred"
client_message (other _) = literal "An internal error occurred"
client_message e = display e

unfoldable pub status_code : AmosError → ℕ
status_code (unauthorized _) = 401
status_code (forbidden _) = 403
status_code (not_found _ _) = 404
status_code (validation _) = 422
status_code (insufficient_stake _ _) = 422
status_code (stake_too_recent _ _) = 422
status_code (decay_rate_out_of_range _ _ _) = 422
status_code (trust_level_insufficient _ _) = 422
status_code (trust_upgrade_not_eligible _) = 422
status_code (within_grace_period _) = 422
status_code at_decay_floor = 422
status_code no_revenue_to_claim = 409
status_code (treasury_exhausted _) = 409
status_code _ = 500

-- `std::result::Result` with this error.
pub data Result {ℓ} (A : Type ℓ) : Type ℓ where
  err : AmosError → Result A
  ok : A → Result A

-- `Option::ok_or`
abbrev pub ok_or {ℓ} : {A : Type ℓ} → Option A → AmosError → Result A
ok_or none e = err e
ok_or (some a) e = ok a

-- The `?` operator: the first error is the answer of the function.
infixl 5 ◌>>=◌
abbrev pub ◌>>=◌ {ℓ κ} : {A : Type ℓ} {B : Type κ} → Result A → (A → Result B) → Result B
err reason >>= rest = err reason
ok value >>= rest = rest value

-- `return Err(e)` under an `if`
abbrev pub fail_if : Bool → AmosError → Result (Unit {0})
fail_if true e = err e
fail_if false e = ok tt

infixl 5 ◌>>◌
abbrev pub ◌>>◌ {ℓ} : {B : Type ℓ} → Result (Unit {0}) → Result B → Result B
step >> rest = step >>= λ _. rest

-- Where `?` lets a function go on to an answer, there was a value to go on with.
pub passes-eq-ok {ℓ κ} :
    {Mid : Type ℓ} {Out : Type κ} (step : Result Mid) (rest : Mid → Result Out) {answer : Out}
    → (step >>= rest) ≡ ok answer
    → (value : Mid) × (step ≡ ok value) × (rest value ≡ ok answer)
passes-eq-ok (err reason) rest stops = cc
passes-eq-ok (ok value) rest goes = (value, refl, goes)

pub ok-injective {ℓ} : {A : Type ℓ} (a b : A) → ok a ≡ ok b → a ≡ b
ok-injective a b h = cc

pub Result-cases {ℓ} :
    {A : Type ℓ} (r : Result A) → ((a : A) × (r ≡ ok a)) ⊎ ((e : AmosError) × (r ≡ err e))
Result-cases (ok a) = inl (a, refl)
Result-cases (err e) = inr (e, refl)
