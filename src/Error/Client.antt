-- ===== src/Error/Client.antt =====
-- What an API client may see of an error: `client_message` of amos-core/src/error.rs.
use amos_platform.Prelude.{◌≡◌, refl, Bool, true, false, if◌then◌else◌, Message}
use amos_platform.Error.{
  AmosError, database, http, solana_rpc, config, missing_env_var, internal, other, display,
  client_message, status_code,
}

-- The errors that wrap lower-level detail: SQL, paths, upstream URLs.
abbrev pub is_infrastructure : AmosError → Bool
is_infrastructure (database _) = true
is_infrastructure (http _) = true
is_infrastructure (solana_rpc _) = true
is_infrastructure (config _) = true
is_infrastructure (missing_env_var _) = true
is_infrastructure (internal _) = true
is_infrastructure (other _) = true
is_infrastructure _ = false

-- The same error with another wrapped text.
abbrev pub with_detail : Message → AmosError → AmosError
with_detail m (database _) = database m
with_detail m (http _) = http m
with_detail m (solana_rpc _) = solana_rpc m
with_detail m (config _) = config m
with_detail m (missing_env_var _) = missing_env_var m
with_detail m (internal _) = internal m
with_detail m (other _) = other m
with_detail m e = e

-- For an infrastructure error the client's message and the status 500 do not depend on the wrapped
-- text; every other error shows its own display text.
pub client_message-hides :
    (m : Message) (e : AmosError)
    → (client_message e
        ≡ (if is_infrastructure e then client_message (with_detail m e) else display e))
      × (status_code e ≡ (if is_infrastructure e then 500 else status_code (with_detail m e)))
unfolding client_message status_code
client_message-hides m (database _) = (refl, refl)
client_message-hides m _ = (refl, refl)
