-- ===== src/Error/Tests.antt =====
-- Runs of amos-core/src/error.rs.
use amos_platform.Prelude.{◌≡◌, refl, if◌then◌else◌, literal}
use amos_platform.Error.{AmosError, database, not_found, display, client_message, status_code}
use amos_platform.Error.Client.{is_infrastructure, with_detail, client_message-hides}

abbrev broken_query : AmosError
broken_query = database (literal "relation tasks does not exist")

client_message-hides_example :
    (client_message broken_query ≡ (
      if is_infrastructure broken_query
      then client_message (with_detail (literal "at /srv/amos") broken_query)
      else display broken_query))
    × (status_code broken_query ≡ (
        if is_infrastructure broken_query
        then 500
        else status_code (with_detail (literal "at /srv/amos") broken_query)))
client_message-hides_example = client_message-hides (literal "at /srv/amos") broken_query

not_found_status : status_code (not_found (literal "Task") (literal "7")) ≡ 404
unfolding status_code
not_found_status = refl
