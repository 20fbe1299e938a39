-- ===== src/Api/Respond.antt =====
-- adapters/http/response.go: the response that an error becomes.
use spur_messaging.Prelude.{ℕ, String, Option, none, some, List, [], ◌∷◌, if◌then◌else◌}
use spur_messaging.Domain.Errors.{
  Sentinel, GoError, sentinel, domain_error, wrapped, other, panicked, is_error, error_text,
  not_found, already_exists, invalid_input, unauthorized, forbidden, provider_error,
  provider_not_configured, provider_timeout, credentials_expired, rate_limit_exceeded,
  template_not_approved, session_window_closed, suppressed, unsubscribed, opt_in_required,
  campaign_not_executable, template_in_use, queue_unavailable,
}

-- An entry of `errorCodeMap`.
pub record Entry : Type 0 where
  pub key : Sentinel
  pub code : String
  pub status : ℕ

abbrev pub entry : Sentinel → String → ℕ → Entry
entry s code status = record { key = s; code = code; status = status }

-- The entries of `errorCodeMap`, in the order of the source.
abbrev pub error_code_map : List Entry
error_code_map =
    entry not_found "NOT_FOUND" 404
    ∷ entry already_exists "ALREADY_EXISTS" 409
    ∷ entry invalid_input "INVALID_INPUT" 400
    ∷ entry unauthorized "UNAUTHORIZED" 401
    ∷ entry forbidden "FORBIDDEN" 403
    ∷ entry provider_error "PROVIDER_ERROR" 502
    ∷ entry provider_not_configured "PROVIDER_NOT_CONFIGURED" 422
    ∷ entry provider_timeout "PROVIDER_TIMEOUT" 504
    ∷ entry credentials_expired "CREDENTIALS_EXPIRED" 422
    ∷ entry rate_limit_exceeded "RATE_LIMIT_EXCEEDED" 429
    ∷ entry suppressed "EMAIL_SUPPRESSED" 422
    ∷ entry unsubscribed "RECIPIENT_UNSUBSCRIBED" 422
    ∷ entry template_not_approved "TEMPLATE_NOT_APPROVED" 422
    ∷ entry opt_in_required "OPT_IN_REQUIRED" 422
    ∷ entry session_window_closed "SESSION_WINDOW_CLOSED" 422
    ∷ entry campaign_not_executable "CAMPAIGN_NOT_EXECUTABLE" 422
    ∷ entry template_in_use "TEMPLATE_IN_USE" 409
    ∷ entry queue_unavailable "QUEUE_UNAVAILABLE" 503
    ∷ []

-- The status of a response and the fields of its `ErrorDetail`.
pub record ErrorResponse : Type 0 where
  pub status : ℕ
  pub code : String
  pub message : String
  pub field : String

-- `errors.AsType[*domain.DomainError]`: the sentinel, the message and the field of the first one.
unfoldable pub as_domain_error : GoError → Option (Sentinel × String × String)
as_domain_error (sentinel s) = none
as_domain_error (domain_error s message field) = some (s, message, field)
as_domain_error (wrapped message e) = as_domain_error e
as_domain_error (other message) = none
as_domain_error (panicked message) = none

-- The loop over the map, in the order in which the run happens to come to the entries.
unfoldable pub search : List Entry → GoError → Option Entry
unfolding is_error
search [] e = none
search (x ∷ xs) e = if is_error e x.key then some x else search xs e

abbrev pub code_of : Option Entry → String
code_of none = "INTERNAL_ERROR"
code_of (some x) = x.code

abbrev pub status_of : Option Entry → ℕ
status_of none = 500
status_of (some x) = x.status

abbrev pub answer : List Entry → GoError → Option (Sentinel × String × String) → ErrorResponse
answer order e (some (s, message, field)) =
    let found = search order (sentinel s) in
    record { status = status_of found; code = code_of found; message = message; field = field }
answer order e none =
    let found = search order e in
    record { status = status_of found; code = code_of found; message = error_text e; field = "" }

-- `RespondError`, given the order in which its loop comes to the entries.
unfoldable pub respond_error : List Entry → GoError → ErrorResponse
unfolding search as_domain_error
respond_error order e = answer order e (as_domain_error e)
