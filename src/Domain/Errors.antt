-- ===== src/Domain/Errors.antt =====
-- core/domain/errors.go: the sentinel errors, `DomainError`, and `errors.Is` along `Unwrap`.
use spur_messaging.Prelude.{ℕ, String, Bool, false, ◌==◌}

pub data Sentinel : Type 0 where
  not_found already_exists invalid_input unauthorized forbidden : Sentinel
  provider_error provider_not_configured provider_timeout credentials_expired : Sentinel
  rate_limit_exceeded template_not_approved session_window_closed : Sentinel
  suppressed unsubscribed opt_in_required campaign_not_executable : Sentinel
  template_in_use queue_unavailable : Sentinel

-- Go compares sentinels by address: two are equal when they are the same variable.
abbrev pub address : Sentinel → ℕ
address not_found = 0
address already_exists = 1
address invalid_input = 2
address unauthorized = 3
address forbidden = 4
address provider_error = 5
address provider_not_configured = 6
address provider_timeout = 7
address credentials_expired = 8
address rate_limit_exceeded = 9
address template_not_approved = 10
address session_window_closed = 11
address suppressed = 12
address unsubscribed = 13
address opt_in_required = 14
address campaign_not_executable = 15
address template_in_use = 16
address queue_unavailable = 17

-- `domain_error` is `*DomainError`; `wrapped` is `fmt.Errorf` with `%w`, by its text and what it wraps; `other` wraps nothing.
-- `panicked` is a run-time panic: no code modelled here recovers, so it unwinds as an error does.
pub data GoError : Type 0 where
  sentinel : Sentinel → GoError
  domain_error : Sentinel → String → String → GoError
  wrapped : String → GoError → GoError
  other : String → GoError
  panicked : String → GoError

-- `errors.Is(err, target)` for a sentinel target.
unfoldable pub is_error : GoError → Sentinel → Bool
is_error (sentinel s) target = address s == address target
is_error (domain_error s message field) target = address s == address target
is_error (wrapped message e) target = is_error e target
is_error (other message) target = false
is_error (panicked message) target = false

abbrev pub validation_error : String → String → GoError
validation_error field message = domain_error invalid_input message field

-- `NewNotFoundError(resource)`, given its whole message.
abbrev pub not_found_error : String → GoError
not_found_error message = domain_error not_found message ""

abbrev pub conflict_error : String → GoError
conflict_error message = domain_error already_exists message ""

abbrev pub new_provider_error : String → GoError
new_provider_error message = domain_error provider_error message ""

-- The texts of the sentinels.
abbrev sentinel_text : Sentinel → String
sentinel_text not_found = "not found"
sentinel_text already_exists = "already exists"
sentinel_text invalid_input = "invalid input"
sentinel_text unauthorized = "unauthorized"
sentinel_text forbidden = "forbidden"
sentinel_text provider_error = "provider error"
sentinel_text provider_not_configured = "provider not configured"
sentinel_text provider_timeout = "provider timeout"
sentinel_text credentials_expired = "credentials expired"
sentinel_text rate_limit_exceeded = "rate limit exceeded"
sentinel_text template_not_approved = "template not approved"
sentinel_text session_window_closed = "session window closed"
sentinel_text suppressed = "email suppressed"
sentinel_text unsubscribed = "recipient unsubscribed"
sentinel_text opt_in_required = "opt-in required"
sentinel_text campaign_not_executable = "campaign not executable"
sentinel_text template_in_use = "template in use"
sentinel_text queue_unavailable = "queue unavailable"

-- `err.Error()`.
unfoldable pub error_text : GoError → String
error_text (sentinel s) = sentinel_text s
error_text (domain_error s message field) = message
error_text (wrapped message e) = message
error_text (other message) = message
error_text (panicked message) = message
