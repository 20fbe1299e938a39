-- ===== src/Api/Order/Entries.antt =====
-- adapters/http/response.go: the entry of each sentinel.
use spur_messaging.Prelude.{
  ℕ, ◌==◌, ◌≡◌, refl, sym, ap, ◌∙◌, Option, none, some, All, Any, inl, inr, if◌then◌else◌,
}
use spur_messaging.Domain.Errors.{
  Sentinel, GoError, sentinel, domain_error, wrapped, other, panicked, address, not_found,
  already_exists, invalid_input, unauthorized, forbidden, provider_error, provider_not_configured,
  provider_timeout, credentials_expired, rate_limit_exceeded, template_not_approved,
  session_window_closed, suppressed, unsubscribed, opt_in_required, campaign_not_executable,
  template_in_use, queue_unavailable,
}
use spur_messaging.Api.Respond.{Entry, entry, error_code_map}

-- The code and the status of each sentinel.
unfoldable pub entry_of : Sentinel → Entry
entry_of not_found = entry not_found "NOT_FOUND" 404
entry_of already_exists = entry already_exists "ALREADY_EXISTS" 409
entry_of invalid_input = entry invalid_input "INVALID_INPUT" 400
entry_of unauthorized = entry unauthorized "UNAUTHORIZED" 401
entry_of forbidden = entry forbidden "FORBIDDEN" 403
entry_of provider_error = entry provider_error "PROVIDER_ERROR" 502
entry_of provider_not_configured = entry provider_not_configured "PROVIDER_NOT_CONFIGURED" 422
entry_of provider_timeout = entry provider_timeout "PROVIDER_TIMEOUT" 504
entry_of credentials_expired = entry credentials_expired "CREDENTIALS_EXPIRED" 422
entry_of rate_limit_exceeded = entry rate_limit_exceeded "RATE_LIMIT_EXCEEDED" 429
entry_of suppressed = entry suppressed "EMAIL_SUPPRESSED" 422
entry_of unsubscribed = entry unsubscribed "RECIPIENT_UNSUBSCRIBED" 422
entry_of template_not_approved = entry template_not_approved "TEMPLATE_NOT_APPROVED" 422
entry_of opt_in_required = entry opt_in_required "OPT_IN_REQUIRED" 422
entry_of session_window_closed = entry session_window_closed "SESSION_WINDOW_CLOSED" 422
entry_of campaign_not_executable = entry campaign_not_executable "CAMPAIGN_NOT_EXECUTABLE" 422
entry_of template_in_use = entry template_in_use "TEMPLATE_IN_USE" 409
entry_of queue_unavailable = entry queue_unavailable "QUEUE_UNAVAILABLE" 503

-- The sentinel at the end of an error's chain.
unfoldable pub root : GoError → Option Sentinel
root (sentinel s) = some s
root (domain_error s message field) = some s
root (wrapped message e) = root e
root (other message) = none
root (panicked message) = none

abbrev sentinel_at : ℕ → Sentinel
sentinel_at n =
    if n == 0
    then not_found
    else if n == 1
    then already_exists
    else if n == 2
    then invalid_input
    else if n == 3
    then unauthorized
    else if n == 4
    then forbidden
    else if n == 5
    then provider_error
    else if n == 6
    then provider_not_configured
    else if n == 7
    then provider_timeout
    else if n == 8
    then credentials_expired
    else if n == 9
    then rate_limit_exceeded
    else if n == 10
    then template_not_approved
    else if n == 11
    then session_window_closed
    else if n == 12
    then suppressed
    else if n == 13
    then unsubscribed
    else if n == 14
    then opt_in_required
    else if n == 15
    then campaign_not_executable
    else if n == 16
    then template_in_use
    else queue_unavailable

sentinel_at-address : (s : Sentinel) → sentinel_at (address s) ≡ s
sentinel_at-address not_found = refl
sentinel_at-address already_exists = refl
sentinel_at-address invalid_input = refl
sentinel_at-address unauthorized = refl
sentinel_at-address forbidden = refl
sentinel_at-address provider_error = refl
sentinel_at-address provider_not_configured = refl
sentinel_at-address provider_timeout = refl
sentinel_at-address credentials_expired = refl
sentinel_at-address rate_limit_exceeded = refl
sentinel_at-address template_not_approved = refl
sentinel_at-address session_window_closed = refl
sentinel_at-address suppressed = refl
sentinel_at-address unsubscribed = refl
sentinel_at-address opt_in_required = refl
sentinel_at-address campaign_not_executable = refl
sentinel_at-address template_in_use = refl
sentinel_at-address queue_unavailable = refl

pub same_address : (s t : Sentinel) → address s ≡ address t → s ≡ t
same_address s t e = sym (sentinel_at-address s) ∙ ap sentinel_at e ∙ sentinel_at-address t

pub key-entry_of : (s : Sentinel) → (entry_of s).key ≡ s
unfolding entry_of
key-entry_of not_found = refl
key-entry_of already_exists = refl
key-entry_of invalid_input = refl
key-entry_of unauthorized = refl
key-entry_of forbidden = refl
key-entry_of provider_error = refl
key-entry_of provider_not_configured = refl
key-entry_of provider_timeout = refl
key-entry_of credentials_expired = refl
key-entry_of rate_limit_exceeded = refl
key-entry_of template_not_approved = refl
key-entry_of session_window_closed = refl
key-entry_of suppressed = refl
key-entry_of unsubscribed = refl
key-entry_of opt_in_required = refl
key-entry_of campaign_not_executable = refl
key-entry_of template_in_use = refl
key-entry_of queue_unavailable = refl

-- Every sentinel has its entry.
pub is_listed : (s : Sentinel) → Any (λ x. x ≡ entry_of s) error_code_map
unfolding entry_of
is_listed not_found = inl refl
is_listed already_exists = inr (inl refl)
is_listed invalid_input = inr (inr (inl refl))
is_listed unauthorized = inr (inr (inr (inl refl)))
is_listed forbidden = inr (inr (inr (inr (inl refl))))
is_listed provider_error = inr (inr (inr (inr (inr (inl refl)))))
is_listed provider_not_configured = inr (inr (inr (inr (inr (inr (inl refl))))))
is_listed provider_timeout = inr (inr (inr (inr (inr (inr (inr (inl refl)))))))
is_listed credentials_expired = inr (inr (inr (inr (inr (inr (inr (inr (inl refl))))))))
is_listed rate_limit_exceeded = inr (inr (inr (inr (inr (inr (inr (inr (inr (inl refl)))))))))
is_listed template_not_approved =
    inr (inr (inr (inr (inr (inr (inr (inr (inr (inr (inr (inr (inl refl))))))))))))
is_listed session_window_closed =
    inr (inr (inr (inr (inr (inr (inr (inr (inr (inr (inr (inr (inr (inr (inl refl))))))))))))))
is_listed suppressed = inr (inr (inr (inr (inr (inr (inr (inr (inr (inr (inl refl))))))))))
is_listed unsubscribed = inr (inr (inr (inr (inr (inr (inr (inr (inr (inr (inr (inl refl)))))))))))
is_listed opt_in_required =
    inr (inr (inr (inr (inr (inr (inr (inr (inr (inr (inr (inr (inr (inl refl)))))))))))))
is_listed campaign_not_executable =
    inr
      (inr (inr (inr (inr (inr (inr (inr (inr (inr (inr (inr (inr (inr (inr (inl refl)))))))))))))))
is_listed template_in_use = inr (
    inr (
      inr (inr (inr (inr (inr (inr (inr (inr (inr (inr (inr (inr (inr (inr (inl refl))))))))))))))))
is_listed queue_unavailable = inr (
    inr (
      inr (
        inr (
          inr (inr (inr (inr (inr (inr (inr (inr (inr (inr (inr (inr (inr (inl refl)))))))))))))))))

pub listed_as : All (λ x. x ≡ entry_of x.key) error_code_map
unfolding entry_of
listed_as = (
  refl,
  (
    refl,
    (
      refl,
      (
        refl,
        (
          refl,
          (
            refl,
            (
              refl,
              (
                refl,
                (refl, (refl, (refl, (refl, (refl, (refl, (refl, (refl, (refl, (refl, tt)))))))))),
              ),
            ),
          ),
        ),
      ),
    ),
  ),
)
