-- ===== src/Api/Tests.antt =====
-- adapters/http/response.go and adapters/http/validation.go on one request each.
use spur_messaging.Prelude.{◌≡◌, refl, true, All-members}
use spur_messaging.Domain.Errors.{GoError, sentinel, wrapped, not_found, validation_error}
use spur_messaging.Calls.{ok}
use spur_messaging.Contacts.Records.{is_e164, all_digits}
use spur_messaging.Api.Respond.{error_code_map, respond_error}
use spur_messaging.Api.Order.{IsOrder, respond_error_lem, respond_directly}
use spur_messaging.Api.Validate.{validate_phone, validate_idempotency_key, len, strip_phone}
use spur_messaging.Api.Refusals.{key_check, perform, IsBadRequest, perform-IsBadRequest}
use spur_messaging.Api.Normal.{validate_phone_lem}

abbrev source_order : IsOrder error_code_map
source_order = record { known = All-members error_code_map; complete = All-members error_code_map }

abbrev problem : GoError
problem = wrapped "load contact: not found" (sentinel not_found)

respond_error_lem_example : respond_error error_code_map problem ≡ respond_directly problem
respond_error_lem_example = respond_error_lem error_code_map problem source_order

perform-IsBadRequest_example : IsBadRequest (
    respond_error error_code_map
      (validation_error "idempotency_key" "idempotency key must be between 8 and 128 characters"))
unfolding perform validate_idempotency_key len
perform-IsBadRequest_example =
    perform-IsBadRequest (λ s. s) error_code_map (key_check "short") source_order refl

validate_phone_lem_example :
    (is_e164 "+919810914244" ≡ true) × (validate_phone "+919810914244" ≡ ok "+919810914244")
unfolding validate_phone strip_phone is_e164 all_digits
validate_phone_lem_example = validate_phone_lem "+91 (981) 091-4244" refl
