-- ===== src/Identity/Tests.antt =====
-- pkg/authctx/authctx.go on one token, of a user who may read contacts.
use spur_messaging.Prelude.{
  ◌≡◌, refl, none, some, [], ◌∷◌, str_eq, cut_prefix, trim_space, split_on, if◌then◌else◌,
}
use spur_messaging.Domain.Errors.{other}
use spur_messaging.Calls.{ok, err}
use spur_messaging.Identity.Permissions.{contacts_read}
use spur_messaging.Identity.Context.{Context, is_authenticated, with_identity, user_id_of}
use spur_messaging.Identity.Claims.{
  Claims, Decoders, text_claim, list_claim, claim_strings, is_super_admin, context_from_claims,
  with_user,
}
use spur_messaging.Identity.Bridge.{extract_bearer_token, request_token, parse_jwt_claims, bridge}

abbrev claims : Claims
claims key =
    if str_eq key "tid"
    then some (text_claim "t7")
    else if str_eq key "permissions"
    then some (list_claim (some contacts_read ∷ none ∷ []))
    else none

abbrev decoders : Decoders
decoders = record {
  parse_uuid = λ s. if str_eq s "t7" then ok 7 else err (other "invalid UUID length: 0");
  decode_base64 = λ s. if str_eq s "body" then ok (123 ∷ []) else err (other "illegal base64 data");
  unmarshal = λ bytes. ok claims;
}

abbrev blank : Context
blank = record { tenant = none; user = none; roles = none; permissions = none; method = none }

abbrev read_context : Context
read_context = record {
  tenant = some 7;
  user = none;
  roles = some [];
  permissions = some (contacts_read ∷ []);
  method = some "jwt";
}

-- The token is the part of the header after the scheme, without the blanks; else the cookie's.
token_from_header : request_token "" "Bearer  head.body.sum " (λ name. none) ≡ "head.body.sum"
unfolding request_token extract_bearer_token cut_prefix trim_space
token_from_header = refl

token_from_cookie :
    request_token "" "Basic dTpw"
      (λ name. if str_eq name "spur_sso" then some "head.body.sum" else none)
    ≡ "head.body.sum"
unfolding request_token extract_bearer_token cut_prefix
token_from_cookie = refl

bridged : bridge decoders "spur_sso" blank "Bearer head.body.sum" (λ name. none) ≡ some read_context
unfolding bridge request_token extract_bearer_token cut_prefix trim_space parse_jwt_claims split_on
    context_from_claims with_user claim_strings is_super_admin with_identity user_id_of
    is_authenticated
bridged = refl

not_bridged : bridge decoders "spur_sso" blank "Bearer head" (λ name. none) ≡ none
unfolding bridge request_token extract_bearer_token cut_prefix trim_space parse_jwt_claims split_on
    is_authenticated
not_bridged = refl
