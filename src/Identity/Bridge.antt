-- ===== src/Identity/Bridge.antt =====
-- pkg/authctx/authctx.go: from the header and the cookie of a request to its identity.
use spur_messaging.Prelude.{
  ℕ, String, Bool, true, false, Option, none, some, List, ◌∷◌, is_empty, cut_prefix, trim_space,
  split_on, if◌then◌else◌,
}
use spur_messaging.Domain.Errors.{other}
use spur_messaging.Calls.{Result, ok, err}
use spur_messaging.Identity.Context.{Context, is_authenticated}
use spur_messaging.Identity.Claims.{Claims, Decoders, context_from_claims}

-- `extractBearerToken`, given the Authorization header.
unfoldable pub extract_bearer_token : String → String
extract_bearer_token auth = elim (cut_prefix "Bearer " auth) [
  | none ↦ ""
  | some rest ↦ trim_space rest
]

-- The name of the cookie, where the caller gives none.
abbrev pub cookie_name_of : String → String
cookie_name_of name = if is_empty name then "spur_sso" else name

abbrev pub cookie_value : Option String → String
cookie_value (some value) = value
cookie_value none = ""

-- The token of the header, else the one of the cookie.
unfoldable pub request_token :
    String → (auth : String) → (cookies : String → Option String) → String
unfolding extract_bearer_token
request_token cookie_name auth cookies =
    let token = extract_bearer_token auth in
    if is_empty token then cookie_value (cookies (cookie_name_of cookie_name)) else token

abbrev pub value_of : Result Context → Option Context
value_of (ok c) = some c
value_of (err e) = none

module _ (decoders : Decoders) where
  abbrev pub unmarshalled : Result (List ℕ) → Result Claims
  unmarshalled (ok payload) = decoders.unmarshal payload
  unmarshalled (err e) = err e

  abbrev pub claims_of_parts : List String → Result Claims
  claims_of_parts (header ∷ payload ∷ parts) = unmarshalled (decoders.decode_base64 payload)
  claims_of_parts parts = err (other "http: named cookie not present")

  -- `parseJWTClaims`; the separator is the full stop.
  unfoldable pub parse_jwt_claims : String → Result Claims
  unfolding split_on
  parse_jwt_claims token = claims_of_parts (split_on 46 token)

  -- The context of the next handler, by whether the request is authenticated already.
  abbrev pub served_with : Bool → Context → Result Claims → Option Context
  served_with true ctx r = some ctx
  served_with false ctx (err e) = none
  served_with false ctx (ok claims) = value_of (context_from_claims decoders ctx claims)

  -- `IdentityJWTBridge`: the context that the next handler is served with, or none, for a 401.
  unfoldable pub bridge :
      (cookie_name : String)
      → Context
      → (auth : String) → (cookies : String → Option String) → Option Context
  unfolding is_authenticated parse_jwt_claims request_token
  bridge cookie_name ctx auth cookies =
      served_with (is_authenticated ctx) ctx
        (parse_jwt_claims (request_token cookie_name auth cookies))
