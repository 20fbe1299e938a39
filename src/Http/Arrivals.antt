-- ===== src/Http/Arrivals.antt =====
-- module.go on one chain that lets two requests a minute through, and a token of a user who may send.
use spur_messaging.Prelude.{
  ◌≤◌, ◌≡◌, refl, none, some, List, [], ◌∷◌, str_eq, cut_prefix, trim_space, split_on, arith,
  length, if◌then◌else◌,
}
use spur_messaging.Domain.Errors.{other}
use spur_messaging.Calls.{ok, err}
use spur_messaging.Identity.Permissions.{messages_send}
use spur_messaging.Identity.Context.{
  Context, is_authenticated, tenant_id_of, with_identity, user_id_of,
}
use spur_messaging.Identity.Claims.{
  Claims, Decoders, text_claim, list_claim, claim_strings, is_super_admin, context_from_claims,
  with_user,
}
use spur_messaging.Identity.Bridge.{extract_bearer_token, request_token, parse_jwt_claims, bridge}
use spur_messaging.Access.Limiter.{filter_old_requests, serve}
use spur_messaging.Access.Windows.{recent_count, admitted_of}
use spur_messaging.Http.Tests.{env, request}
use spur_messaging.Http.Routes.{Endpoint}
use spur_messaging.Http.Entry.{Visit, turned_away, enter, enter_all}
use spur_messaging.Http.Entered.{IsPassage, enter-IsPassage}
use spur_messaging.Http.Metered.{enter_all-recent_count}

abbrev claims : Claims
claims key =
    if str_eq key "tid"
    then some (text_claim "t7")
    else if str_eq key "permissions"
    then some (list_claim (some messages_send ∷ []))
    else none

abbrev decoders : Decoders
decoders = record {
  parse_uuid = λ s. if str_eq s "t7" then ok 7 else err (other "invalid UUID length: 0");
  decode_base64 = λ s. if str_eq s "body" then ok (123 ∷ []) else err (other "illegal base64 data");
  unmarshal = λ bytes. ok claims;
}

abbrev blank : Context
blank = record { tenant = none; user = none; roles = none; permissions = none; method = none }

abbrev visit : Visit
visit = record {
  request = record request {
    context = blank;
    header = λ name. if str_eq name "Authorization" then "Bearer head.body.sum" else "";
  };
  endpoint = Endpoint.send;
  cookies = λ name. none;
  now = 1000;
}

enter-IsPassage_example :
    IsPassage decoders 2 60 env (λ t. []) visit (enter decoders 2 60 env (λ t. []) visit)
enter-IsPassage_example = enter-IsPassage decoders 2 60 env (λ t. []) visit

abbrev visits : List Visit
visits = visit ∷ record visit { now = 1010 } ∷ record visit { now = 1020 } ∷ []

enter_all-recent_count_example :
    recent_count 60 1020 (admitted_of 7 (enter_all decoders 2 60 env (λ t. []) [] visits).1) ≤ 2
enter_all-recent_count_example =
    enter_all-recent_count decoders 2 60 env visits 7 1020
      (omega arith, (omega arith, (omega arith, omega arith)))

-- The third of them is refused.
length-log : length (enter_all decoders 2 60 env (λ t. []) [] visits).1 ≡ 2
unfolding enter bridge request_token extract_bearer_token cut_prefix trim_space parse_jwt_claims
    split_on context_from_claims with_user claim_strings is_super_admin with_identity user_id_of
    is_authenticated tenant_id_of serve filter_old_requests
length-log = refl

-- Without a token there is a 401.
without_token :
    (enter decoders 2 60 env
      (λ t. [])
      (record visit { request = record request { context = blank } })).reply
    ≡ turned_away
unfolding enter bridge request_token extract_bearer_token cut_prefix parse_jwt_claims split_on
    is_authenticated
without_token = refl
