-- ===== src/Identity/Claims.antt =====
-- pkg/authctx/authctx.go: from the claims of a token to the identity of a request.
use spur_messaging.Prelude.{
  ℕ, String, Bool, false, ◌||◌, Option, none, some, List, [], ◌∷◌, is_empty, if◌then◌else◌,
}
use spur_messaging.Domain.Message.{Uuid}
use spur_messaging.Calls.{Result, ok, err}
use spur_messaging.Identity.Context.{Context, with_identity, with_star, user_id_of}

-- A decoded JSON value, as far as the code tells values apart; an item of a list is its text, or
-- `none` where it is no text.
pub data Claim : Type 0 where
  text_claim : String → Claim
  bool_claim : Bool → Claim
  list_claim : List (Option String) → Claim
  other_claim : Claim

-- The decoded claims, by their keys.
abbrev pub Claims : Type 0
Claims = String → Option Claim

-- `v, _ := claims[key].(string)`.
abbrev pub text_of : Option Claim → String
text_of (some (text_claim s)) = s
text_of _ = ""

abbrev pub is_true : Option Claim → Bool
is_true (some (bool_claim b)) = b
is_true _ = false

abbrev pub add_text : Option String → List String → List String
add_text none ss = ss
add_text (some s) ss = if is_empty s then ss else s ∷ ss

unfoldable pub texts : List (Option String) → List String
texts [] = []
texts (x ∷ xs) = add_text x (texts xs)

-- `claimStrings`.
unfoldable pub claim_strings : Option Claim → List String
unfolding texts
claim_strings (some (list_claim xs)) = texts xs
claim_strings _ = []

-- `isSuperAdmin`.
unfoldable pub is_super_admin : Claims → Bool
is_super_admin claims = is_true (claims "sa") || is_true (claims "is_super_admin")

-- What the package calls: `uuid.Parse`, `base64.RawURLEncoding.DecodeString` with bytes as numbers,
-- and `json.Unmarshal` into claims.
pub record Decoders : Type 0 where
  pub parse_uuid : String → Result Uuid
  pub decode_base64 : String → Result (List ℕ)
  pub unmarshal : List ℕ → Result Claims

module _ (decoders : Decoders) where
  -- The user of the `sub` claim, where it has one.
  unfoldable pub with_user : Context → String → Result Context
  with_user ctx sub = if is_empty sub then ok ctx else elim (decoders.parse_uuid sub) [
    | ok u ↦ ok (record ctx { user = some u })
    | err e ↦ err e
  ]

  abbrev pub tenant_text : Claims → String
  tenant_text claims =
      let tid = text_of (claims "tid") in if is_empty tid then text_of (claims "tenant_id") else tid

  abbrev pub identify : Context → Claims → Uuid → Context
  identify ctx claims t =
      let here = record ctx { tenant = some t; roles = some (claim_strings (claims "roles")) } in
      with_identity here (record {
        tenant_id = t;
        user_id = user_id_of here;
        roles = claim_strings (claims "roles");
        permissions = with_star (is_super_admin claims) (claim_strings (claims "permissions"));
        auth_method = "jwt";
        super_admin = false;
      })

  abbrev pub identified : Context → Claims → Result Uuid → Result Context
  identified ctx claims (ok t) = ok (identify ctx claims t)
  identified ctx claims (err e) = err e

  abbrev pub with_tenant : Claims → Result Context → Result Context
  with_tenant claims (err e) = err e
  with_tenant claims (ok ctx) = identified ctx claims (decoders.parse_uuid (tenant_text claims))

  -- `contextFromClaims`.
  unfoldable pub context_from_claims : Context → Claims → Result Context
  unfolding with_user claim_strings is_super_admin with_identity user_id_of
  context_from_claims ctx claims = with_tenant claims (with_user ctx (text_of (claims "sub")))
