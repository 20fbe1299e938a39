-- ===== src/Identity/Bridged.antt =====
-- pkg/authctx/authctx.go: the identity under which the bridge lets a request through.
use mathlib.Core.Path.{subst}
use spur_messaging.Prelude.{
  String, Bool, true, false, ◌||◌, ◌≡◌, refl, sym, Option, none, some, ◌⊎◌, inl, inr, arith,
}
use spur_messaging.Domain.Message.{Uuid}
use spur_messaging.Calls.{Result, ok, err}
use spur_messaging.Identity.Context.{
  Context, is_authenticated, has_permission, tenant_id_of, auth_method_of,
}
use spur_messaging.Identity.Claims.{
  Claims, Decoders, claim_strings, is_super_admin, context_from_claims, tenant_text, with_tenant,
  with_user, text_of, identified,
}
use spur_messaging.Identity.Bridge.{request_token, parse_jwt_claims, bridge, served_with, value_of}
use spur_messaging.Identity.Grants.{lists, context_from_claims_lem}

value_of-ok : (r : Result Context) {c : Context} → value_of r ≡ some c → r ≡ ok c
value_of-ok (ok x) e = ground arith
value_of-ok (err x) e = ground arith

module _ (decoders : Decoders) where
  -- The identity that claims give: their tenant, and the permissions that they list, or every one for
  -- the wildcard and for a super admin.
  pub record IsGranted (claims : Claims) (c : Context) : Type 0 where
    pub tenant : Uuid
    pub is_tenant : decoders.parse_uuid (tenant_text decoders claims) ≡ ok tenant
    pub is_own : c.tenant ≡ some tenant
    pub permitted :
        (permission : String)
        → has_permission c permission
          ≡ (lists permission (claim_strings (claims "permissions")) || is_super_admin claims)
    pub is_by_token : auth_method_of c ≡ "jwt"

  identified-tenant :
      (ctx : Context) (claims : Claims) (r : Result Uuid) {c : Context}
      → identified decoders ctx claims r ≡ ok c
      → (t : Uuid) × (r ≡ ok t)
  identified-tenant ctx claims (ok t) e = (t, refl)
  identified-tenant ctx claims (err x) e = ground arith

  with_tenant-tenant :
      (claims : Claims) (r : Result Context) {c : Context}
      → with_tenant decoders claims r ≡ ok c
      → (t : Uuid) × (decoders.parse_uuid (tenant_text decoders claims) ≡ ok t)
  with_tenant-tenant claims (ok ctx) e =
      identified-tenant ctx claims (decoders.parse_uuid (tenant_text decoders claims)) e
  with_tenant-tenant claims (err x) e = ground arith

  tenant_id_of-tenant : (c : Context) {t : Uuid} → tenant_id_of c ≡ ok t → c.tenant ≡ some t
  unfolding tenant_id_of
  tenant_id_of-tenant c e = ground arith

  authenticated-tenant :
      (c : Context) → is_authenticated c ≡ true → (t : Uuid) × (c.tenant ≡ some t)
  unfolding is_authenticated
  authenticated-tenant c e = by_tenant c.tenant refl
    where
      by_tenant : (o : Option Uuid) → c.tenant ≡ o → (t : Uuid) × (c.tenant ≡ some t)
      by_tenant (some t) p = (t, p)
      by_tenant none p = ground arith

  context_from_claims-IsGranted :
      (ctx : Context) (claims : Claims) {c : Context}
      → context_from_claims decoders ctx claims ≡ ok c
      → IsGranted claims c
  unfolding context_from_claims
  context_from_claims-IsGranted ctx claims {c} e =
      let (t, p) = with_tenant-tenant claims (with_user decoders ctx (text_of (claims "sub"))) e in
      record {
        tenant = t;
        is_tenant = p;
        is_own =
            tenant_id_of-tenant c
              (context_from_claims_lem decoders ctx claims "" {ctx' = c} {t = t} p e).0;
        permitted = λ q. (context_from_claims_lem decoders ctx claims q {ctx' = c} {t = t} p e).1;
        is_by_token = (context_from_claims_lem decoders ctx claims "" {ctx' = c} {t = t} p e).2;
      }

  module _ (cookie_name : String) (auth : String) (cookies : String → Option String) where
    -- The identity that was there, or one that claims give which the token decodes to.
    abbrev pub Identifies : Context → Context → Type 0
    Identifies ctx c =
        ((is_authenticated ctx ≡ true) × (c ≡ ctx))
        ⊎ ((claims : Claims) × (parse_jwt_claims decoders (request_token cookie_name auth cookies)
              ≡ ok claims)
            × IsGranted claims c)

    served_with-Identifies :
        (b : Bool) (ctx : Context) (r : Result Claims) {c : Context}
        → is_authenticated ctx ≡ b
        → parse_jwt_claims decoders (request_token cookie_name auth cookies) ≡ r
        → served_with decoders b ctx r ≡ some c
        → Identifies ctx c
    served_with-Identifies true ctx r here p e = inl (here, ground arith)
    served_with-Identifies false ctx (err x) here p e = ground arith
    served_with-Identifies false ctx (ok claims) here p e = inr (
      claims,
      p,
      context_from_claims-IsGranted ctx claims
          (value_of-ok (context_from_claims decoders ctx claims) e),
    )

    pub bridge-Identifies :
        (ctx : Context) {c : Context}
        → bridge decoders cookie_name ctx auth cookies ≡ some c
        → Identifies ctx c
    unfolding bridge
    bridge-Identifies ctx e =
        served_with-Identifies (is_authenticated ctx) ctx
          (parse_jwt_claims decoders (request_token cookie_name auth cookies)) refl refl e

    served_with-none :
        (b : Bool) (ctx : Context) (r : Result Claims)
        → served_with decoders b ctx r ≡ none
        → b ≡ false
    served_with-none true ctx r e = ground arith
    served_with-none false ctx r e = refl

    pub bridge-none :
        (ctx : Context)
        → bridge decoders cookie_name ctx auth cookies ≡ none
        → is_authenticated ctx ≡ false
    unfolding bridge
    bridge-none ctx e =
        served_with-none (is_authenticated ctx) ctx
          (parse_jwt_claims decoders (request_token cookie_name auth cookies)) e

    -- An identity has a tenant.
    pub Identifies-tenant :
        (ctx : Context) {c : Context} → Identifies ctx c → (t : Uuid) × (c.tenant ≡ some t)
    Identifies-tenant ctx {c} (inl (p, q)) =
        authenticated-tenant c (subst (λ x. is_authenticated x ≡ true) (sym q) p)
    Identifies-tenant ctx (inr (claims, p, g)) = (g.tenant, g.is_own)
