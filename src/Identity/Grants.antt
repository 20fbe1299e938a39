-- ===== src/Identity/Grants.antt =====
-- What an identity is granted: by the claims of its token, and by the roles of the module.
use mathlib.Core.Path.{subst}
use spur_messaging.Prelude.{
  All-at, String, Bool, true, false, ◌||◌, ◌&&◌, ◌≡◌, refl, sym, ◌∙◌, ap, List, [], ◌∷◌, ◌++◌,
  str_eq_iff, arith, Any,
}
use spur_messaging.Domain.Message.{Uuid}
use spur_messaging.Calls.{Result, ok, err}
use spur_messaging.Identity.Permissions.{RoleTemplate, role_templates, keys}
use spur_messaging.Identity.Context.{
  Context, with_identity, with_star, with_api_key, grants, is_among, has_permission, tenant_id_of,
  auth_method_of,
}
use spur_messaging.Identity.Claims.{
  Claims, Decoders, claim_strings, is_super_admin, with_user, context_from_claims, tenant_text,
  identify, identified, with_tenant, text_of,
}

-- The key itself or the wildcard is on the list.
abbrev pub lists : String → List String → Bool
lists permission ps = is_among permission ps || is_among "*" ps

grants-lists : (permission : String) (ps : List String) → grants permission ps ≡ lists permission ps
unfolding grants is_among
grants-lists permission [] = refl
grants-lists permission (p ∷ ps) = let later = grants-lists permission ps in ground arith

is_among-append :
    (s : String) (xs ys : List String) → is_among s (xs ++ ys) ≡ (is_among s xs || is_among s ys)
unfolding is_among
is_among-append s [] ys = refl
is_among-append s (x ∷ xs) ys = let later = is_among-append s xs ys in ground arith

grants-with_star :
    (permission : String) (b : Bool) (ps : List String)
    → grants permission (with_star b ps) ≡ (lists permission ps || b)
unfolding is_among
grants-with_star permission false ps = grants-lists permission ps ∙ or_false (lists permission ps)
  where
    or_false : (b : Bool) → b ≡ (b || false)
    or_false true = refl
    or_false false = refl
grants-with_star permission true ps =
    let all = grants-lists permission (ps ++ ("*" ∷ [])) in
    let star = is_among-append "*" ps ("*" ∷ []) in ground arith

abbrev or_else : Context → Result Context → Context
or_else c (ok x) = x
or_else c (err e) = c

module _ (decoders : Decoders) where
  identify_lem :
      (ctx : Context) (claims : Claims) (t : Uuid) (permission : String)
      → let ctx' = identify decoders ctx claims t in
        (tenant_id_of ctx' ≡ ok t)
        × (has_permission ctx' permission
            ≡ (lists permission (claim_strings (claims "permissions")) || is_super_admin claims))
        × (auth_method_of ctx' ≡ "jwt")
  unfolding has_permission tenant_id_of auth_method_of with_identity
  identify_lem ctx claims t permission = (
    ground arith,
    grants-with_star permission (is_super_admin claims) (claim_strings (claims "permissions")),
    refl,
  )

  -- A context that is made from claims is the tenant's whom the claims name, and has a permission
  -- just where the claims list it or the wildcard, or say that the user is a super admin, whatever
  -- the context before granted; it was authenticated by a token.
  pub context_from_claims_lem :
      (ctx : Context) (claims : Claims) (permission : String) {ctx' : Context} {t : Uuid}
      → decoders.parse_uuid (tenant_text decoders claims) ≡ ok t
      → context_from_claims decoders ctx claims ≡ ok ctx'
      → (tenant_id_of ctx' ≡ ok t)
        × (has_permission ctx' permission
            ≡ (lists permission (claim_strings (claims "permissions")) || is_super_admin claims))
        × (auth_method_of ctx' ≡ "jwt")
  unfolding context_from_claims
  context_from_claims_lem ctx claims permission {ctx'} {t} p e =
      go (with_user decoders ctx (text_of (claims "sub"))) e
    where
      go :
          (r : Result Context)
          → with_tenant decoders claims r ≡ ok ctx'
          → (tenant_id_of ctx' ≡ ok t)
            × (has_permission ctx' permission ≡ (
                lists permission (claim_strings (claims "permissions")) || is_super_admin claims))
            × (auth_method_of ctx' ≡ "jwt")
      go (err x) f = ground arith
      go (ok c) f =
          let same : identify decoders c claims t ≡ ctx' =
            ap (or_else ctx') (sym (ap (identified decoders c claims) p) ∙ f) in
          subst
            (λ x.
              (tenant_id_of x ≡ ok t)
              × (has_permission x permission ≡ (
                  lists permission (claim_strings (claims "permissions")) || is_super_admin claims))
              × (auth_method_of x ≡ "jwt"))
            same (identify_lem c claims t permission)

abbrev all_among : List String → List String → Bool
all_among [] ks = true
all_among (p ∷ ps) ks = is_among p ks && all_among ps ks

grants_within :
    (permission : String) (ps ks : List String)
    → is_among "*" ks ≡ false
    → all_among ps ks ≡ true
    → grants permission ps ≡ true
    → is_among permission ks ≡ true
unfolding grants
grants_within permission [] ks star sub e = ground arith
grants_within permission (p ∷ ps) ks star sub e =
    let later = grants_within permission ps ks star in
    let one = λ (q : p ≡ permission). ap (λ x. is_among x ks) q in
    let two = λ (q : p ≡ "*"). ap (λ x. is_among x ks) q in
    ground (arith, str_eq_iff p permission, str_eq_iff p "*")

-- A key with the scopes of one of the module's roles has no permission that is missing from the
-- catalog, whatever the context held before.
pub role_templates_lem :
    (ctx : Context) (tenant_id : Uuid) (r : RoleTemplate) (permission : String)
    → Any (λ x. x ≡ r) role_templates
    → has_permission (with_api_key ctx tenant_id r.permissions) permission ≡ true
    → is_among permission keys ≡ true
unfolding has_permission with_api_key is_among
role_templates_lem ctx tenant_id r permission m e =
    grants_within permission r.permissions keys refl
      (All-at (λ x. all_among x.permissions keys ≡ true) role_templates
        (refl, (refl, (refl, (refl, (refl, (refl, tt)))))) m)
      e
