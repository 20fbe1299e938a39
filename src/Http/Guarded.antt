-- ===== src/Http/Guarded.antt =====
-- adapters/http: what a request may make the handlers ask of the services.
use spur_messaging.Prelude.{String, true, ◌≡◌, refl, ◌⊎◌, none, some, List, [], ◌∷◌, arith}
use spur_messaging.Identity.Context.{Context, has_permission, tenant_id_of, is_authenticated}
use spur_messaging.Identity.Permissions.{conversations_assign, providers_write}
use spur_messaging.Http.Env.{
  Request, Operation, HttpCall, HttpHistory, HttpEnv, read_clock, asked, asked_channel,
  asked_provider, created_provider, updated_provider, created_session, created_rate_card,
  update_conversation,
}
use spur_messaging.Message.Env.{SendRequest}
use spur_messaging.Http.Messages.{check_all_bulk}
use spur_messaging.Http.Routes.{Endpoint, documented}
use spur_messaging.Http.Dispatch.{handle}

-- An agent or a team is assigned only with a permission of its own.
abbrev pub MayAsk : Context → Operation → Type 0
MayAsk ctx (update_conversation id update) =
    ((update.assigned_agent_id ≡ none) × (update.assigned_team ≡ none))
    ⊎ (has_permission ctx conversations_assign ≡ true)
MayAsk ctx op = Unit

-- The call is made for the tenant of the request, or for no tenant in case of a rate card.
abbrev pub IsOwn : Context → HttpCall → Type 0
IsOwn ctx (read_clock now) = Unit
IsOwn ctx (asked t op r) = (ctx.tenant ≡ some t) × MayAsk ctx op
IsOwn ctx (asked_channel t c r) = ctx.tenant ≡ some t
IsOwn ctx (asked_provider t id r) = ctx.tenant ≡ some t
IsOwn ctx (created_provider cfg r) = ctx.tenant ≡ some cfg.tenant_id
IsOwn ctx (updated_provider cfg r) = ctx.tenant ≡ some cfg.tenant_id
IsOwn ctx (created_session t state r) = ctx.tenant ≡ some t
IsOwn ctx (created_rate_card owner body from r) = (owner ≡ none) ⊎ (owner ≡ ctx.tenant)

-- Every call is the tenant's, and made with the permission.
abbrev pub AllGuarded : Context → String → HttpHistory → Type 0
AllGuarded ctx p [] = Unit
AllGuarded ctx p (c ∷ h) = (has_permission ctx p ≡ true) × IsOwn ctx c × AllGuarded ctx p h

module _ (env : HttpEnv) where
  -- The checks of a list call nothing.
  pub check_all_bulk_lem :
      (rs : List SendRequest) (h : HttpHistory) → (check_all_bulk env rs h).1 ≡ h
  unfolding check_all_bulk
  check_all_bulk_lem [] h = refl
  check_all_bulk_lem (r ∷ rs) h = ground (arith, check_all_bulk_lem rs h)

-- What a route asks for: the permission that its comment documents, but for the onboarding
-- configuration, which asks for the one to write.
abbrev pub needed : Endpoint → String
unfolding documented
needed Endpoint.onboarding_config = providers_write
needed e = documented e

module _ (env : HttpEnv) (req : Request) where
  -- Whatever a request holds, whatever the services answer, and whichever route it comes by: what its
  -- handler asks of the services it asks for the tenant of the request, and only where the request has
  -- the permission that routes.go documents for the route (for the onboarding configuration, the one to
  -- write providers). A conversation is assigned to an agent or a team only with the permission to
  -- assign; a rate card is created for the tenant or for no tenant at all.
  pub handle-AllGuarded : (e : Endpoint) → AllGuarded req.context (needed e) (handle env req e []).1
  unfolding handle documented tenant_id_of is_authenticated
  handle-AllGuarded Endpoint.send_bulk = grind (arith, check_all_bulk_lem)
  handle-AllGuarded e = ground arith
