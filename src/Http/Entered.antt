-- ===== src/Http/Entered.antt =====
-- module.go: what the middleware lets through to the handlers.
use mathlib.Core.Path.{subst}
use spur_messaging.Prelude.{
  ℕ, ◌≤◌, ◌<◌, Bool, true, false, ◌≡◌, refl, sym, Option, none, some, [], ◌⊎◌, inl, inr, length,
  arith,
}
use spur_messaging.Domain.Errors.{sentinel, rate_limit_exceeded}
use spur_messaging.Domain.Message.{Uuid, Time}
use spur_messaging.Identity.Context.{Context, tenant_id_of, is_authenticated}
use spur_messaging.Identity.Claims.{Decoders}
use spur_messaging.Identity.Bridge.{bridge}
use spur_messaging.Identity.Bridged.{Identifies, bridge-Identifies, bridge-none, Identifies-tenant}
use spur_messaging.Access.Limiter.{Limits, filter_old_requests, serve}
use spur_messaging.Http.Env.{HttpEnv}
use spur_messaging.Http.Steps.{Outcome, refused, Success}
use spur_messaging.Http.Dispatch.{handle}
use spur_messaging.Http.Guarded.{AllGuarded, needed, handle-AllGuarded}
use spur_messaging.Http.Steady.{IsAnswer, handle-IsAnswer}
use spur_messaging.Http.Entry.{
  Visit, Passage, turned_away, answered, past_limiter, past_tenant, past_bridge, enter,
}

module _ (decoders : Decoders) (max_requests : ℕ) (window : Time) (env : HttpEnv) where
  -- The requests of a tenant that still count, when a request comes.
  abbrev pub counted : Limits → Uuid → Time → ℕ
  counted limits t now = length (filter_old_requests window now (limits t))

  -- An identified request is held back by the limiter, or runs its handler.
  abbrev pub IsServed : Limits → Visit → Context → Uuid → Passage → Type 0
  IsServed limits v c t x =
      ((x.reply ≡ answered (refused (sentinel rate_limit_exceeded)))
        × (x.calls ≡ [])
        × (max_requests ≤ counted limits t v.now))
      ⊎ ((r : Outcome Success) × (x.reply ≡ answered r)
          × IsAnswer r
          × AllGuarded c (needed v.endpoint) x.calls
          × (counted limits t v.now < max_requests))

  abbrev pub IsIdentity : Visit → Context → Type 0
  IsIdentity v =
      Identifies decoders "spur_sso" (v.request.header "Authorization") v.cookies v.request.context

  -- A request is turned away, or served under an identity and for its tenant.
  abbrev pub IsPassage : Limits → Visit → Passage → Type 0
  IsPassage limits v x =
      ((is_authenticated v.request.context ≡ false) × (x.reply ≡ turned_away) × (x.calls ≡ []))
      ⊎ ((c : Context) × (t : Uuid) × IsIdentity v c
          × (c.tenant ≡ some t)
          × IsServed limits v c t x)

  serve-room :
      (limits : Limits) (t : Uuid) (now : Time)
      → ((serve max_requests window limits t now).0 ≡ true → counted limits t now < max_requests)
        × ((serve max_requests window limits t now).0 ≡ false → max_requests ≤ counted limits t now)
  unfolding serve
  serve-room limits t now = ground arith

  past_limiter-IsServed :
      (limits : Limits) (v : Visit) (c : Context) (t : Uuid)
      → c.tenant ≡ some t
      → (out : Bool × Limits) → (out.0 ≡ true → counted limits t v.now < max_requests)
      → (out.0 ≡ false → max_requests ≤ counted limits t v.now)
      → IsServed limits v c t (past_limiter decoders max_requests window env v c t out)
  past_limiter-IsServed limits v c t own (true, limits') room full =
      let req = record v.request { context = c } in
      inr (
        (handle env req v.endpoint []).0,
        refl,
        handle-IsAnswer env req v.endpoint own,
        handle-AllGuarded env req v.endpoint,
        room refl,
      )
  past_limiter-IsServed limits v c t own (false, limits') room full = inl (refl, refl, full refl)

  past_tenant-IsServed :
      (limits : Limits) (v : Visit) (c : Context) (t : Uuid)
      → c.tenant ≡ some t
      → IsServed limits v c t
          (past_tenant decoders max_requests window env limits v c (tenant_id_of c))
  unfolding tenant_id_of
  past_tenant-IsServed limits v c t own =
      let (room, full) = serve-room limits t v.now in
      subst
        (λ o. IsServed limits v c t (
          past_tenant decoders max_requests window env limits v c
            (tenant_id_of (record c { tenant = o }))))
        (sym own)
        (past_limiter-IsServed limits v c t own (serve max_requests window limits t v.now) room
          full)

  past_bridge-IsPassage :
      (limits : Limits) (v : Visit) (o : Option Context)
      → bridge decoders "spur_sso" v.request.context (v.request.header "Authorization") v.cookies
        ≡ o
      → IsPassage limits v (past_bridge decoders max_requests window env limits v o)
  past_bridge-IsPassage limits v none p =
      inl (bridge-none decoders "spur_sso" _ v.cookies v.request.context p, refl, refl)
  past_bridge-IsPassage limits v (some c) p =
      let known =
        bridge-Identifies decoders "spur_sso" (v.request.header "Authorization") v.cookies
          v.request.context p in
      let (t, own) = Identifies-tenant decoders "spur_sso" _ _ v.request.context known in
      inr (c, t, known, own, past_tenant-IsServed limits v c t own)

  -- Whatever a request carries, and whatever the services answer: the bridge turns it away with 401 and
  -- nothing is asked, and it had no identity before; or it has one, which was there or is what the
  -- claims of its token grant: their tenant and their permissions. Then either the limiter refuses it,
  -- with nothing asked and the window of the tenant full; or the window has room, and the handler of
  -- the route answers without a panic and makes only calls that are guarded, for that tenant and with
  -- the permission of the route.
  pub enter-IsPassage :
      (limits : Limits) (v : Visit)
      → IsPassage limits v (enter decoders max_requests window env limits v)
  unfolding enter
  enter-IsPassage limits v = past_bridge-IsPassage limits v _ refl
