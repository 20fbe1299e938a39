-- ===== src/Http/Metered.antt =====
-- module.go: how many requests of a tenant reach the handlers.
use spur_messaging.Prelude.{
  ℕ, ◌≤◌, Bool, true, false, Option, none, some, List, [], ◌∷◌, if◌then◌else◌,
}
use spur_messaging.Domain.Message.{Uuid, Time}
use spur_messaging.Calls.{Result, ok, err}
use spur_messaging.Identity.Context.{Context, tenant_id_of}
use spur_messaging.Identity.Claims.{Decoders}
use spur_messaging.Access.Limiter.{Limits, serve}
use spur_messaging.Access.Windows.{
  IsFaithful, IsFaithful-later, IsFaithful-start, IsFaithful-recent_count, serve-IsFaithful,
  recent_count, admitted_of,
}
use spur_messaging.Http.Env.{HttpEnv}
use spur_messaging.Http.Entry.{
  Visit, Passage, past_limiter, past_tenant, past_bridge, enter, note, enter_all,
}

-- The clock does not go back from one request to the next, and no request is later than the end.
abbrev pub IsTimely : Time → List Visit → Time → Type 0
IsTimely start [] end = start ≤ end
IsTimely start (v ∷ vs) end = (start ≤ v.now) × IsTimely v.now vs end

module _ (decoders : Decoders) (max_requests : ℕ) (window : Time) (env : HttpEnv) where
  -- The limiter knows of the requests that reached a handler before, and of this one if it does.
  abbrev Knows : Time → List (Uuid × Time) → Passage → Type 0
  Knows now log x = IsFaithful max_requests window now x.limits (note x.handled now log)

  past_limiter-Knows :
      (v : Visit) (c : Context) (t : Uuid) (log : List (Uuid × Time)) (out : Bool × Limits)
      → IsFaithful max_requests window v.now out.1 (if out.0 then (t, v.now) ∷ log else log)
      → Knows v.now log (past_limiter decoders max_requests window env v c t out)
  past_limiter-Knows v c t log (true, limits) w = w
  past_limiter-Knows v c t log (false, limits) w = w

  module _ (last : Time) (limits : Limits) (log : List (Uuid × Time)) (v : Visit) where
    past_tenant-Knows :
        (c : Context) (r : Result Uuid)
        → last ≤ v.now
        → IsFaithful max_requests window last limits log
        → Knows v.now log (past_tenant decoders max_requests window env limits v c r)
    past_tenant-Knows c (ok t) h w =
        past_limiter-Knows v c t log (serve max_requests window limits t v.now)
          (serve-IsFaithful max_requests window last v.now limits log t h w)
    past_tenant-Knows c (err e) h w = IsFaithful-later max_requests window last v.now limits log h w

    past_bridge-Knows :
        (o : Option Context)
        → last ≤ v.now
        → IsFaithful max_requests window last limits log
        → Knows v.now log (past_bridge decoders max_requests window env limits v o)
    past_bridge-Knows (some c) h w = past_tenant-Knows c (tenant_id_of c) h w
    past_bridge-Knows none h w = IsFaithful-later max_requests window last v.now limits log h w

    enter-Knows :
        last ≤ v.now
        → IsFaithful max_requests window last limits log
        → Knows v.now log (enter decoders max_requests window env limits v)
    unfolding enter
    enter-Knows h w = past_bridge-Knows _ h w

  enter_all-IsFaithful :
      (vs : List Visit) (log : List (Uuid × Time)) (limits : Limits) (start end : Time)
      → IsTimely start vs end
      → IsFaithful max_requests window start limits log
      → let out = enter_all decoders max_requests window env limits log vs in
        IsFaithful max_requests window end out.0 out.1
  enter_all-IsFaithful [] log limits start end order w =
      IsFaithful-later max_requests window start end limits log order w
  enter_all-IsFaithful (v ∷ vs) log limits start end order w =
      let x = enter decoders max_requests window env limits v in
      enter_all-IsFaithful vs (note x.handled v.now log) x.limits v.now end order.1
        (enter-Knows start limits log v order.0 w)

  -- After any requests through the middleware, with whatever tokens they came, from a limiter that
  -- starts with none and with a clock that did not go back: of the requests for which a handler ran
  -- on behalf of one tenant, at most the limit fall into the window that ends at the last request or
  -- at any later time.
  pub enter_all-recent_count :
      (vs : List Visit) (u : Uuid) (now : Time)
      → IsTimely 0 vs now
      → recent_count window now
          (admitted_of u (enter_all decoders max_requests window env (λ t. []) [] vs).1)
        ≤ max_requests
  enter_all-recent_count vs u now order =
      let (limits, log) = enter_all decoders max_requests window env (λ t. []) [] vs in
      IsFaithful-recent_count max_requests window now limits log u
        (enter_all-IsFaithful vs [] (λ t. []) 0 now order (IsFaithful-start max_requests window))
