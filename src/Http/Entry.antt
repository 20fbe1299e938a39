-- ===== src/Http/Entry.antt =====
-- module.go: `RegisterRoutes`, the way of a request through the middleware to the handler of its route.
use spur_messaging.Prelude.{ℕ, String, Bool, true, false, Option, none, some, List, [], ◌∷◌}
use spur_messaging.Domain.Errors.{sentinel, rate_limit_exceeded, error_text}
use spur_messaging.Domain.Message.{Uuid, Time}
use spur_messaging.Calls.{Result, ok, err}
use spur_messaging.Identity.Context.{Context, tenant_id_of}
use spur_messaging.Identity.Claims.{Decoders}
use spur_messaging.Identity.Bridge.{bridge}
use spur_messaging.Access.Limiter.{Limits, serve}
use spur_messaging.Http.Env.{Request, HttpHistory, HttpEnv}
use spur_messaging.Http.Steps.{Outcome, refused, crashed, Success}
use spur_messaging.Http.Routes.{Endpoint}
use spur_messaging.Http.Dispatch.{handle}

-- A request as it arrives: its route, its cookies, and the time at which it takes the limiter's lock.
pub record Visit : Type 0 where
  pub request : Request
  pub endpoint : Endpoint
  pub cookies : String → Option String
  pub now : Time

-- The 401 of the bridge, or what `RespondError` or the handler makes of the request.
pub data Reply : Type 0 where
  turned_away : Reply
  answered : Outcome Success → Reply

-- What a request comes to: the reply, the calls that the handler made, the times that the limiter
-- keeps, and the tenant for whom the handler ran, if it did.
pub record Passage : Type 0 where
  pub reply : Reply
  pub calls : HttpHistory
  pub limits : Limits
  pub handled : Option Uuid

-- The log of requests, with one more if a handler ran for it.
abbrev pub note : Option Uuid → Time → List (Uuid × Time) → List (Uuid × Time)
note (some t) now log = (t, now) ∷ log
note none now log = log

module _ (decoders : Decoders) (max_requests : ℕ) (window : Time) (env : HttpEnv) where
  -- The handler, after the limiter's word.
  abbrev pub past_limiter : Visit → Context → Uuid → Bool × Limits → Passage
  past_limiter v c t (true, limits) =
      let (r, h) = handle env (record v.request { context = c }) v.endpoint [] in
      record { reply = answered r; calls = h; limits = limits; handled = some t }
  past_limiter v c t (false, limits) = record {
    reply = answered (refused (sentinel rate_limit_exceeded));
    calls = [];
    limits = limits;
    handled = none;
  }

  -- `RateLimiter.Middleware`.
  abbrev pub past_tenant : Limits → Visit → Context → Result Uuid → Passage
  past_tenant limits v c (ok t) = past_limiter v c t (serve max_requests window limits t v.now)
  past_tenant limits v c (err e) = record {
    reply = answered (crashed (error_text e));
    calls = [];
    limits = limits;
    handled = none;
  }

  abbrev pub past_bridge : Limits → Visit → Option Context → Passage
  past_bridge limits v (some c) = past_tenant limits v c (tenant_id_of c)
  past_bridge limits v none = record {
    reply = turned_away;
    calls = [];
    limits = limits;
    handled = none;
  }

  -- A request through the whole chain.
  unfoldable pub enter : Limits → Visit → Passage
  enter limits v =
      past_bridge limits v
        (bridge decoders "spur_sso" v.request.context (v.request.header "Authorization") v.cookies)

  -- Requests one after another, in the order in which they take the lock; the log is of those that
  -- reached a handler.
  abbrev pub enter_all : Limits → List (Uuid × Time) → List Visit → Limits × List (Uuid × Time)
  enter_all limits log [] = (limits, log)
  enter_all limits log (v ∷ vs) =
      let x = enter limits v in enter_all x.limits (note x.handled v.now log) vs
