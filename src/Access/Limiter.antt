-- ===== src/Access/Limiter.antt =====
-- adapters/http/middleware.go: `RateLimiter`. The map from tenants to times is a function, with the
-- empty list where a key is missing; `serve` is the part of `Middleware` that holds the lock.
use spur_messaging.Prelude.{
  ℕ, ◌+◌, Bool, true, false, List, [], ◌∷◌, ◌++◌, length, leb, ltb, ◌==◌, if◌then◌else◌,
}
use spur_messaging.Domain.Message.{Uuid, Time}

abbrev pub Limits : Type 0
Limits = Uuid → List Time

-- `req.After(now.Add(-window))`.
abbrev pub is_recent : Time → Time → Time → Bool
is_recent window now t = ltb now (t + window)

-- `filterOldRequests`.
unfoldable pub filter_old_requests : Time → Time → List Time → List Time
filter_old_requests window now [] = []
filter_old_requests window now (t ∷ ts) =
    let rest = filter_old_requests window now ts in
    if is_recent window now t then t ∷ rest else rest

-- `rl.limits[tenantID] = times`.
abbrev pub set_times : Uuid → List Time → Limits → Limits
set_times tenant times limits u = if u == tenant then times else limits u

-- `Middleware` up to the next handler: whether the request goes on, and the new times.
unfoldable pub serve : (max_requests : ℕ) → Time → Limits → Uuid → Time → Bool × Limits
unfolding filter_old_requests
serve max_requests window limits tenant now =
    let kept = filter_old_requests window now (limits tenant) in
    if leb max_requests (length kept)
    then (false, set_times tenant kept limits)
    else (true, set_times tenant (kept ++ (now ∷ [])) limits)
