-- ===== src/Access/Windows.antt =====
-- adapters/http/middleware.go: no tenant gets more requests through than the limit in any window.
use spur_messaging.Prelude.{
  ap, ◌<◌, ℕ, suc, ◌≤◌, true, ◌≡◌, refl, sym, ◌∙◌, inl, inr, List, [], ◌∷◌, ◌++◌, length,
  length-append, leb, leb→gt, ==_iff, ◌==◌, Bool-cases, if◌then◌else◌, arith,
}
use spur_messaging.Domain.Message.{Uuid, Time}
use spur_messaging.Access.Limiter.{Limits, is_recent, filter_old_requests, set_times, serve}

-- How many of these times fall into the window that ends now.
abbrev pub recent_count : Time → Time → List Time → ℕ
recent_count window now [] = 0
recent_count window now (t ∷ ts) =
    let rest = recent_count window now ts in if is_recent window now t then suc rest else rest

-- The times of the requests of a tenant that went on.
abbrev pub admitted_of : Uuid → List (Uuid × Time) → List Time
admitted_of u [] = []
admitted_of u ((t, now) ∷ log) = let rest = admitted_of u log in if u == t then now ∷ rest else rest

module _ (max_requests : ℕ) (window : Time) where
  -- The limiter over requests in the order in which they take the lock; the log is what went on.
  abbrev pub serve_all :
      Limits → List (Uuid × Time) → List (Uuid × Time) → Limits × List (Uuid × Time)
  serve_all limits log [] = (limits, log)
  serve_all limits log ((t, now) ∷ requests) =
      let (goes_on, limits') = serve max_requests window limits t now in
      serve_all limits' (if goes_on then (t, now) ∷ log else log) requests

  -- The clock does not go back, and no request is later than the end.
  abbrev pub IsOrdered : Time → List (Uuid × Time) → Time → Type 0
  IsOrdered start [] end = start ≤ end
  IsOrdered start ((t, now) ∷ requests) end = (start ≤ now) × IsOrdered now requests end

  recent_append :
      (now t : Time) (ts : List Time)
      → recent_count window now (ts ++ (t ∷ [])) ≡ recent_count window now (t ∷ ts)
  recent_append now t [] = refl
  recent_append now t (s ∷ ts) = ground (arith, recent_append now t ts)

  recent_filter :
      (now later : Time) (ts : List Time)
      → now ≤ later
      → recent_count window later (filter_old_requests window now ts) ≡ recent_count window later ts
  unfolding filter_old_requests
  recent_filter now later [] h = refl
  recent_filter now later (t ∷ ts) h = ground (arith, recent_filter now later ts h)

  recent-length : (now : Time) (ts : List Time) → recent_count window now ts ≤ length ts
  recent-length now [] = omega arith
  recent-length now (t ∷ ts) = ground (arith, recent-length now ts)

  -- The limiter knows of every admitted request that still counts, and these are few.
  pub record IsFaithful (last : Time) (limits : Limits) (log : List (Uuid × Time)) : Type 0 where
    known :
        (u : Uuid) (now : Time)
        → last ≤ now
        → recent_count window now (admitted_of u log) ≡ recent_count window now (limits u)
    few : (u : Uuid) (now : Time) → last ≤ now → recent_count window now (limits u) ≤ max_requests

  -- A tenant's count after its times are replaced.
  set_count :
      (now : Time) (t u : Uuid) (new : List Time) (limits : Limits)
      → recent_count window now (set_times t new limits u)
        ≡ (if u == t then recent_count window now new else recent_count window now (limits u))
  set_count now t u new limits = elim (Bool-cases (u == t)) [
    | inl same ↦ rw same refl
    | inr other ↦ rw other refl
  ]

  admitted_count :
      (now later : Time) (t u : Uuid) (log : List (Uuid × Time))
      → recent_count window later (admitted_of u ((t, now) ∷ log)) ≡ (
          if u == t
          then recent_count window later (now ∷ admitted_of u log)
          else recent_count window later (admitted_of u log))
  admitted_count now later t u log = elim (Bool-cases (u == t)) [
    | inl same ↦ rw same refl
    | inr other ↦ rw other refl
  ]

  limits_same : (limits : Limits) (t u : Uuid) → (u == t) ≡ true → limits u ≡ limits t
  limits_same limits t u e = ap limits ((==_iff u t).0 e)

  kept_count :
      (now later : Time) (limits : Limits) (t u : Uuid)
      → now ≤ later
      → (if u == t
          then recent_count window later (filter_old_requests window now (limits t))
          else recent_count window later (limits u))
        ≡ recent_count window later (limits u)
  kept_count now later limits t u h = elim (Bool-cases (u == t)) [
    | inl same ↦ rw same (
        recent_filter now later (limits t) h
        ∙ ap (recent_count window later) (sym (limits_same limits t u same)))
    | inr other ↦ rw other refl
  ]

  reject_IsFaithful :
      (last now : Time) (limits : Limits) (log : List (Uuid × Time)) (t : Uuid)
      → last ≤ now
      → IsFaithful last limits log
      → IsFaithful now (set_times t (filter_old_requests window now (limits t)) limits) log
  reject_IsFaithful last now limits log t h w = record {
    known = λ u later g.
        w.known u later (omega arith)
        ∙ sym (
            set_count later t u (filter_old_requests window now (limits t)) limits
            ∙ kept_count now later limits t u g);
    few = λ u later g.
        let same =
          set_count later t u (filter_old_requests window now (limits t)) limits
          ∙ kept_count now later limits t u g in
        omega (arith, w.few u later (omega arith));
  }

  cons_count :
      (later now : Time) (xs ys : List Time)
      → recent_count window later xs ≡ recent_count window later ys
      → recent_count window later (now ∷ xs) ≡ recent_count window later (now ∷ ys)
  cons_count later now xs ys e = ap (λ n. if is_recent window later now then suc n else n) e

  admit_IsFaithful :
      (last now : Time) (limits : Limits) (log : List (Uuid × Time)) (t : Uuid)
      → last ≤ now
      → length (filter_old_requests window now (limits t)) < max_requests
      → IsFaithful last limits log
      → IsFaithful now
          (set_times t (filter_old_requests window now (limits t) ++ (now ∷ [])) limits)
          ((t, now) ∷ log)
  admit_IsFaithful last now limits log t h room w = record {
    known = λ u later g. elim (Bool-cases (u == t)) [
      | inl same ↦
          let old = w.known u later (omega arith) in
          let filtered = recent_filter now later (limits t) g in
          let appended = recent_append later now (filter_old_requests window now (limits t)) in
          let tenant = ap (recent_count window later) (limits_same limits t u same) in
          rw same (
            cons_count later now (admitted_of u log) (filter_old_requests window now (limits t))
              (old ∙ tenant ∙ sym filtered)
            ∙ sym appended)
      | inr other ↦ rw other (w.known u later (omega arith))
    ];
    few = λ u later g. elim (Bool-cases (u == t)) [
      | inl same ↦
          let fits =
            recent-length later (filter_old_requests window now (limits t) ++ (now ∷ [])) in
          let longer = length-append (filter_old_requests window now (limits t)) (now ∷ []) in
          rw same (omega arith)
      | inr other ↦ rw other (w.few u later (omega arith))
    ];
  }

  pub serve-IsFaithful :
      (last now : Time) (limits : Limits) (log : List (Uuid × Time)) (t : Uuid)
      → last ≤ now
      → IsFaithful last limits log
      → let out = serve max_requests window limits t now in
        IsFaithful now out.1 (if out.0 then (t, now) ∷ log else log)
  unfolding serve
  serve-IsFaithful last now limits log t h w =
      elim (Bool-cases (leb max_requests (length (filter_old_requests window now (limits t))))) [
        | inl full ↦ rw full (reject_IsFaithful last now limits log t h w)
        | inr room ↦ rw room (
            admit_IsFaithful last now limits log t h
              (leb→gt max_requests (length (filter_old_requests window now (limits t))) room) w)
      ]

  pub IsFaithful-later :
      (start end : Time) (limits : Limits) (log : List (Uuid × Time))
      → start ≤ end
      → IsFaithful start limits log
      → IsFaithful end limits log
  IsFaithful-later start end limits log h w = record {
    known = λ u now g. w.known u now (omega arith);
    few = λ u now g. w.few u now (omega arith);
  }

  pub IsFaithful-start : IsFaithful 0 (λ t. []) []
  IsFaithful-start = record { known = λ v later h. refl; few = λ v later h. omega arith }

  -- A limiter that knows its log has let few requests of a tenant through.
  pub IsFaithful-recent_count :
      (now : Time) (limits : Limits) (log : List (Uuid × Time)) (u : Uuid)
      → IsFaithful now limits log
      → recent_count window now (admitted_of u log) ≤ max_requests
  IsFaithful-recent_count now limits log u w =
      omega (arith, w.known u now (omega arith), w.few u now (omega arith))

  all_IsFaithful :
      (requests log : List (Uuid × Time)) (limits : Limits) (start end : Time)
      → IsOrdered start requests end
      → IsFaithful start limits log
      → let out = serve_all limits log requests in IsFaithful end out.0 out.1
  all_IsFaithful [] log limits start end order w = IsFaithful-later start end limits log order w
  all_IsFaithful ((t, now) ∷ requests) log limits start end order w =
      all_IsFaithful requests
        (if (serve max_requests window limits t now).0 then (t, now) ∷ log else log)
        (serve max_requests window limits t now).1 now end order.1
        (serve-IsFaithful start now limits log t order.0 w)

  -- A limiter that starts with no requests, after any requests of any tenants in the order in which
  -- they took the lock, with a clock that did not go back: of the requests of one tenant that went
  -- on, at most the limit fall into the window that ends at the last request or at any later time.
  pub serve_all-recent_count :
      (requests : List (Uuid × Time)) (u : Uuid) (now : Time)
      → IsOrdered 0 requests now
      → recent_count window now (admitted_of u (serve_all (λ t. []) [] requests).1) ≤ max_requests
  serve_all-recent_count requests u now order =
      let (limits, log) = serve_all (λ t. []) [] requests in
      IsFaithful-recent_count now limits log u
        (all_IsFaithful requests [] (λ t. []) 0 now order IsFaithful-start)
