-- ===== src/Message/Idempotency.antt =====
-- core/services/message_service.go: a request with an idempotency key is answered with one row,
-- however often it is made.
pub mod Held
pub use spur_messaging.Message.Idempotency.Held.{
  IsHeld, FindsHeld, Answers, bind-Answers, store-IsHeld, put_if_fresh-row, put_if_fresh-IsHeld,
}
use mathlib.Core.Path.{subst}
use spur_messaging.Prelude.{
  String, Bool, true, false, ◌≡◌, refl, ◌⊎◌, inl, inr, ◌∷◌, Any, none, some, ◌∙◌, ap, trim_space,
  is_empty, if◌then◌else◌, ℕ, arith,
}
use spur_messaging.Domain.Errors.{GoError, is_error, not_found}
use spur_messaging.Domain.Message.{Uuid, Message}
use spur_messaging.Calls.{Result, ok, err, Op, ◌>>=◌, pure, fail, attempt, bind_cases}
use spur_messaging.Message.Env.{
  SendRequest, SenderConfig, ServiceConfig, MessageCall, MessageEnv, History, created, asked_key,
}
use spur_messaging.Message.Email.{TextEngine}
use spur_messaging.Message.Checks.{
  resolve_request, find_provider, find_contact, check_opt_in, check_suppressed, check_unsubscribed,
  check_whatsapp,
}
use spur_messaging.Message.Build.{prepare, build, build_suppressed}
use spur_messaging.Message.Send.{
  Stored, fresh, existing, row_of, store, store_row, find_key, put_on_queue, put_if_fresh,
  priority_of, create_suppressed, keep_message, build_message, compose, deliver,
  unless_unsubscribed, unless_suppressed, screen, admit, send_with, send_new, unless_known,
  send_keyed, send,
}
use spur_messaging.Message.Trace.{store_lem, prepare_lem, build_lem, build_suppressed_lem}
use spur_messaging.Message.Growth.{put_on_queue-Keeps}

module _ (engine : TextEngine) (env : MessageEnv) (cfg : ServiceConfig) (tenant_id : Uuid) where
  module _ (key : String) (keyed : is_empty key ≡ false) where
    IsHeld-after :
        (k : String) (m : Message) (h : History) (s : Stored) {k' : String}
        → k ≡ key
        → k' ≡ key
        → m.tenant_id ≡ tenant_id
        → m.idempotency_key ≡ (if is_empty k' then none else some k')
        → (store engine env cfg tenant_id k m h).0 ≡ ok s
        → IsHeld tenant_id key (row_of s) (store engine env cfg tenant_id k m h).1
    IsHeld-after k m h s ek ek' et em es =
        let same : m.idempotency_key ≡ some k = ground arith in
        subst (λ x. IsHeld tenant_id x (row_of s) (store engine env cfg tenant_id k m h).1) ek
          (store-IsHeld engine env cfg tenant_id k m h s et same es)

    put-Answers :
        (p : SendRequest) (n : ℕ) (s : Stored) (h : History)
        → IsHeld tenant_id key (row_of s) h
        → Answers tenant_id key (put_if_fresh engine env cfg tenant_id p n s) h
    put-Answers p n s h w = record {
      answers = λ row e. put_if_fresh-IsHeld engine env cfg tenant_id p n s key row h (
          subst (λ r. IsHeld tenant_id key r h)
            (put_if_fresh-row engine env cfg tenant_id p n s h row e) w);
    }

    pure-Answers :
        (row : Message) (h : History)
        → IsHeld tenant_id key row h
        → Answers tenant_id key (pure row) h
    pure-Answers row h w = record { answers = λ r e. subst (λ x. IsHeld tenant_id key x h) (cc) w }

    suppressed-Answers :
        (req : SendRequest) (code : String) (h : History)
        → req.idempotency_key ≡ key
        → Answers tenant_id key (create_suppressed engine env cfg tenant_id req code) h
    unfolding create_suppressed
    suppressed-Answers req code h ek =
        bind-Answers (build_suppressed engine env cfg tenant_id req code)
          (store_row engine env cfg tenant_id req)
          λ m em.
            bind-Answers (store engine env cfg tenant_id req.idempotency_key m)
              (λ s. pure (row_of s))
              λ s es.
                let facts = build_suppressed_lem engine env cfg tenant_id req code h em in
                pure-Answers (row_of s) _
                  (IsHeld-after req.idempotency_key m _ s ek ek facts.0 facts.1 es)

    deliver-Answers :
        (req : SendRequest) (h : History)
        → req.idempotency_key ≡ key
        → Answers tenant_id key (deliver engine env cfg tenant_id req) h
    unfolding deliver
    deliver-Answers req h ek =
        bind-Answers (check_whatsapp env cfg tenant_id req) (compose engine env cfg tenant_id req)
          λ c _.
            bind-Answers (prepare engine env cfg tenant_id req)
              (build_message engine env cfg tenant_id req c)
              λ p ep.
                bind-Answers (build engine env cfg tenant_id p c)
                  (keep_message engine env cfg tenant_id req p)
                  λ m em.
                    bind-Answers (store engine env cfg tenant_id req.idempotency_key m)
                      (put_if_fresh engine env cfg tenant_id p
                        (priority_of engine env cfg tenant_id m))
                      λ s es.
                        let same = (prepare_lem engine env cfg tenant_id req _ ep).2 in
                        let facts = build_lem engine env cfg tenant_id p c _ em in
                        put-Answers p _ s _
                          (IsHeld-after req.idempotency_key m _ s ek (same ∙ ek) facts.1 facts.4 es)

    unsubscribed-Answers :
        (req : SendRequest) (b : Bool) (h : History)
        → req.idempotency_key ≡ key
        → Answers tenant_id key (unless_unsubscribed engine env cfg tenant_id req b) h
    unsubscribed-Answers req true h ek = suppressed-Answers req _ h ek
    unsubscribed-Answers req false h ek = deliver-Answers req h ek

    blocked-Answers :
        (req : SendRequest) (b : Bool) (h : History)
        → req.idempotency_key ≡ key
        → Answers tenant_id key (unless_suppressed engine env cfg tenant_id req b) h
    blocked-Answers req true h ek = suppressed-Answers req _ h ek
    blocked-Answers req false h ek =
        bind-Answers (check_unsubscribed env cfg tenant_id req)
          (unless_unsubscribed engine env cfg tenant_id req) λ b _. unsubscribed-Answers req b _ ek

    screen-Answers :
        (req : SendRequest) (h : History)
        → req.idempotency_key ≡ key
        → Answers tenant_id key (screen engine env cfg tenant_id req) h
    unfolding screen
    screen-Answers req h ek =
        bind-Answers (check_suppressed env cfg tenant_id req)
          (unless_suppressed engine env cfg tenant_id req) λ b _. blocked-Answers req b _ ek

    resolved-key :
        (s : SenderConfig) (req : SendRequest)
        → (resolve_request cfg s req).idempotency_key ≡ req.idempotency_key
    unfolding resolve_request
    resolved-key s req = ground arith

    send_new-Answers :
        (req : SendRequest) (h : History)
        → req.idempotency_key ≡ key
        → Answers tenant_id key (send_new engine env cfg tenant_id req) h
    unfolding send_new
    send_new-Answers req h ek =
        bind-Answers (find_provider env cfg tenant_id req.channel)
          (send_with engine env cfg tenant_id req)
          λ s _.
            let resolved = resolve_request cfg s req in
            bind-Answers (find_contact env cfg tenant_id resolved)
              (admit engine env cfg tenant_id resolved)
              λ c _.
                bind-Answers (check_opt_in env cfg tenant_id resolved c)
                  (λ _. screen engine env cfg tenant_id resolved)
                  λ _ _. screen-Answers resolved _ (resolved-key s req ∙ ek)

    new_or_error-Answers :
        (req : SendRequest) (e : GoError) (b : Bool) (h : History)
        → req.idempotency_key ≡ key
        → Answers tenant_id key (if b then send_new engine env cfg tenant_id req else fail e) h
    new_or_error-Answers req e true h ek = send_new-Answers req h ek
    new_or_error-Answers req e false h ek = record { answers = λ row q. absurd (cc q) }

    known-Answers :
        (req : SendRequest) (found : Result Message) (h : History)
        → req.idempotency_key ≡ key
        → (attempt (find_key engine env cfg tenant_id req.idempotency_key) h).0 ≡ ok found
        → Answers tenant_id key
            (unless_known engine env cfg tenant_id req found)
            (attempt (find_key engine env cfg tenant_id req.idempotency_key) h).1
    unfolding find_key
    known-Answers req (ok row) h ek e = pure-Answers row _ (inl (ground arith))
    known-Answers req (err e) h ek _ = new_or_error-Answers req e (is_error e not_found) _ ek

    send_keyed-Answers :
        (req : SendRequest) (h : History)
        → req.idempotency_key ≡ key
        → Answers tenant_id key (send_keyed engine env cfg tenant_id req false) h
    send_keyed-Answers req h ek =
        bind-Answers (attempt (find_key engine env cfg tenant_id req.idempotency_key))
          (unless_known engine env cfg tenant_id req) λ found e. known-Answers req found h ek e

    known_key :
        (req : SendRequest) (h : History) (row : Message)
        → env.get_by_idempotency_key h tenant_id req.idempotency_key ≡ ok row
        → send_keyed engine env cfg tenant_id req false h
          ≡ (ok row, asked_key tenant_id req.idempotency_key (ok row) ∷ h)
    unfolding find_key
    known_key req h row found = rw found refl

    keyed_again :
        (req : SendRequest) (b : Bool) (h later : History) {row : Message}
        → FindsHeld env tenant_id key (send_keyed engine env cfg tenant_id req b h).1 later
        → req.idempotency_key ≡ key
        → b ≡ false
        → (send_keyed engine env cfg tenant_id req b h).0 ≡ ok row
        → send_keyed engine env cfg tenant_id req b later
          ≡ (ok row, asked_key tenant_id key (ok row) ∷ later)
    keyed_again req true h later law ek eb e = absurd (cc eb)
    keyed_again req false h later {row} law ek eb e =
        let found = law.finds_held row ((send_keyed-Answers req h ek).answers row e) in
        subst
          (λ k.
            send_keyed engine env cfg tenant_id req false later
            ≡ (ok row, asked_key tenant_id k (ok row) ∷ later))
          ek (known_key req later row (ap (env.get_by_idempotency_key later tenant_id) ek ∙ found))

  -- A request with a key that was answered with a row is answered with the same row whenever it is
  -- made again, by one lookup of the key and no other call: nothing is stored and nothing is
  -- queued. The messages table is one that still finds the row that was stored or found under the
  -- key when the request was first made.
  pub send_send :
      (raw : SendRequest) (h later : History) {row : Message}
      → FindsHeld env tenant_id
          (trim_space raw.idempotency_key)
          (send engine env cfg tenant_id raw h).1
          later
      → is_empty (trim_space raw.idempotency_key) ≡ false
      → (send engine env cfg tenant_id raw h).0 ≡ ok row
      → send engine env cfg tenant_id raw later
        ≡ (ok row, asked_key tenant_id (trim_space raw.idempotency_key) (ok row) ∷ later)
  unfolding send
  send_send raw h later law keyed e =
      let key = trim_space raw.idempotency_key in
      keyed_again key keyed (record raw { idempotency_key = key }) (is_empty key) h later law refl
        keyed e
