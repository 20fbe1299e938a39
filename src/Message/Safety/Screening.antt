-- ===== src/Message/Safety/Screening.antt =====
-- core/services/message_service.go: what the checks before queueing have seen.
use spur_messaging.Prelude.{Bool, true, false, not, ◌&&◌, ◌≡◌, inl, inr, Any}
use spur_messaging.Domain.Message.{Uuid, is_email, is_whatsapp, is_template}
use spur_messaging.Calls.{ok}
use spur_messaging.Message.Env.{
  SendRequest, ServiceConfig, MessageEnv, History, asked_suppressed, asked_unsubscribed,
}
use spur_messaging.Message.Email.{TextEngine}
use spur_messaging.Message.Checks.{is_marketing, check_suppressed, check_unsubscribed}
use spur_messaging.Message.Send.{compose, unless_unsubscribed, unless_suppressed, deliver, screen}
use spur_messaging.Message.Rules.{Yields, bind-Yields}
use spur_messaging.Message.Trace.{
  check_suppressed-IsQuiet, check_unsubscribed-IsQuiet, check_whatsapp-IsQuiet,
}
use spur_messaging.Message.Cleared.{
  target_of, FoundApproved, FoundSession, suppressed_lem, subscribed_lem, approved_lem, session_lem,
}
use spur_messaging.Message.Growth.{
  create_suppressed-IsQuiet, compose-Keeps, deliver-Keeps, unless_suppressed-Keeps,
}
use spur_messaging.Message.Sent.{IsSent, deliver-IsSent}

module _ (engine : TextEngine) (env : MessageEnv) (cfg : ServiceConfig) (tenant_id : Uuid) where
  -- The two facts that an accepted WhatsApp message rests on.
  abbrev WhatsappCleared : SendRequest → History → Type 0
  WhatsappCleared req h =
      (is_whatsapp req.channel && is_template req.message_type ≡ true
        → FoundApproved tenant_id (target_of req) h)
      × (is_whatsapp req.channel && not (is_template req.message_type) ≡ true
          → FoundSession tenant_id (target_of req) h)

  deliver_cleared :
      (req : SendRequest) (h : History)
      → Yields (deliver engine env cfg tenant_id req) h (λ base out. WhatsappCleared req out.1)
  unfolding deliver
  deliver_cleared req h =
      bind-Yields (compose engine env cfg tenant_id req)
        (check_whatsapp-IsQuiet env cfg tenant_id req)
        λ c e. record {
          yields = inr (
            λ f.
                (compose-Keeps engine env cfg tenant_id req c).keep _ _
                  (approved_lem env cfg tenant_id req h e f),
            λ f.
                (compose-Keeps engine env cfg tenant_id req c).keep _ _
                  (session_lem env cfg tenant_id req h e f),
          );
        }

  -- The lists' answers, and what an accepted WhatsApp message rests on.
  abbrev Screened : SendRequest → History → Type 0
  Screened req h =
      (cfg.has_suppression ≡ true
        → Any (λ c. c ≡ asked_suppressed tenant_id req.channel req.recipient (ok false)) h)
      × (is_email req.channel && cfg.has_unsubscribe && is_marketing req.metadata ≡ true
          → Any (λ c. c ≡ asked_unsubscribed tenant_id req.recipient (ok false)) h)
      × WhatsappCleared req h

  unsubscribed_screened :
      (req : SendRequest) (h : History) (b : Bool)
      → (check_unsubscribed env cfg tenant_id req h).0 ≡ ok b
      → Yields
          (unless_unsubscribed engine env cfg tenant_id req b)
          (check_unsubscribed env cfg tenant_id req h).1
          (λ base out.
            (is_email req.channel && cfg.has_unsubscribe && is_marketing req.metadata ≡ true
              → Any (λ c. c ≡ asked_unsubscribed tenant_id req.recipient (ok false)) out.1)
            × WhatsappCleared req out.1)
  unsubscribed_screened req h true e = record {
    yields = inl ((create_suppressed-IsQuiet engine env cfg tenant_id req _).quiet _);
  }
  unsubscribed_screened req h false e = record {
    yields = elim (deliver_cleared req _).yields [
      | inl same ↦ inl same
      | inr w ↦ inr (
        λ f.
            (deliver-Keeps engine env cfg tenant_id req).keep _ _
              (subscribed_lem env cfg tenant_id req h e f),
        w,
      )
    ];
  }

  suppressed-Screened :
      (req : SendRequest) (h : History) (b : Bool)
      → (check_suppressed env cfg tenant_id req h).0 ≡ ok b
      → Yields
          (unless_suppressed engine env cfg tenant_id req b)
          (check_suppressed env cfg tenant_id req h).1
          (λ base out. Screened req out.1)
  suppressed-Screened req h true e = record {
    yields = inl ((create_suppressed-IsQuiet engine env cfg tenant_id req _).quiet _);
  }
  suppressed-Screened req h false e = record {
    yields =
        elim (bind-Yields (unless_unsubscribed engine env cfg tenant_id req)
          (check_unsubscribed-IsQuiet env cfg tenant_id req) (unsubscribed_screened req _)).yields [
            | inl same ↦ inl same
            | inr (s, w) ↦ inr (
              λ f.
                  (unless_suppressed-Keeps engine env cfg tenant_id req false).keep _ _
                    (suppressed_lem env cfg tenant_id req h e f),
              s,
              w,
            )
          ];
  }

  pub screen-Screened :
      (req : SendRequest) (h : History)
      → Yields (screen engine env cfg tenant_id req) h (λ base out. Screened req out.1)
  unfolding screen
  screen-Screened req h =
      bind-Yields (unless_suppressed engine env cfg tenant_id req)
        (check_suppressed-IsQuiet env cfg tenant_id req) (suppressed-Screened req h)

  unsubscribed-IsSent :
      (req : SendRequest) (h : History) (b : Bool)
      → Yields
          (unless_unsubscribed engine env cfg tenant_id req b)
          h
          (IsSent tenant_id (target_of req))
  unsubscribed-IsSent req h true = record {
    yields = inl ((create_suppressed-IsQuiet engine env cfg tenant_id req _).quiet h);
  }
  unsubscribed-IsSent req h false = deliver-IsSent engine env cfg tenant_id req h

  suppressed-IsSent :
      (req : SendRequest) (h : History) (b : Bool)
      → Yields
          (unless_suppressed engine env cfg tenant_id req b)
          h
          (IsSent tenant_id (target_of req))
  suppressed-IsSent req h true = record {
    yields = inl ((create_suppressed-IsQuiet engine env cfg tenant_id req _).quiet h);
  }
  suppressed-IsSent req h false =
      bind-Yields (unless_unsubscribed engine env cfg tenant_id req)
        (check_unsubscribed-IsQuiet env cfg tenant_id req) (λ b e. unsubscribed-IsSent req _ b)

  pub screen-IsSent :
      (req : SendRequest) (h : History)
      → Yields (screen engine env cfg tenant_id req) h (IsSent tenant_id (target_of req))
  unfolding screen
  screen-IsSent req h =
      bind-Yields (unless_suppressed engine env cfg tenant_id req)
        (check_suppressed-IsQuiet env cfg tenant_id req) (λ b e. suppressed-IsSent req _ b)
