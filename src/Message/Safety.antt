-- ===== src/Message/Safety.antt =====
-- core/services/message_service.go: what `Send` guarantees of every message that reaches the queue.
pub mod Screening
pub use spur_messaging.Message.Safety.Screening.{screen-Screened, screen-IsSent}
use mathlib.Core.Path.{subst}
use spur_messaging.Prelude.{
  String, Bool, true, false, not, ◌&&◌, ◌≡◌, refl, ◌⊎◌, inl, inr, List, arith, Any, Option,
  trim_space, is_empty, Bool-cases,
}
use spur_messaging.Domain.Errors.{is_error, not_found}
use spur_messaging.Domain.Message.{Uuid, Message, is_email, is_whatsapp, is_template}
use spur_messaging.Domain.Contact.{Contact}
use spur_messaging.Calls.{ok, err, Result, attempt}
use spur_messaging.Message.Env.{
  SendRequest, SenderConfig, ServiceConfig, MessageEnv, QueueMessage, History, asked_suppressed,
  asked_unsubscribed,
}
use spur_messaging.Message.Email.{TextEngine}
use spur_messaging.Message.Checks.{
  is_marketing, resolve_request, find_contact, check_suppressed, check_unsubscribed,
}
use spur_messaging.Message.Send.{
  admit, send_with, unless_known, send_keyed, find_key, compose, unless_unsubscribed,
  unless_suppressed, deliver, screen, send_new, send,
}
use spur_messaging.Message.Rules.{queue_of, IsQuiet, Yields, bind-Yields}
use spur_messaging.Message.Trace.{
  find_provider-IsQuiet, find_contact-IsQuiet, check_opt_in-IsQuiet, check_suppressed-IsQuiet,
  check_unsubscribed-IsQuiet, check_whatsapp-IsQuiet, check_opt_in-Keeps,
}
use spur_messaging.Message.Cleared.{
  Target, target_of, FoundApproved, FoundSession, IsCleared, consent_lem, suppressed_lem,
  subscribed_lem, approved_lem, session_lem,
}
use spur_messaging.Message.Growth.{
  create_suppressed-IsQuiet, compose-Keeps, deliver-Keeps, unless_suppressed-Keeps, screen-Keeps,
}
use spur_messaging.Message.Sent.{IsSent, deliver-IsSent}

module _ (engine : TextEngine) (env : MessageEnv) (cfg : ServiceConfig) (tenant_id : Uuid) where
  -- Consent is looked up before anything else is asked.
  abbrev Cleared : Target → List QueueMessage → Result Message × History → Type 0
  Cleared to base out = IsSent tenant_id to base out × IsCleared cfg tenant_id to out.1

  admit-Cleared :
      (req : SendRequest) (h : History) {c : Option Contact}
      → (find_contact env cfg tenant_id req h).0 ≡ ok c
      → Yields
          (admit engine env cfg tenant_id req c)
          (find_contact env cfg tenant_id req h).1
          (Cleared (target_of req))
  admit-Cleared req h {c} e =
      bind-Yields (λ _. screen engine env cfg tenant_id req)
        (check_opt_in-IsQuiet env cfg tenant_id req c)
        λ u f. record {
          yields = elim (screen-IsSent engine env cfg tenant_id req _).yields [
            | inl same ↦ inl same
            | inr sent ↦ elim (screen-Screened engine env cfg tenant_id req _).yields [
              | inl same ↦ inl same
              | inr (unsuppressed, subscribed, (template_ok, session_ok)) ↦ inr (
                sent,
                record {
                  consent = λ g. (screen-Keeps engine env cfg tenant_id req).keep _ _ (
                      (check_opt_in-Keeps env cfg tenant_id req c).keep _ _
                        (consent_lem env cfg tenant_id req h e f g));
                  unsuppressed = unsuppressed;
                  subscribed = subscribed;
                  template_approved = template_ok;
                  session_open = session_ok;
                },
              )
            ]
          ];
        }

  resolve_target :
      (s : SenderConfig) (req : SendRequest) → target_of (resolve_request cfg s req) ≡ target_of req
  unfolding resolve_request
  resolve_target s req = ground arith

  send_with-Cleared :
      (req : SendRequest) (s : SenderConfig) (h : History)
      → Yields (send_with engine env cfg tenant_id req s) h (Cleared (target_of req))
  send_with-Cleared req s h =
      let resolved = resolve_request cfg s req in
      subst (λ to. Yields (send_with engine env cfg tenant_id req s) h (Cleared to))
        (resolve_target s req)
        (bind-Yields (admit engine env cfg tenant_id resolved)
          (find_contact-IsQuiet env cfg tenant_id resolved) (λ c e. admit-Cleared resolved h e))

  send_new-Cleared :
      (req : SendRequest) (h : History)
      → Yields (send_new engine env cfg tenant_id req) h (Cleared (target_of req))
  unfolding send_new
  send_new-Cleared req h =
      bind-Yields (send_with engine env cfg tenant_id req)
        (find_provider-IsQuiet env cfg tenant_id req.channel) λ s e. send_with-Cleared req s _

  unless_known-Cleared :
      (req : SendRequest) (r : Result Message) (h : History)
      → Yields (unless_known engine env cfg tenant_id req r) h (Cleared (target_of req))
  unless_known-Cleared req (ok row) h = record { yields = inl refl }
  unless_known-Cleared req (err e) h = elim (Bool-cases (is_error e not_found)) [
    | inl yes_it_is ↦ rw yes_it_is (send_new-Cleared req h)
    | inr no_other ↦ rw no_other (record { yields = inl refl })
  ]

  find_key-IsQuiet : (key : String) → IsQuiet (attempt (find_key engine env cfg tenant_id key))
  unfolding find_key
  find_key-IsQuiet key = record { quiet = λ h. refl }

  send_keyed-Cleared :
      (req : SendRequest) (b : Bool) (h : History)
      → Yields (send_keyed engine env cfg tenant_id req b) h (Cleared (target_of req))
  send_keyed-Cleared req true h = send_new-Cleared req h
  send_keyed-Cleared req false h =
      bind-Yields (unless_known engine env cfg tenant_id req) (find_key-IsQuiet req.idempotency_key)
        λ r e. unless_known-Cleared req r _

  -- Whatever the environment answers and whenever it fails, a run of `Send` either puts nothing on
  -- the queue, or stores a message with status queued, puts the stored row and nothing else on the
  -- queue, answers with that row, and has been cleared: outside transactional email a contact at
  -- the recipient has opted in on the channel; where the lists are wired, the suppression list and
  -- for marketing email the unsubscribe list answered no; on WhatsApp an approved template or an
  -- open session of the recipient was found.
  pub send-IsCleared :
      (req : SendRequest) (h : History)
      → let out = send engine env cfg tenant_id req h in
        (queue_of out.1 ≡ queue_of h)
        ⊎ (IsSent tenant_id (target_of req) (queue_of h) out
            × IsCleared cfg tenant_id (target_of req) out.1)
  unfolding send
  send-IsCleared req h =
      (send_keyed-Cleared (record req { idempotency_key = trim_space req.idempotency_key })
        (is_empty (trim_space req.idempotency_key)) h).yields
