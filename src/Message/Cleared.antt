-- ===== src/Message/Cleared.antt =====
-- core/services/message_service.go: what clears a request for the queue, as facts of the history.
use spur_messaging.Prelude.{String, true, false, not, ◌&&◌, ◌≡◌, arith, Any, Option, Metadata}
use spur_messaging.Domain.Message.{
  Uuid, Time, MessageType, Channel, is_email, is_whatsapp, is_template,
}
use spur_messaging.Domain.Contact.{Contact, is_opted_in_on}
use spur_messaging.Domain.Template.{Template, approved}
use spur_messaging.Calls.{ok}
use spur_messaging.Message.Env.{
  SendRequest, ServiceConfig, MessageCall, MessageEnv, History, asked_suppressed,
  asked_unsubscribed, asked_email_contact, asked_phone_contact, asked_template, asked_session,
}
use spur_messaging.Message.Checks.{
  is_marketing, find_contact, check_opt_in, check_suppressed, check_unsubscribed, check_whatsapp,
}

-- What the checks of `Send` look at in a request.
pub record Target : Type 0 where
  pub channel : Channel
  pub recipient : String
  pub message_type : MessageType
  pub metadata : Metadata

abbrev pub target_of : SendRequest → Target
target_of req = record {
  channel = req.channel;
  recipient = req.recipient;
  message_type = req.message_type;
  metadata = req.metadata;
}

-- In the history a contact was found at the recipient, who has opted in on the channel.
abbrev pub ShowsConsent : Uuid → Target → MessageCall → Type 0
ShowsConsent t to (asked_email_contact u r (ok x)) =
    (u ≡ t) × (r ≡ to.recipient) × (is_opted_in_on to.channel x ≡ true)
ShowsConsent t to (asked_phone_contact u r (ok x)) =
    (u ≡ t) × (r ≡ to.recipient) × (is_opted_in_on to.channel x ≡ true)
ShowsConsent t to c = ⊥

abbrev pub Consented : Uuid → Target → History → Type 0
Consented t to = Any (ShowsConsent t to)

abbrev pub FoundApproved : Uuid → Target → History → Type 0
FoundApproved t to = Any (λ c.
    (name language : String) × (x : Template) × (c ≡ asked_template t name language (ok x))
    × (x.status ≡ approved))

abbrev pub FoundSession : Uuid → Target → History → Type 0
FoundSession t to =
    Any (λ c. (at : Time) × (id : Uuid) × (c ≡ asked_session t to.recipient at (ok id)))

-- What stands between a request and the queue: consent, the suppression list, the unsubscribe
-- list, and on WhatsApp an approved template or an open session.
pub record IsCleared (cfg : ServiceConfig) (t : Uuid) (to : Target) (h : History) : Type 0 where
  pub consent : is_email to.channel && not (is_marketing to.metadata) ≡ false → Consented t to h
  pub unsuppressed :
      cfg.has_suppression ≡ true
      → Any (λ c. c ≡ asked_suppressed t to.channel to.recipient (ok false)) h
  pub subscribed :
      is_email to.channel && cfg.has_unsubscribe && is_marketing to.metadata ≡ true
      → Any (λ c. c ≡ asked_unsubscribed t to.recipient (ok false)) h
  pub template_approved :
      is_whatsapp to.channel && is_template to.message_type ≡ true → FoundApproved t to h
  pub session_open :
      is_whatsapp to.channel && not (is_template to.message_type) ≡ true → FoundSession t to h

module _ (env : MessageEnv) (cfg : ServiceConfig) (tenant_id : Uuid) where
  pub consent_lem :
      (req : SendRequest) (h : History) {c : Option Contact}
      → let (r, h') = find_contact env cfg tenant_id req h in
        r ≡ ok c
        → (check_opt_in env cfg tenant_id req c h').0 ≡ ok tt
        → is_email req.channel && not (is_marketing req.metadata) ≡ false
        → Consented tenant_id (target_of req) h'
  unfolding find_contact check_opt_in
  consent_lem req h e f g = ground arith

  pub suppressed_lem :
      (req : SendRequest) (h : History)
      → let (r, h') = check_suppressed env cfg tenant_id req h in
        r ≡ ok false
        → cfg.has_suppression ≡ true
        → Any (λ c. c ≡ asked_suppressed tenant_id req.channel req.recipient (ok false)) h'
  unfolding check_suppressed
  suppressed_lem req h e f = ground arith

  pub subscribed_lem :
      (req : SendRequest) (h : History)
      → let (r, h') = check_unsubscribed env cfg tenant_id req h in
        r ≡ ok false
        → is_email req.channel && cfg.has_unsubscribe && is_marketing req.metadata ≡ true
        → Any (λ c. c ≡ asked_unsubscribed tenant_id req.recipient (ok false)) h'
  unfolding check_unsubscribed
  subscribed_lem req h e f = ground arith

  pub approved_lem :
      (req : SendRequest) (h : History) {c : Option Uuid}
      → let (r, h') = check_whatsapp env cfg tenant_id req h in
        r ≡ ok c
        → is_whatsapp req.channel && is_template req.message_type ≡ true
        → FoundApproved tenant_id (target_of req) h'
  unfolding check_whatsapp
  approved_lem req h e f = ground arith

  pub session_lem :
      (req : SendRequest) (h : History) {c : Option Uuid}
      → let (r, h') = check_whatsapp env cfg tenant_id req h in
        r ≡ ok c
        → is_whatsapp req.channel && not (is_template req.message_type) ≡ true
        → FoundSession tenant_id (target_of req) h'
  unfolding check_whatsapp
  session_lem req h e f = ground arith
