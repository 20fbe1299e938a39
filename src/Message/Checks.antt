-- ===== src/Message/Checks.antt =====
-- core/services/message_service.go, the first half of `Send`: what is looked up and what may stop
-- a message before it is built.
use spur_messaging.Prelude.{
  String, Bool, false, not, ◌&&◌, Option, none, some, Metadata, is_empty, str_eq, get_key,
  if◌then◌else◌, deref,
}
use spur_messaging.Domain.Errors.{
  sentinel, not_found, opt_in_required, provider_not_configured, session_window_closed,
  template_not_approved, is_error, not_found_error, validation_error,
}
use spur_messaging.Domain.Message.{
  Uuid, Channel, whatsapp, sms, email, other_channel, is_email, is_whatsapp, is_template,
}
use spur_messaging.Domain.Contact.{Contact, is_opted_in_on}
use spur_messaging.Domain.Template.{is_approved}
use spur_messaging.Calls.{ok, err, Op, pure, fail, ◌>>=◌, ◌>>◌, call, draw, attempt, guard}
use spur_messaging.Message.Env.{
  SendRequest, SenderConfig, ServiceConfig, MessageCall, MessageEnv, read_clock, asked_provider,
  asked_email_contact, asked_phone_contact, asked_suppressed, asked_unsubscribed, asked_template,
  asked_session, upserted_outbound,
}

-- core/services/resolve.go: the first value that is not empty.
unfoldable pub resolve_string : String → String → String → String
resolve_string api tenant platform =
    if not (is_empty api) then api else if not (is_empty tenant) then tenant else platform

-- `isMarketingMessage`.
unfoldable pub is_marketing : Metadata → Bool
unfolding get_key
is_marketing metadata = not (str_eq (get_key "category" metadata) "transactional")

abbrev pub is_transactional_email : SendRequest → Bool
is_transactional_email req = is_email req.channel && not (is_marketing req.metadata)

abbrev bool_or : Option Bool → Bool → Bool
bool_or none d = d
bool_or (some b) d = b

-- The three-tier resolution of the sender's parameters.
resolve_on : Channel → ServiceConfig → SenderConfig → SendRequest → SendRequest
resolve_on email cfg tenant req = record req {
  from_email = resolve_string req.from_email tenant.from_email cfg.email_from_address;
  from_name = resolve_string req.from_name tenant.from_name cfg.email_from_name;
  reply_to = resolve_string req.reply_to tenant.reply_to_email "";
  track_opens = some (bool_or req.track_opens cfg.email_track_opens);
  track_clicks = some (bool_or req.track_clicks cfg.email_track_clicks);
}
resolve_on sms cfg tenant req = record req {
  sender_id = resolve_string req.sender_id tenant.sms_sender_id cfg.sms_sender_id;
}
resolve_on whatsapp cfg tenant req = req
resolve_on (other_channel s) cfg tenant req = req

unfoldable pub resolve_request : ServiceConfig → SenderConfig → SendRequest → SendRequest
unfolding resolve_on
resolve_request cfg tenant req = resolve_on req.channel cfg tenant req

module _ (env : MessageEnv) (cfg : ServiceConfig) (tenant_id : Uuid) where
  -- Step 1: any failure of the registry is reported as a provider that is not configured.
  unfoldable pub find_provider : Channel → Op MessageCall SenderConfig
  find_provider channel = do
    found ←
        attempt
          (call (λ h. env.get_provider h tenant_id channel) (asked_provider tenant_id channel))
    elim found [ ok tenant ↦ pure tenant | err e ↦ fail (sentinel provider_not_configured) ]

  look_up_contact : Channel → String → Op MessageCall Contact
  look_up_contact channel recipient h =
      if is_email channel
      then call (λ h'. env.get_by_email h' tenant_id recipient)
          (asked_email_contact tenant_id recipient) h
      else call (λ h'. env.get_by_phone h' tenant_id recipient)
          (asked_phone_contact tenant_id recipient) h

  -- Step 2: only a transactional email may go to someone who is no contact.
  unfoldable pub find_contact : SendRequest → Op MessageCall (Option Contact)
  unfolding look_up_contact
  find_contact req = do
    found ← attempt (look_up_contact req.channel req.recipient)
    elim found [
      | ok contact ↦ pure (some contact)
      | err e ↦
          if is_error e not_found
          then if is_transactional_email req
            then pure none
            else fail (not_found_error "contact not found")
          else fail e
    ]

  -- Step 3.
  unfoldable pub check_opt_in : SendRequest → Option Contact → Op MessageCall (Unit {0})
  check_opt_in req contact = if is_transactional_email req then pure tt else elim contact [
    | none ↦ fail (not_found_error "contact not found")
    | some c ↦ guard (is_opted_in_on req.channel c) (sentinel opt_in_required)
  ]

  -- The suppression list, on every channel.
  unfoldable pub check_suppressed : SendRequest → Op MessageCall Bool
  check_suppressed req =
      if cfg.has_suppression
      then call (λ h. env.is_suppressed h tenant_id req.channel req.recipient)
          (asked_suppressed tenant_id req.channel req.recipient)
      else pure false

  -- The unsubscribe list, for marketing email.
  unfoldable pub check_unsubscribed : SendRequest → Op MessageCall Bool
  check_unsubscribed req =
      if is_email req.channel && cfg.has_unsubscribe && is_marketing req.metadata
      then call (λ h. env.is_unsubscribed h tenant_id req.recipient)
          (asked_unsubscribed tenant_id req.recipient)
      else pure false

  -- `*req.TemplateLanguage`, or "en" where it is absent or empty.
  abbrev pub template_language : SendRequest → String
  template_language req =
      let lang = deref req.template_language in if is_empty lang then "en" else lang

  -- A WhatsApp template must exist and be approved.
  unfoldable pub check_template : SendRequest → Op MessageCall (Unit {0})
  check_template req = elim req.template_name [
    | none ↦
        fail (validation_error "template_name" "template name is required for template messages")
    | some name ↦ do
      found ← attempt (
          call (λ h. env.get_template h tenant_id name (template_language req))
            (asked_template tenant_id name (template_language req)))
      elim found [
        | err e ↦ fail (not_found_error "template not found")
        | ok tmpl ↦ guard (is_approved tmpl.status) (sentinel template_not_approved)
      ]
  ]

  -- Any other WhatsApp message must fall into the customer's service window.
  unfoldable pub check_session : SendRequest → Op MessageCall (Unit {0})
  check_session req =
      if cfg.has_conversations
      then (do
        now ← draw env.clock read_clock
        found ← attempt (
            call (λ h. env.get_active_conversation h tenant_id req.recipient now)
              (asked_session tenant_id req.recipient now))
        elim found [
          | ok conversation ↦ pure tt
          | err e ↦ if is_error e not_found then fail (sentinel session_window_closed) else fail e
        ])
      else fail (sentinel session_window_closed)

  upsert_conversation : SendRequest → Op MessageCall (Option Uuid)
  upsert_conversation req =
      if cfg.has_conversations
      then (do
        now ← draw env.clock read_clock
        conversation ←
            call (λ h. env.upsert_outbound h tenant_id req.recipient now)
              (upserted_outbound tenant_id req.recipient now)
        pure (some conversation))
      else pure none

  -- Step 5, the checks on WhatsApp; it gives the conversation that the message belongs to.
  unfoldable pub check_whatsapp : SendRequest → Op MessageCall (Option Uuid)
  unfolding upsert_conversation check_template check_session
  check_whatsapp req =
      if is_whatsapp req.channel
      then if is_template req.message_type
        then check_template req >> upsert_conversation req
        else check_session req >> upsert_conversation req
      else pure none
