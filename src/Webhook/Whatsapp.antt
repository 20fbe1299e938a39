-- ===== src/Webhook/Whatsapp.antt =====
-- core/services/webhook_service.go: the WhatsApp half of `WebhookService`.
use spur_messaging.Prelude.{String, ◌&&◌, Option, none, some, List, [], ◌∷◌, str_eq, if◌then◌else◌}
use spur_messaging.Prelude.Int.{leb_ℤ}
use spur_messaging.Domain.Message.{
  Uuid, Time, whatsapp, MessageStatus, provider_submitted, sent, delivered, read, opened, clicked,
  replied, failed, cancelled, expired, suppressed, message_status_rank, MessageType, template, text,
  media, interactive, location, other_type, inbound, Message,
}
use spur_messaging.Domain.Event.{
  WebhookEventType, message_created, message_sent, message_delivered, message_read, message_opened,
  message_clicked, message_failed, message_replied, is_valid_webhook_event,
}
use spur_messaging.Calls.{Result, ok, err, Op, pure, ◌>>=◌, ◌>>◌, call, draw, attempt}
use spur_messaging.Webhook.Env.{
  WhatsappStatus, WhatsappMessage, WhatsappChange, WhatsappEntry, WebhookConfig, WebhookCall,
  WebhookEnv, drew_id, read_clock, asked_waba, asked_provider_id, updated_status, upserted_inbound,
  created_message, delivered_event, handled_keyword,
}

-- `mapWhatsAppStatus`.
unfoldable pub map_whatsapp_status : String → MessageStatus
map_whatsapp_status s =
    if str_eq s "sent"
    then sent
    else if str_eq s "delivered"
    then delivered
    else if str_eq s "read"
    then read
    else if str_eq s "failed"
    then failed
    else provider_submitted

-- `webhookEventForMessageStatus`.
unfoldable pub webhook_event_for : MessageStatus → WebhookEventType
webhook_event_for sent = message_sent
webhook_event_for delivered = message_delivered
webhook_event_for read = message_read
webhook_event_for opened = message_opened
webhook_event_for clicked = message_clicked
webhook_event_for failed = message_failed
webhook_event_for expired = message_failed
webhook_event_for cancelled = message_failed
webhook_event_for suppressed = message_failed
webhook_event_for replied = message_replied
webhook_event_for _ = message_created

-- `domain.MessageType(msg.Type)`: the text, read as a message type.
abbrev message_type_of : String → MessageType
message_type_of s =
    if str_eq s "template"
    then template
    else if str_eq s "text"
    then text
    else if str_eq s "media"
    then media
    else if str_eq s "interactive"
    then interactive
    else if str_eq s "location"
    then location
    else other_type s

abbrev pub time_or : Option Time → Time → Time
time_or none now = now
time_or (some t) now = t

module _ (env : WebhookEnv) (cfg : WebhookConfig) where
  -- `deliverMessageEvent`: the outcome is only logged.
  unfoldable pub deliver_message_event :
      Uuid → WebhookEventType → Message → Time → Op WebhookCall (Unit {0})
  deliver_message_event tenant_id event msg at =
      if cfg.has_tenant_webhooks && is_valid_webhook_event event
      then (do
        event_id ← draw env.new_uuid drew_id
        outcome ← attempt (
            call (λ h. env.deliver_event h tenant_id event msg at)
              (delivered_event tenant_id event msg at))
        pure tt)
      else pure tt

  -- `UpdateStatusByProviderID`.
  abbrev pub update_status : String → MessageStatus → Time → Op WebhookCall (Unit {0})
  update_status id status timestamp =
      call (λ h. env.update_status h id status timestamp) (updated_status id status timestamp)

  -- The update, and where it succeeds the event about the message with its new status.
  unfoldable pub change_status :
      Uuid → String → MessageStatus → Time → Message → Op WebhookCall (Unit {0})
  unfolding webhook_event_for deliver_message_event
  change_status tenant_id id status timestamp msg = do
    outcome ← attempt (update_status id status timestamp)
    elim outcome [
      | err e ↦ pure tt
      | ok u ↦
          deliver_message_event tenant_id (webhook_event_for status)
            (record msg { status = status }) timestamp
    ]

  -- The rest of `processWhatsAppStatus`, given what the lookup of the message came to.
  abbrev pub change_if_higher :
      Uuid → String → MessageStatus → Time → Result Message → Op WebhookCall (Unit {0})
  change_if_higher tenant_id id incoming timestamp (err e) = do
    outcome ← attempt (update_status id incoming timestamp)
    pure tt
  change_if_higher tenant_id id incoming timestamp (ok current) =
      if leb_ℤ (message_status_rank incoming) (message_status_rank current.status)
      then pure tt
      else change_status tenant_id id incoming timestamp current

  -- `processWhatsAppStatus`.
  unfoldable pub process_whatsapp_status : Uuid → WhatsappStatus → Op WebhookCall (Unit {0})
  unfolding map_whatsapp_status message_status_rank change_status
  process_whatsapp_status tenant_id status = do
    now ← draw env.clock read_clock
    found ← attempt (call (λ h. env.get_by_provider_id h status.id) (asked_provider_id status.id))
    change_if_higher tenant_id status.id (map_whatsapp_status status.status)
        (time_or (env.unix_time status.timestamp) now) found

  find_conversation : Uuid → String → Time → Op WebhookCall (Option Uuid)
  find_conversation tenant_id from timestamp =
      if cfg.has_conversations
      then (do
        outcome ← attempt (
            call (λ h. env.upsert_inbound h tenant_id from timestamp)
              (upserted_inbound tenant_id from timestamp))
        elim outcome [ ok conversation ↦ pure (some conversation) | err e ↦ pure none ])
      else pure none

  -- `processInboundConsentKeyword`: the outcome is only logged.
  process_inbound_consent_keyword : Uuid → String → Option String → Op WebhookCall (Unit {0})
  process_inbound_consent_keyword tenant_id from none = pure tt
  process_inbound_consent_keyword tenant_id from (some body) =
      if cfg.has_contacts
      then (do
        outcome ← attempt (
            call (λ h. env.handle_keyword h tenant_id whatsapp from body)
              (handled_keyword tenant_id whatsapp from body))
        pure tt)
      else pure tt

  abbrev inbound_message : Uuid → WhatsappMessage → Option Uuid → Time → Uuid → Time → Message
  inbound_message tenant_id msg conversation timestamp id now = record {
    id = id;
    tenant_id = tenant_id;
    campaign_id = none;
    conversation_id = conversation;
    channel = whatsapp;
    direction = inbound;
    recipient = "platform";
    sender = msg.from;
    message_type = message_type_of msg.message_type;
    template_id = none;
    template_name = none;
    template_params = [];
    text_body = msg.text;
    media_url = none;
    media_type = none;
    provider_message_id = msg.id;
    idempotency_key = none;
    status = replied;
    error_code = none;
    error_message = none;
    sent_at = some timestamp;
    failed_at = none;
    created_at = now;
    metadata = [];
  }

  -- `processWhatsAppIncoming`.
  unfoldable pub process_whatsapp_incoming : Uuid → WhatsappMessage → Op WebhookCall (Unit {0})
  unfolding find_conversation process_inbound_consent_keyword deliver_message_event
  process_whatsapp_incoming tenant_id msg = do
    now ← draw env.clock read_clock
    let timestamp = time_or (env.unix_time msg.timestamp) now
    conversation ← find_conversation tenant_id msg.from timestamp
    id ← draw env.new_uuid drew_id
    created_at ← draw env.clock read_clock
    let message = inbound_message tenant_id msg conversation timestamp id created_at
    outcome ← attempt (call (λ h. env.create h message) (created_message message))
    elim outcome [
      | err e ↦ pure tt
      | ok row ↦
          deliver_message_event tenant_id message_replied row timestamp
          >> process_inbound_consent_keyword tenant_id msg.from msg.text
    ]

  -- A loop over a list, for its effects.
  abbrev pub for_each :
      {A : Type 0} → (A → Op WebhookCall (Unit {0})) → List A → Op WebhookCall (Unit {0})
  for_each f [] = pure tt
  for_each f (x ∷ xs) = f x >> for_each f xs

  abbrev pub process_change : Uuid → WhatsappChange → Op WebhookCall (Unit {0})
  process_change tenant_id change =
      if str_eq change.field "messages"
      then for_each (process_whatsapp_status tenant_id) change.statuses
        >> for_each (process_whatsapp_incoming tenant_id) change.messages
      else pure tt

  abbrev pub process_changes : WhatsappEntry → Result Uuid → Op WebhookCall (Unit {0})
  process_changes entry (err e) = pure tt
  process_changes entry (ok tenant_id) = for_each (process_change tenant_id) entry.changes

  abbrev pub process_entry : WhatsappEntry → Op WebhookCall (Unit {0})
  process_entry entry = do
    found ← attempt (call (λ h. env.get_by_waba_id h entry.id) (asked_waba entry.id))
    process_changes entry found

  -- `HandleWhatsAppWebhook`; `none` is a body that does not decode.
  unfoldable pub handle_whatsapp_webhook : Option (List WhatsappEntry) → Op WebhookCall (Unit {0})
  handle_whatsapp_webhook none = pure tt
  handle_whatsapp_webhook (some entries) = for_each process_entry entries
