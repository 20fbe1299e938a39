-- ===== src/Webhook/EmailEvents.antt =====
-- core/services/webhook_service.go: the email half of `WebhookService`.
use spur_messaging.Prelude.{
  ℕ, String, Bool, true, false, ◌&&◌, ◌-◌, ◌*◌, Option, none, some, List, str_eq, is_empty,
  if◌then◌else◌, ltb, leb, count_if,
}
use spur_messaging.Prelude.Int.{ltb_ℤ}
use spur_messaging.Domain.Message.{Uuid, Time, seconds, MessageStatus, message_status_rank, Message}
use spur_messaging.Domain.Event.{
  EmailEventType, bounce, complaint, unsubscribe_event, EmailEvent, SuppressionReason, hard_bounce,
  spam_complaint,
}
use spur_messaging.Calls.{Result, ok, err, Op, pure, ◌>>=◌, ◌>>◌, call, draw, attempt}
use spur_messaging.Webhook.Env.{
  ProviderEvent, WebhookConfig, WebhookCall, WebhookEnv, drew_id, read_clock, asked_provider_id,
  asked_event, created_event, asked_bounces, added_suppression, unsubscribed_email,
}
use spur_messaging.Webhook.Whatsapp.{change_status, for_each}

-- `len` of the bounces that the loop of `handleSoftBounce` counts; `after` is 72 hours ago.
unfoldable pub count_bounces : String → Time → List EmailEvent → ℕ
count_bounces address after events =
    count_if (λ e. str_eq e.recipient address && ltb after e.timestamp) events

abbrev pub seventy_two_hours : Time
seventy_two_hours = seconds (72 * 3600)

module _ (env : WebhookEnv) (cfg : WebhookConfig) where
  abbrev suppress : Uuid → String → SuppressionReason → Op WebhookCall (Unit {0})
  suppress tenant_id address reason = do
    outcome ← attempt (
        call (λ h. env.add_to_suppression h tenant_id address reason)
          (added_suppression tenant_id address reason))
    pure tt

  abbrev unsubscribe_address : Uuid → String → Option Uuid → String → Op WebhookCall (Unit {0})
  unsubscribe_address tenant_id address campaign reason = do
    outcome ← attempt (
        call (λ h. env.unsubscribe h tenant_id address campaign reason)
          (unsubscribed_email tenant_id address campaign reason))
    pure tt

  -- `handleSoftBounce`: the events are looked up under the campaign `uuid.Nil`.
  unfoldable pub handle_soft_bounce : Uuid → String → Op WebhookCall (Unit {0})
  unfolding count_bounces
  handle_soft_bounce tenant_id address = do
    now ← draw env.clock read_clock
    found ← attempt (call (λ h. env.get_by_campaign h tenant_id 0) (asked_bounces tenant_id 0))
    elim found [
      | err e ↦ pure tt
      | ok events ↦
          if leb 3 (count_bounces address (now - seventy_two_hours) events)
          then suppress tenant_id address hard_bounce
          else pure tt
    ]

  -- Step 5, the switch on the event's type.
  unfoldable pub auto_suppress :
      Message → ProviderEvent → EmailEventType → Op WebhookCall (Unit {0})
  unfolding handle_soft_bounce
  auto_suppress msg event bounce =
      if str_eq event.bounce_type "hard"
      then suppress msg.tenant_id event.address hard_bounce
      else if str_eq event.bounce_type "soft"
      then handle_soft_bounce msg.tenant_id event.address
      else pure tt
  auto_suppress msg event complaint =
      suppress msg.tenant_id event.address spam_complaint
      >> unsubscribe_address msg.tenant_id event.address none "complaint"
  auto_suppress msg event unsubscribe_event =
      unsubscribe_address msg.tenant_id event.address msg.campaign_id "link_click"
  auto_suppress msg event _ = pure tt

  abbrev email_event : Message → ProviderEvent → Uuid → Time → EmailEvent
  email_event msg event id now = record {
    id = id;
    tenant_id = msg.tenant_id;
    message_id = msg.id;
    campaign_id = msg.campaign_id;
    event_type = event.email_event_type;
    recipient = event.address;
    timestamp = event.timestamp;
    provider_event_id = event.email_provider_id;
    user_agent = event.user_agent;
    ip_address = event.ip_address;
    url = event.url;
    bounce_type = if is_empty event.bounce_type then none else some event.bounce_type;
    bounce_reason = if is_empty event.bounce_type then none else some event.bounce_reason;
    created_at = now;
  }

  -- Step 4: the status is raised, never lowered.
  unfoldable pub raise_status :
      Message → ProviderEvent → Option MessageStatus → Op WebhookCall (Unit {0})
  unfolding change_status message_status_rank
  raise_status msg event none = pure tt
  raise_status msg event (some status) =
      if ltb_ℤ (message_status_rank msg.status) (message_status_rank status)
      then change_status env cfg msg.tenant_id event.provider_message_id status event.timestamp msg
      else pure tt

  -- Steps 3 to 5, for the message that the event is about.
  unfoldable pub record_event : ProviderEvent → Message → Op WebhookCall (Unit {0})
  unfolding raise_status auto_suppress
  record_event event msg = do
    id ← draw env.new_uuid drew_id
    now ← draw env.clock read_clock
    let e = email_event msg event id now
    outcome ← attempt (call (λ h. env.create_event h e) (created_event e))
    raise_status msg event event.status
    auto_suppress msg event event.email_event_type

  abbrev pub with_message : ProviderEvent → Result Message → Op WebhookCall (Unit {0})
  with_message event (err e) = pure tt
  with_message event (ok msg) = record_event event msg

  -- Step 2.
  abbrev pub find_message : ProviderEvent → Op WebhookCall (Unit {0})
  find_message event = do
    found ← attempt (
        call (λ h. env.get_by_provider_id h event.provider_message_id)
          (asked_provider_id event.provider_message_id))
    with_message event found

  abbrev pub unless_seen : ProviderEvent → Result Bool → Op WebhookCall (Unit {0})
  unless_seen event (ok true) = pure tt
  unless_seen event (ok false) = find_message event
  unless_seen event (err e) = find_message event

  abbrev pub check_seen : ProviderEvent → Bool → Op WebhookCall (Unit {0})
  check_seen event true = find_message event
  check_seen event false = do
    seen ← attempt (
        call (λ h. env.exists_event h event.email_provider_id)
          (asked_event event.email_provider_id))
    unless_seen event seen

  -- `processEmailEvent`: an event whose provider ID is on record is not processed again.
  unfoldable pub process_email_event : ProviderEvent → Op WebhookCall (Unit {0})
  process_email_event event = check_seen event (is_empty event.email_provider_id)

  -- `HandleEmailWebhook`, once the provider is found; `none` is a body that does not parse.
  unfoldable pub handle_email_webhook : Option (List ProviderEvent) → Op WebhookCall (Unit {0})
  handle_email_webhook none = pure tt
  handle_email_webhook (some events) = for_each env cfg process_email_event events

-- A registered provider's `ParseWebhook` of a body; it fails on what is not signed or does not parse.
abbrev Parser : Type 0
Parser = String → Option (List ProviderEvent)

abbrev parsed_by : Option Parser → String → Option (List ProviderEvent)
parsed_by none body = none
parsed_by (some parse) body = parse body

-- The email providers by name, if there are any, and the events that the named one reads in the body.
unfoldable pub parse_email_webhook :
    Option (String → Option Parser) → (name body : String) → Option (List ProviderEvent)
parse_email_webhook none name body = none
parse_email_webhook (some providers) name body = parsed_by (providers name) body

-- `HandleEmailWebhook` with its lookup.
unfoldable pub receive_email_webhook :
    WebhookEnv
    → WebhookConfig
    → Option (String → Option Parser)
    → (name body : String) → Op WebhookCall (Unit {0})
unfolding handle_email_webhook parse_email_webhook
receive_email_webhook env cfg providers name body =
    handle_email_webhook env cfg (parse_email_webhook providers name body)

-- `VerifyWhatsAppWebhook`, which looks at neither the mode nor the token.
unfoldable pub verify_whatsapp_webhook : (mode token challenge : String) → Result String
verify_whatsapp_webhook mode token challenge = ok challenge
