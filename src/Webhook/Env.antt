-- ===== src/Webhook/Env.antt =====
-- core/services/webhook_service.go: what `WebhookService` is handed and what it calls.
use spur_messaging.Prelude.{String, Bool, Option, List}
use spur_messaging.Domain.Message.{Uuid, Time, Channel, MessageStatus, Message}
use spur_messaging.Domain.Event.{WebhookEventType, EmailEventType, EmailEvent, SuppressionReason}
use spur_messaging.Calls.{Result}

-- adapters/providers/whatsapp/types.go: the decoded payload, as far as the service reads it.
pub record WhatsappStatus : Type 0 where
  pub id : String
  pub status : String
  pub timestamp : String

pub record WhatsappMessage : Type 0 where
  pub from : String
  pub id : String
  pub timestamp : String
  pub message_type : String
  pub text : Option String

pub record WhatsappChange : Type 0 where
  pub field : String
  pub statuses : List WhatsappStatus
  pub messages : List WhatsappMessage

pub record WhatsappEntry : Type 0 where
  pub id : String
  pub changes : List WhatsappChange

-- ports.WebhookEvent, what `processEmailEvent` reads of it.
pub record ProviderEvent : Type 0 where
  pub provider_message_id : String
  pub status : Option MessageStatus
  pub timestamp : Time
  pub email_event_type : EmailEventType
  pub email_provider_id : String
  pub address : String
  pub url : String
  pub bounce_type : String
  pub bounce_reason : String
  pub user_agent : String
  pub ip_address : String

-- Which of the optional collaborators are wired.
pub record WebhookConfig : Type 0 where
  pub has_conversations : Bool
  pub has_contacts : Bool
  pub has_tenant_webhooks : Bool

pub data WebhookCall : Type 0 where
  drew_id : Uuid → WebhookCall
  read_clock : Time → WebhookCall
  asked_waba : String → Result Uuid → WebhookCall
  asked_provider_id : String → Result Message → WebhookCall
  updated_status : String → MessageStatus → Time → Result (Unit {0}) → WebhookCall
  upserted_inbound : Uuid → String → Time → Result Uuid → WebhookCall
  created_message : Message → Result Message → WebhookCall
  delivered_event : Uuid → WebhookEventType → Message → Time → Result (Unit {0}) → WebhookCall
  handled_keyword : Uuid → Channel → String → String → Result (Unit {0}) → WebhookCall
  asked_event : String → Result Bool → WebhookCall
  created_event : EmailEvent → Result (Unit {0}) → WebhookCall
  asked_bounces : Uuid → Uuid → Result (List EmailEvent) → WebhookCall
  added_suppression : Uuid → String → SuppressionReason → Result (Unit {0}) → WebhookCall
  unsubscribed_email : Uuid → String → Option Uuid → String → Result (Unit {0}) → WebhookCall

abbrev pub WebhookHistory : Type 0
WebhookHistory = List WebhookCall

-- `unix_time` is `strconv.ParseInt` in base 10 and then `time.Unix`; `create` answers the stored row.
pub record WebhookEnv : Type 0 where
  pub unix_time : String → Option Time
  pub new_uuid : WebhookHistory → Uuid
  pub clock : WebhookHistory → Time
  pub get_by_waba_id : WebhookHistory → String → Result Uuid
  pub get_by_provider_id : WebhookHistory → String → Result Message
  pub update_status : WebhookHistory → String → MessageStatus → Time → Result (Unit {0})
  pub upsert_inbound : WebhookHistory → Uuid → String → Time → Result Uuid
  pub create : WebhookHistory → Message → Result Message
  pub deliver_event : WebhookHistory → Uuid → WebhookEventType → Message → Time → Result (Unit {0})
  pub handle_keyword : WebhookHistory → Uuid → Channel → String → String → Result (Unit {0})
  pub exists_event : WebhookHistory → String → Result Bool
  pub create_event : WebhookHistory → EmailEvent → Result (Unit {0})
  pub get_by_campaign : WebhookHistory → Uuid → Uuid → Result (List EmailEvent)
  pub add_to_suppression : WebhookHistory → Uuid → String → SuppressionReason → Result (Unit {0})
  pub unsubscribe : WebhookHistory → Uuid → String → Option Uuid → String → Result (Unit {0})
