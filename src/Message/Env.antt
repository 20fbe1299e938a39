-- ===== src/Message/Env.antt =====
-- core/services/message_service.go: what `MessageService` calls, and what it is asked for.
-- The repositories, the provider registry, the suppression and unsubscribe services and the queue
-- are interfaces of core/ports; their answers are the environment's.
use spur_messaging.Prelude.{String, Bool, Option, List, Metadata, ℕ}
use spur_messaging.Domain.Message.{Uuid, Time, Channel, MessageType, Message}
use spur_messaging.Domain.Contact.{Contact}
use spur_messaging.Domain.Template.{Template, EmailTemplate}
use spur_messaging.Calls.{Result}

-- ports.SendMessageRequest; a nil `Metadata` is read as the empty map that `Send` puts there.
pub record SendRequest : Type 0 where
  pub channel : Channel
  pub recipient : String
  pub message_type : MessageType
  pub template_name : Option String
  pub template_language : Option String
  pub template_params : Metadata
  pub text_body : Option String
  pub media_url : Option String
  pub media_type : Option String
  pub idempotency_key : String
  pub metadata : Metadata
  pub from_email : String
  pub from_name : String
  pub reply_to : String
  pub track_opens : Option Bool
  pub track_clicks : Option Bool
  pub sender_id : String
  pub cc : List String
  pub bcc : List String

-- What `Send` reads of the tenant's `ProviderConfig`.
pub record SenderConfig : Type 0 where
  pub from_email : String
  pub from_name : String
  pub reply_to_email : String
  pub sms_sender_id : String

-- services.Config, and which of the optional collaborators are wired.
pub record ServiceConfig : Type 0 where
  pub webhook_base_url : String
  pub email_from_address : String
  pub email_from_name : String
  pub email_track_opens : Bool
  pub email_track_clicks : Bool
  pub sms_sender_id : String
  pub has_suppression : Bool
  pub has_unsubscribe : Bool
  pub has_conversations : Bool

-- ports.QueueMessage.
pub record QueueMessage : Type 0 where
  pub message_id : Uuid
  pub tenant_id : Uuid
  pub channel : Channel
  pub priority : ℕ

-- A call that the service has made, with its answer.
pub data MessageCall : Type 0 where
  drew_id : Uuid → MessageCall
  read_clock : Time → MessageCall
  asked_key : Uuid → String → Result Message → MessageCall
  asked_message : Uuid → Uuid → Result Message → MessageCall
  asked_provider : Uuid → Channel → Result SenderConfig → MessageCall
  asked_email_contact : Uuid → String → Result Contact → MessageCall
  asked_phone_contact : Uuid → String → Result Contact → MessageCall
  asked_suppressed : Uuid → Channel → String → Result Bool → MessageCall
  asked_unsubscribed : Uuid → String → Result Bool → MessageCall
  asked_template : Uuid → String → String → Result Template → MessageCall
  asked_email_template : Uuid → String → Result EmailTemplate → MessageCall
  asked_session : Uuid → String → Time → Result Uuid → MessageCall
  upserted_outbound : Uuid → String → Time → Result Uuid → MessageCall
  created : Message → Result Message → MessageCall
  enqueued : QueueMessage → Result (Unit {0}) → MessageCall

abbrev pub History : Type 0
History = List MessageCall

-- `create` answers the stored row, which the repository writes back over the message it was given.
-- The conversation repository's answers are read for the conversation's ID alone.
pub record MessageEnv : Type 0 where
  pub new_uuid : History → Uuid
  pub clock : History → Time
  pub get_by_idempotency_key : History → Uuid → String → Result Message
  pub get_by_id : History → Uuid → Uuid → Result Message
  pub get_provider : History → Uuid → Channel → Result SenderConfig
  pub get_by_email : History → Uuid → String → Result Contact
  pub get_by_phone : History → Uuid → String → Result Contact
  pub is_suppressed : History → Uuid → Channel → String → Result Bool
  pub is_unsubscribed : History → Uuid → String → Result Bool
  pub get_template : History → Uuid → String → String → Result Template
  pub get_email_template : History → Uuid → String → Result EmailTemplate
  pub get_active_conversation : History → Uuid → String → Time → Result Uuid
  pub upsert_outbound : History → Uuid → String → Time → Result Uuid
  pub create : History → Message → Result Message
  pub enqueue : History → QueueMessage → Result (Unit {0})
