-- ===== src/Domain/Event.antt =====
-- core/domain/webhook.go, core/domain/email_template.go: the events that tenants subscribe to, and
-- the events that email providers report.
use spur_messaging.Prelude.{String, Bool, true, false, Option}
use spur_messaging.Domain.Message.{Uuid, Time}

-- `other_event` stands for every text but the constants.
pub data WebhookEventType : Type 0 where
  message_created message_sent message_delivered message_read : WebhookEventType
  message_opened message_clicked message_failed message_replied : WebhookEventType
  template_approved template_rejected contact_opted_in contact_opted_out : WebhookEventType
  campaign_started campaign_completed campaign_failed : WebhookEventType
  wallet_low_balance webhook_test : WebhookEventType
  other_event : String → WebhookEventType

-- The map `validWebhookEvents`.
abbrev pub is_valid_webhook_event : WebhookEventType → Bool
is_valid_webhook_event (other_event s) = false
is_valid_webhook_event _ = true

pub data EmailEventType : Type 0 where
  delivered bounce soft_bounce open_event click unsubscribe_event : EmailEventType
  complaint dropped deferred : EmailEventType
  other_email_event : String → EmailEventType

pub record EmailEvent : Type 0 where
  pub id : Uuid
  pub tenant_id : Uuid
  pub message_id : Uuid
  pub campaign_id : Option Uuid
  pub event_type : EmailEventType
  pub recipient : String
  pub timestamp : Time
  pub provider_event_id : String
  pub user_agent : String
  pub ip_address : String
  pub url : String
  pub bounce_type : Option String
  pub bounce_reason : Option String
  pub created_at : Time

pub data SuppressionReason : Type 0 where
  hard_bounce spam_complaint manual_suppression invalid_address : SuppressionReason
