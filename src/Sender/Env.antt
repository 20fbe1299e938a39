-- ===== src/Sender/Env.antt =====
-- worker/sender.go: what the queue's consumer reads, calls and hands to a provider.
use spur_messaging.Prelude.{ℕ, String, Bool, Option, List, Metadata}
use spur_messaging.Domain.Message.{Uuid, Time, Channel, MessageStatus, MessageType, Message}
use spur_messaging.Domain.Campaign.{CampaignStats}
use spur_messaging.Calls.{Result}

-- A float64, by the number that its bits spell.
abbrev pub Cost : Type 0
Cost = ℕ

-- What `GetProvider` answers: the configuration, and whether the provider is an `EmailProvider`.
pub record ProviderSetup : Type 0 where
  pub config_id : Uuid
  pub provider : String
  pub is_email_provider : Bool

pub record EmailSendRequest : Type 0 where
  pub to : String
  pub cc : List String
  pub bcc : List String
  pub from_email : String
  pub from_name : String
  pub reply_to : String
  pub subject : String
  pub html_body : String
  pub text_body : String
  pub headers : Metadata
  pub track_opens : Bool
  pub track_clicks : Bool
  pub metadata : Metadata

pub record ProviderSendRequest : Type 0 where
  pub recipient : String
  pub message_type : MessageType
  pub template_name : Option String
  pub text : Option String
  pub template_params : Metadata

pub record ProviderSendResult : Type 0 where
  pub provider_message_id : String
  pub status : MessageStatus
  pub cost : Option Cost
  pub timestamp : Time

pub record UsageCharge : Type 0 where
  pub tenant_id : Uuid
  pub message_id : Uuid
  pub campaign_id : Option Uuid
  pub channel : Channel
  pub category : String
  pub country : String
  pub currency : String
  pub provider_cost : Option Cost
  pub provider : String
  pub description : String
  pub occurred_at : Time

-- A call that the consumer has made. `backed_off` is the wait between two attempts, which ends
-- early when the context is done; `slept` is the minute after a provider's 429.
pub data SenderCall : Type 0 where
  asked_message : Uuid → Uuid → Result Message → SenderCall
  asked_provider : Uuid → Channel → Result ProviderSetup → SenderCall
  backed_off : Time → Result (Unit {0}) → SenderCall
  slept : Time → SenderCall
  updated_status : Uuid → Uuid → MessageStatus → String → Result (Unit {0}) → SenderCall
  sent_email : EmailSendRequest → Result ProviderSendResult → SenderCall
  sent_message : ProviderSendRequest → Result ProviderSendResult → SenderCall
  charged : UsageCharge → Result (Unit {0}) → SenderCall
  updated_active : Uuid → Uuid → Bool → Result (Unit {0}) → SenderCall
  asked_campaign : Uuid → Uuid → Result (Uuid × CampaignStats) → SenderCall
  updated_stats : Uuid → Uuid → CampaignStats → Result (Unit {0}) → SenderCall

abbrev pub SenderHistory : Type 0
SenderHistory = List SenderCall

pub record SenderEnv : Type 0 where
  pub uuid_string : Uuid → String
  pub has_billing : Bool
  pub get_message : SenderHistory → Uuid → Uuid → Result Message
  pub get_provider : SenderHistory → Uuid → Channel → Result ProviderSetup
  pub back_off : SenderHistory → Time → Result (Unit {0})
  pub update_status : SenderHistory → Uuid → Uuid → MessageStatus → String → Result (Unit {0})
  pub send_email :
      SenderHistory → (provider cfg : ProviderSetup) → EmailSendRequest → Result ProviderSendResult
  pub send :
      SenderHistory
      → (provider cfg : ProviderSetup) → ProviderSendRequest
      → Result ProviderSendResult
  pub record_charge : SenderHistory → UsageCharge → Result (Unit {0})
  pub update_is_active : SenderHistory → Uuid → Uuid → Bool → Result (Unit {0})
  pub get_campaign : SenderHistory → Uuid → Uuid → Result (Uuid × CampaignStats)
  pub update_stats : SenderHistory → Uuid → Uuid → CampaignStats → Result (Unit {0})
