-- ===== src/Campaigns/Env.antt =====
-- core/services/campaign_service.go and worker/campaign_executor.go: what they call.
use spur_messaging.Prelude.{String, Bool, Option, List, Metadata}
use spur_messaging.Domain.Message.{Uuid, Time, Channel, Message}
use spur_messaging.Domain.Contact.{Contact}
use spur_messaging.Domain.Template.{Template}
use spur_messaging.Domain.Campaign.{CampaignStatus, CampaignStats, Campaign}
use spur_messaging.Calls.{Result}
use spur_messaging.Message.Env.{QueueMessage}

pub record CreateCampaignRequest : Type 0 where
  pub name : String
  pub channel : Channel
  pub template_id : Uuid
  pub template_params : Metadata
  pub segment_id : Option Uuid
  pub contact_ids : List Uuid
  pub scheduled_at : Option Time

pub record UpdateCampaignRequest : Type 0 where
  pub name : Option String
  pub template_params : Option Metadata
  pub segment_id : Option Uuid
  pub contact_ids : Option (List Uuid)
  pub scheduled_at : Option Time

pub data CampaignCall : Type 0 where
  drew_id : Uuid → CampaignCall
  read_clock : Time → CampaignCall
  asked_campaign : Uuid → Uuid → Result Campaign → CampaignCall
  created_campaign : Campaign → Result (Unit {0}) → CampaignCall
  updated_campaign : Campaign → Result (Unit {0}) → CampaignCall
  deleted_campaign : Uuid → Uuid → Result (Unit {0}) → CampaignCall
  set_status : Uuid → Uuid → CampaignStatus → Result (Unit {0}) → CampaignCall
  set_stats : Uuid → Uuid → CampaignStats → Result (Unit {0}) → CampaignCall
  asked_template : Uuid → Uuid → Result Template → CampaignCall
  resolved_segment : Uuid → Uuid → Result (List Contact) → CampaignCall
  asked_contact : Uuid → Uuid → Result Contact → CampaignCall
  asked_suppressed : Uuid → Channel → String → Result Bool → CampaignCall
  asked_unsubscribed : Uuid → String → Result Bool → CampaignCall
  asked_exists : Uuid → String → Result Bool → CampaignCall
  created_message : Message → Result (Unit {0}) → CampaignCall
  enqueued : QueueMessage → Result (Unit {0}) → CampaignCall
  enqueued_bulk : List QueueMessage → Result (Unit {0}) → CampaignCall

abbrev pub CampaignHistory : Type 0
CampaignHistory = List CampaignCall

-- `has_suppression` and `has_unsubscribe` say whether the optional services are there.
pub record CampaignEnv : Type 0 where
  pub has_suppression : Bool
  pub has_unsubscribe : Bool
  pub new_uuid : CampaignHistory → Uuid
  pub clock : CampaignHistory → Time
  pub get_campaign : CampaignHistory → Uuid → Uuid → Result Campaign
  pub create_campaign : CampaignHistory → Campaign → Result (Unit {0})
  pub update_campaign : CampaignHistory → Campaign → Result (Unit {0})
  pub delete_campaign : CampaignHistory → Uuid → Uuid → Result (Unit {0})
  pub update_status : CampaignHistory → Uuid → Uuid → CampaignStatus → Result (Unit {0})
  pub update_stats : CampaignHistory → Uuid → Uuid → CampaignStats → Result (Unit {0})
  pub get_template : CampaignHistory → Uuid → Uuid → Result Template
  pub resolve_contacts : CampaignHistory → Uuid → Uuid → Result (List Contact)
  pub get_contact : CampaignHistory → Uuid → Uuid → Result Contact
  pub is_suppressed : CampaignHistory → Uuid → Channel → String → Result Bool
  pub is_unsubscribed : CampaignHistory → Uuid → String → Result Bool
  pub exists_for_campaign : CampaignHistory → Uuid → String → Result Bool
  pub create_message : CampaignHistory → Message → Result (Unit {0})
  pub enqueue : CampaignHistory → QueueMessage → Result (Unit {0})
  pub enqueue_bulk : CampaignHistory → List QueueMessage → Result (Unit {0})
