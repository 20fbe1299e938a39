-- ===== src/Domain/Campaign.antt =====
-- core/domain/campaign.go: campaigns, their statuses and their counters.
use spur_messaging.Prelude.{ℕ, String, Bool, true, false, Option, List, Metadata}
use spur_messaging.Domain.Message.{Uuid, Time, Channel}

pub record CampaignStats : Type 0 where
  pub total : ℕ
  pub queued : ℕ
  pub sent : ℕ
  pub delivered : ℕ
  pub read : ℕ
  pub failed : ℕ

-- `other_campaign_status` stands for every text but the constants.
pub data CampaignStatus : Type 0 where
  campaign_draft campaign_scheduled campaign_running : CampaignStatus
  campaign_paused campaign_completed campaign_failed : CampaignStatus
  other_campaign_status : String → CampaignStatus

-- Neither of the two tests `!= draft` and `!= scheduled` holds.
unfoldable pub is_executable : CampaignStatus → Bool
is_executable campaign_draft = true
is_executable campaign_scheduled = true
is_executable _ = false

abbrev pub is_draft : CampaignStatus → Bool
is_draft campaign_draft = true
is_draft _ = false

abbrev pub is_running : CampaignStatus → Bool
is_running campaign_running = true
is_running _ = false

abbrev pub is_paused : CampaignStatus → Bool
is_paused campaign_paused = true
is_paused _ = false

pub record Campaign : Type 0 where
  pub id : Uuid
  pub tenant_id : Uuid
  pub name : String
  pub channel : Channel
  pub template_id : Uuid
  pub template_params : Metadata
  pub segment_id : Option Uuid
  pub contact_ids : List Uuid
  pub scheduled_at : Option Time
  pub started_at : Option Time
  pub completed_at : Option Time
  pub status : CampaignStatus
  pub stats : CampaignStats
  pub created_at : Time
  pub updated_at : Time
