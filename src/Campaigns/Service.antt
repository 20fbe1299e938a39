-- ===== src/Campaigns/Service.antt =====
-- core/services/campaign_service.go: the operations on a campaign.
use spur_messaging.Prelude.{String, Bool, false, not, Option, none, some, List, ◌∷◌, if◌then◌else◌}
use spur_messaging.Domain.Errors.{validation_error}
use spur_messaging.Domain.Message.{Uuid, Channel, is_email}
use spur_messaging.Domain.Contact.{Contact}
use spur_messaging.Domain.Campaign.{
  CampaignStatus, CampaignStats, Campaign, campaign_draft, campaign_running, campaign_paused,
  is_executable, is_draft, is_running, is_paused,
}
use spur_messaging.Calls.{Result, ok, err, Op, pure, ◌>>=◌, ◌>>◌, call, draw, guard}
use spur_messaging.Message.Env.{QueueMessage}
use spur_messaging.Campaigns.Env.{
  CreateCampaignRequest, UpdateCampaignRequest, CampaignCall, CampaignEnv, drew_id, read_clock,
  asked_campaign, created_campaign, updated_campaign, deleted_campaign, set_status,
}

abbrev pub no_stats : CampaignStats
no_stats = record { total = 0; queued = 0; sent = 0; delivered = 0; read = 0; failed = 0 }

-- A field of a request that is `nil` keeps the old value.
abbrev pub new_or_old {ℓ} : {A : Type ℓ} → Option A → A → A
new_or_old none old = old
new_or_old (some new) old = new

abbrev pub new_or_same {ℓ} : {A : Type ℓ} → Option A → Option A → Option A
new_or_same none old = old
new_or_same (some new) old = some new

-- The phone number, and on the email channel the address, where there is one.
unfoldable pub fan_out_recipient : Channel → Contact → String
fan_out_recipient channel x =
    let phone = new_or_old x.phone "" in
    if is_email channel then new_or_old x.email_address phone else phone

abbrev pub add_message : Option QueueMessage → List QueueMessage → List QueueMessage
add_message none qs = qs
add_message (some q) qs = q ∷ qs

abbrev pub passes : Result Bool → Bool
passes (ok b) = not b
passes (err e) = false

module _ (env : CampaignEnv) (tenant_id : Uuid) where
  abbrev pub put_status : Uuid → CampaignStatus → Op CampaignCall (Unit {0})
  put_status id status =
      call (λ h. env.update_status h tenant_id id status) (set_status tenant_id id status)

  abbrev pub find : Uuid → Op CampaignCall Campaign
  find id = call (λ h. env.get_campaign h tenant_id id) (asked_campaign tenant_id id)

  -- `Create`.
  unfoldable pub create : CreateCampaignRequest → Op CampaignCall Campaign
  create req = do
    id ← draw env.new_uuid drew_id
    now ← draw env.clock read_clock
    later ← draw env.clock read_clock
    let campaign : Campaign = record {
      id = id;
      tenant_id = tenant_id;
      name = req.name;
      channel = req.channel;
      template_id = req.template_id;
      template_params = req.template_params;
      segment_id = req.segment_id;
      contact_ids = req.contact_ids;
      scheduled_at = req.scheduled_at;
      started_at = none;
      completed_at = none;
      status = campaign_draft;
      stats = no_stats;
      created_at = now;
      updated_at = later;
    }
    call (λ h. env.create_campaign h campaign) (created_campaign campaign)
    pure campaign

  -- `Update`.
  unfoldable pub update : Uuid → UpdateCampaignRequest → Op CampaignCall Campaign
  unfolding is_executable
  update id req = do
    campaign ← find id
    guard (is_executable campaign.status)
        (validation_error "status" "cannot update running/completed campaign")
    now ← draw env.clock read_clock
    let changed = record campaign {
      name = new_or_old req.name campaign.name;
      template_params = new_or_old req.template_params campaign.template_params;
      segment_id = new_or_same req.segment_id campaign.segment_id;
      contact_ids = new_or_old req.contact_ids campaign.contact_ids;
      scheduled_at = new_or_same req.scheduled_at campaign.scheduled_at;
      updated_at = now;
    }
    call (λ h. env.update_campaign h changed) (updated_campaign changed)
    pure changed

  -- `Delete`.
  unfoldable pub delete : Uuid → Op CampaignCall (Unit {0})
  delete id = do
    campaign ← find id
    guard (is_draft campaign.status)
        (validation_error "status" "only draft campaigns can be deleted")
    call (λ h. env.delete_campaign h tenant_id id) (deleted_campaign tenant_id id)

  -- `Pause`.
  unfoldable pub pause : Uuid → Op CampaignCall (Unit {0})
  pause id = do
    campaign ← find id
    guard (is_running campaign.status)
        (validation_error "status" "can only pause running campaigns")
    put_status id campaign_paused

  -- `Resume`.
  unfoldable pub resume : Uuid → Op CampaignCall (Unit {0})
  resume id = do
    campaign ← find id
    guard (is_paused campaign.status) (validation_error "status" "can only resume paused campaigns")
    put_status id campaign_running

  -- `GetStats`.
  unfoldable pub get_stats : Uuid → Op CampaignCall CampaignStats
  get_stats id = do campaign ← find id; pure campaign.stats
