-- ===== src/Campaigns/Machine.antt =====
-- core/services/campaign_service.go: commands, the step relation of the statuses, and refusals.
use spur_messaging.Prelude.{ℕ, suc, Bool, true, false, ◌≡◌, [], ◌∷◌, arith}
use spur_messaging.Domain.Errors.{GoError, sentinel, validation_error, campaign_not_executable}
use spur_messaging.Domain.Message.{Uuid}
use spur_messaging.Domain.Campaign.{
  CampaignStatus, Campaign, campaign_running, campaign_paused, campaign_failed, is_executable,
  is_draft, is_running, is_paused,
}
use spur_messaging.Calls.{ok, err, Op, pure, ◌>>=◌}
use spur_messaging.Campaigns.Env.{
  UpdateCampaignRequest, CampaignCall, CampaignHistory, CampaignEnv, asked_campaign, set_status,
  updated_campaign, enqueued_bulk,
}
use spur_messaging.Campaigns.Service.{update, delete, pause, resume}
use spur_messaging.Campaigns.Execute.{execute}

-- What a client may ask of a stored campaign.
pub data Command : Type 0 where
  asks_update : UpdateCampaignRequest → Command
  asks_delete asks_execute asks_pause asks_resume : Command

abbrev pub discard : Campaign → Op CampaignCall (Unit {0})
discard campaign = pure tt

-- The operation that a command calls.
unfoldable pub obey : CampaignEnv → Uuid → Uuid → Command → Op CampaignCall (Unit {0})
obey env tenant_id id (asks_update req) = update env tenant_id id req >>= discard
obey env tenant_id id asks_delete = delete env tenant_id id
obey env tenant_id id asks_execute = execute env tenant_id id
obey env tenant_id id asks_pause = pause env tenant_id id
obey env tenant_id id asks_resume = resume env tenant_id id

-- The statuses in which a command goes on.
abbrev pub is_allowed : Command → CampaignStatus → Bool
is_allowed (asks_update req) s = is_executable s
is_allowed asks_delete s = is_draft s
is_allowed asks_execute s = is_executable s
is_allowed asks_pause s = is_running s
is_allowed asks_resume s = is_paused s

-- The error of a command in any other status.
abbrev pub refusal : Command → GoError
refusal (asks_update req) = validation_error "status" "cannot update running/completed campaign"
refusal asks_delete = validation_error "status" "only draft campaigns can be deleted"
refusal asks_execute = sentinel campaign_not_executable
refusal asks_pause = validation_error "status" "can only pause running campaigns"
refusal asks_resume = validation_error "status" "can only resume paused campaigns"

-- One change of status that the service makes.
pub data Step : CampaignStatus → CampaignStatus → Type 0 where
  starts : {s : CampaignStatus} → is_executable s ≡ true → Step s campaign_running
  breaks : Step campaign_running campaign_failed
  halts : Step campaign_running campaign_paused
  continues : Step campaign_paused campaign_running

-- Any number of changes.
pub data Reach : CampaignStatus → CampaignStatus → Type 0 where
  here : {s : CampaignStatus} → Reach s s
  there : {s t u : CampaignStatus} → Step s t → Reach t u → Reach s u

pub Reach-trans : {s t u : CampaignStatus} → Reach s t → Reach t u → Reach s u
Reach-trans here r = r
Reach-trans (there a q) r = there a (Reach-trans q r)

-- The status that the row has after a history, given the one it had before it: `UpdateStatus` writes
-- it, and `Update` writes the whole row.
abbrev pub status_after : CampaignStatus → CampaignHistory → CampaignStatus
status_after s [] = s
status_after s (set_status t id new (ok u) ∷ h) = new
status_after s (updated_campaign row (ok u) ∷ h) = row.status
status_after s (c ∷ h) = status_after s h

-- How often a batch was handed to the queue.
abbrev pub batches : CampaignHistory → ℕ
batches [] = 0
batches (enqueued_bulk qs r ∷ h) = suc (batches h)
batches (c ∷ h) = batches h

module _ (env : CampaignEnv) (tenant_id id : Uuid) where
  -- A command that the campaign's status does not allow is refused with the command's own error,
  -- and reading the campaign is the only call that it makes: nothing is written or queued.
  pub obey_refused :
      (cmd : Command) (h : CampaignHistory) {campaign : Campaign}
      → env.get_campaign h tenant_id id ≡ ok campaign
      → is_allowed cmd campaign.status ≡ false
      → obey env tenant_id id cmd h
        ≡ (err (refusal cmd), asked_campaign tenant_id id (ok campaign) ∷ h)
  unfolding obey update delete pause resume execute is_executable
  obey_refused (asks_update req) h found refused = ground arith
  obey_refused asks_delete h found refused = ground arith
  obey_refused asks_execute h found refused = ground arith
  obey_refused asks_pause h found refused = ground arith
  obey_refused asks_resume h found refused = ground arith
