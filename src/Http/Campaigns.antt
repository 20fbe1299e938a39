-- ===== src/Http/Campaigns.antt =====
-- adapters/http/campaign_handler.go.
use spur_messaging.Prelude.{Option, none, some, length, leb}
use spur_messaging.Domain.Errors.{validation_error}
use spur_messaging.Domain.Message.{Time}
use spur_messaging.Http.Steps.{
  Handling, Success, pure, ◌>>=◌, ◌>>◌, lift, check, decode, ask, permitted, by_id, by_page,
  path_id, page_of, read_now, service_value, status_word, respond_ok, respond_created, query_filter,
}
use spur_messaging.Identity.Permissions.{campaigns_read, campaigns_write, campaigns_execute}
use spur_messaging.Api.Validate.{validate_campaign_name, validate_scheduled_at}
use spur_messaging.Http.Env.{
  Request, HttpEnv, create_campaign, list_campaigns, update_campaign, get_campaign, delete_campaign,
  execute_campaign, pause_campaign, resume_campaign, get_campaign_stats,
}

module _ (env : HttpEnv) (req : Request) where
  -- `validateScheduledAt`, which reads the clock where there is a time to check.
  abbrev check_schedule : Option Time → Handling (Unit {0})
  check_schedule none = pure tt
  check_schedule (some at) = do now ← read_now env; lift (validate_scheduled_at now (some at))

  -- `CreateCampaign`.
  unfoldable pub handle_create_campaign : Handling Success
  handle_create_campaign = permitted req campaigns_write (λ t. do
    body ← decode (env.decode_campaign req.body)
    lift (validate_campaign_name body.name)
    check_schedule body.scheduled_at
    check (leb (length body.contact_ids) 100_000)
        (validation_error "contact_ids" "campaign limited to 100,000 contacts")
    answer ← ask env t (create_campaign body)
    respond_created (service_value answer))

  -- `ListCampaigns`.
  unfoldable pub handle_list_campaigns : Handling Success
  unfolding page_of
  handle_list_campaigns =
      by_page env req campaigns_read (list_campaigns (query_filter (req.query "status")))

  -- `GetCampaign`.
  unfoldable pub handle_get_campaign : Handling Success
  handle_get_campaign = by_id env req campaigns_read get_campaign service_value

  -- `UpdateCampaign`.
  unfoldable pub handle_update_campaign : Handling Success
  handle_update_campaign = permitted req campaigns_write (λ t. do
    id ← path_id env req "id" "id"
    body ← decode (env.decode_campaign_update req.body)
    answer ← ask env t (update_campaign id body)
    respond_ok (service_value answer))

  -- `DeleteCampaign`.
  unfoldable pub handle_delete_campaign : Handling Success
  handle_delete_campaign =
      by_id env req campaigns_write delete_campaign (λ a. status_word "deleted")

  -- `ExecuteCampaign`.
  unfoldable pub handle_execute_campaign : Handling Success
  handle_execute_campaign =
      by_id env req campaigns_execute execute_campaign (λ a. status_word "started")

  -- `PauseCampaign`.
  unfoldable pub handle_pause_campaign : Handling Success
  handle_pause_campaign = by_id env req campaigns_execute pause_campaign (λ a. status_word "paused")

  -- `ResumeCampaign`.
  unfoldable pub handle_resume_campaign : Handling Success
  handle_resume_campaign =
      by_id env req campaigns_execute resume_campaign (λ a. status_word "resumed")

  -- `GetCampaignStats`.
  unfoldable pub handle_campaign_stats : Handling Success
  handle_campaign_stats = by_id env req campaigns_read get_campaign_stats service_value
