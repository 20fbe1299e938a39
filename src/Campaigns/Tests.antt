-- ===== src/Campaigns/Tests.antt =====
-- core/services/campaign_service.go and worker/campaign_executor.go on one environment: an SMS
-- campaign to two contacts, of whom one has not opted in.
use spur_messaging.Prelude.{◌≤◌, ◌≡◌, refl, true, false, none, some, List, [], ◌∷◌}
use spur_messaging.Domain.Errors.{sentinel, not_found, validation_error}
use spur_messaging.Domain.Message.{sms}
use spur_messaging.Domain.Contact.{Contact, opted_in, opted_out, is_opted_in_on}
use spur_messaging.Domain.Template.{Template, approved}
use spur_messaging.Domain.Campaign.{
  Campaign, campaign_draft, campaign_scheduled, campaign_completed, is_executable,
}
use spur_messaging.Calls.{ok, err}
use spur_messaging.Campaigns.Env.{CampaignEnv, asked_campaign}
use spur_messaging.Campaigns.Service.{no_stats, fan_out_recipient}
use spur_messaging.Campaigns.Execute.{
  execute, check_campaign_template, find_contacts, find_each, fan_out, fan_out_one, put_all, run,
  reach_out,
}
use spur_messaging.Campaigns.Machine.{
  Command, asks_execute, asks_pause, asks_resume, obey, obey_refused, Reach, batches,
}
use spur_messaging.Campaigns.Lives.{Turn, live, live_batches, live-Reach, live_batches_bound}
use spur_messaging.Campaigns.Vetted.{AllVetted}
use spur_messaging.Campaigns.Safety.{execute_vetted}
use spur_messaging.Campaigns.Executor.{
  execute_campaign, resolve, look_up, send_one, send_all, send_to, conclude, get_recipient,
  queue_recipient,
}
use spur_messaging.Campaigns.Progress.{IsReported, execute_campaign-IsReported, accepted}
use spur_messaging.Campaigns.Screened.{AllScreened, execute_campaign_screened}

abbrev willing : Contact
willing = record {
  id = 5;
  tenant_id = 7;
  phone = some "+15550001";
  email_address = none;
  name = none;
  attributes = [];
  tags = [];
  opt_in_whatsapp = opted_out;
  opt_in_sms = opted_in;
  opt_in_email = opted_out;
  created_at = 0;
  updated_at = 0;
}

abbrev unwilling : Contact
unwilling = record willing { id = 6; phone = some "+15550002"; opt_in_sms = opted_out }

abbrev campaign : Campaign
campaign = record {
  id = 4;
  tenant_id = 7;
  name = "spring";
  channel = sms;
  template_id = 8;
  template_params = [];
  segment_id = some 9;
  contact_ids = [];
  scheduled_at = none;
  started_at = none;
  completed_at = none;
  status = campaign_scheduled;
  stats = no_stats;
  created_at = 0;
  updated_at = 0;
}

abbrev sms_template : Template
sms_template = record {
  id = 8;
  tenant_id = 7;
  channel = sms;
  name = "spring";
  language = "en";
  category = "marketing";
  components = [];
  status = approved;
  provider_template_id = none;
  rejection_reason = none;
  created_at = 0;
  updated_at = 0;
}

abbrev env : CampaignEnv
env = record {
  has_suppression = true;
  has_unsubscribe = true;
  new_uuid = λ h. 11;
  clock = λ h. 1000;
  get_campaign = λ h t id. ok campaign;
  create_campaign = λ h c. ok tt;
  update_campaign = λ h c. ok tt;
  delete_campaign = λ h t id. ok tt;
  update_status = λ h t id s. ok tt;
  update_stats = λ h t id s. ok tt;
  get_template = λ h t id. ok sms_template;
  resolve_contacts = λ h t s. ok (willing ∷ unwilling ∷ []);
  get_contact = λ h t id. err (sentinel not_found);
  is_suppressed = λ h t c to. ok false;
  is_unsubscribed = λ h t to. ok false;
  exists_for_campaign = λ h c to. ok false;
  create_message = λ h m. ok tt;
  enqueue = λ h q. ok tt;
  enqueue_bulk = λ h qs. ok tt;
}

-- `Execute` hands a batch over, of one message.
execute_runs : batches (execute env 7 4 []).1 ≡ 1
unfolding execute check_campaign_template find_contacts find_each fan_out fan_out_one put_all run
    reach_out is_executable is_opted_in_on fan_out_recipient
execute_runs = refl

-- The executor sends to both contacts, the one who has opted out included.
executor_runs : accepted (execute_campaign env campaign []).1 ≡ 2
unfolding execute_campaign resolve look_up send_one send_all send_to conclude get_recipient
    queue_recipient
executor_runs = refl

execute_vetted_example : AllVetted env 7 sms (execute env 7 4 []).1
execute_vetted_example = execute_vetted env 7 campaign 4 [] refl tt

obey_refused_example : obey env 7 4 asks_pause [] ≡ (
  err (validation_error "status" "can only pause running campaigns"),
  asked_campaign 7 4 (ok campaign) ∷ [],
)
obey_refused_example = obey_refused env 7 4 asks_pause [] {campaign = campaign} refl refl

abbrev turn_of : Command → Turn
turn_of c = record { command = c; campaign = campaign; world = env }

abbrev turns : List Turn
turns = turn_of asks_execute ∷ turn_of asks_pause ∷ turn_of asks_resume ∷ turn_of asks_execute ∷ []

live-Reach_example : Reach campaign_draft (live 7 4 turns campaign_draft)
live-Reach_example = live-Reach 7 4 turns campaign_draft

live_batches_bound_example :
    (live_batches 7 4 turns campaign_completed ≤ 1)
    × (is_executable campaign_completed ≡ false → live_batches 7 4 turns campaign_completed ≡ 0)
    × (is_executable campaign_completed ≡ false
        → is_executable (live 7 4 turns campaign_completed) ≡ false)
live_batches_bound_example = live_batches_bound 7 4 turns campaign_completed

execute_campaign-IsReported_example : IsReported campaign (execute_campaign env campaign []).1
execute_campaign-IsReported_example = execute_campaign-IsReported env campaign

execute_campaign_screened_example : AllScreened env campaign (execute_campaign env campaign []).1
execute_campaign_screened_example = execute_campaign_screened env campaign
