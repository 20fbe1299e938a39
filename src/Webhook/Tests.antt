-- ===== src/Webhook/Tests.antt =====
-- core/services/webhook_service.go on one environment: a messages table with one row, whose status
-- is the last one that was written.
use spur_messaging.Prelude.{
  String, true, false, ◌≡◌, refl, Option, none, some, List, [], ◌∷◌, str_eq, arith,
}
use spur_messaging.Domain.Errors.{other}
use spur_messaging.Domain.Message.{
  whatsapp, text, outbound, Message, MessageStatus, sent, delivered,
}
use spur_messaging.Domain.Event.{complaint}
use spur_messaging.Calls.{Result, ok, err}
use spur_messaging.Webhook.Env.{
  WhatsappStatus, WhatsappEntry, ProviderEvent, WebhookConfig, WebhookEnv,
}
use spur_messaging.Webhook.Whatsapp.{
  handle_whatsapp_webhook, process_whatsapp_status, change_status, deliver_message_event,
  map_whatsapp_status,
}
use spur_messaging.Webhook.EmailEvents.{process_email_event, handle_email_webhook}
use spur_messaging.Webhook.Ranks.{
  last_status, CanRead, ReadsStatus, IsClimbing, IsNearlyClimbing, handle_whatsapp_webhook_climbs,
  handle_email_webhook_climbs,
}
use spur_messaging.Webhook.Feedback.{IsBlocked, process_email_event_blocks}

abbrev row_with : MessageStatus → Message
row_with status = record {
  id = 3;
  tenant_id = 7;
  campaign_id = none;
  conversation_id = none;
  channel = whatsapp;
  direction = outbound;
  recipient = "+15550001";
  sender = "";
  message_type = text;
  template_id = none;
  template_name = none;
  template_params = [];
  text_body = none;
  media_url = none;
  media_type = none;
  provider_message_id = "wamid.1";
  idempotency_key = none;
  status = status;
  error_code = none;
  error_message = none;
  sent_at = none;
  failed_at = none;
  created_at = 0;
  metadata = [];
}

abbrev read_row : Option MessageStatus → Result Message
read_row none = ok (row_with sent)
read_row (some s) = ok (row_with s)

abbrev env : WebhookEnv
env = record {
  unix_time = λ s. none;
  new_uuid = λ h. 1;
  clock = λ h. 5;
  get_by_waba_id = λ h id. ok 7;
  get_by_provider_id = λ h id. read_row (last_status id h);
  update_status = λ h id s t. ok tt;
  upsert_inbound = λ h t from at. ok 2;
  create = λ h m. ok m;
  deliver_event = λ h t e m at. ok tt;
  handle_keyword = λ h t c from body. ok tt;
  exists_event = λ h id. ok (str_eq id "evt-old");
  create_event = λ h e. ok tt;
  get_by_campaign = λ h t c. ok [];
  add_to_suppression = λ h t a r. ok tt;
  unsubscribe = λ h t a c r. err (other "list is down");
}

reads : ReadsStatus env
reads = record { reads = λ h id. readable (last_status id h) }
  where
    readable : (o : Option MessageStatus) → CanRead o (read_row o)
    readable none = tt
    readable (some s) = omega arith

abbrev cfg : WebhookConfig
cfg = record { has_conversations = true; has_contacts = true; has_tenant_webhooks = true }

abbrev status_update : String → WhatsappStatus
status_update s = record { id = "wamid.1"; status = s; timestamp = "" }

-- A read receipt that overtakes the delivery receipt, in one payload.
abbrev payload : List WhatsappEntry
payload =
    record {
      id = "waba";
      changes =
          record {
            field = "messages";
            statuses = status_update "read" ∷ status_update "delivered" ∷ [];
            messages = [];
          }
          ∷ [];
    }
    ∷ []

handle_whatsapp_webhook_climbs_example :
    IsNearlyClimbing (handle_whatsapp_webhook env cfg (some payload) []).1
handle_whatsapp_webhook_climbs_example =
    handle_whatsapp_webhook_climbs env cfg reads (some payload) [] tt

-- While the lookup fails, the late delivery receipt lowers the status that the read receipt wrote.
blind_fall :
    let blind = record env { get_by_provider_id = λ h id. err (other "database is down") } in
    last_status "wamid.1" (handle_whatsapp_webhook blind cfg (some payload) []).1 ≡ some delivered
unfolding handle_whatsapp_webhook process_whatsapp_status change_status deliver_message_event
    map_whatsapp_status
blind_fall = refl

abbrev event_with : String → ProviderEvent
event_with id = record {
  provider_message_id = "wamid.1";
  status = none;
  timestamp = 9;
  email_event_type = complaint;
  email_provider_id = id;
  address = "a@example.com";
  url = "";
  bounce_type = "";
  bounce_reason = "";
  user_agent = "";
  ip_address = "";
}

handle_email_webhook_climbs_example :
    IsClimbing
      (handle_email_webhook env cfg (some (event_with "evt-1" ∷ event_with "evt-old" ∷ [])) []).1
handle_email_webhook_climbs_example =
    handle_email_webhook_climbs env cfg reads
      (some (event_with "evt-1" ∷ event_with "evt-old" ∷ [])) [] tt

abbrev flat_env : WebhookEnv
flat_env = record env {
  get_by_provider_id = λ h id. ok (row_with sent);
  exists_event = λ h id. ok false;
  unsubscribe = λ h t a c r. ok tt;
}

process_email_event_blocks_example :
    IsBlocked flat_env
      (row_with sent)
      (event_with "evt-1")
      (process_email_event flat_env cfg (event_with "evt-1") []).1
process_email_event_blocks_example =
    process_email_event_blocks flat_env cfg (event_with "evt-1") (row_with sent) [] (λ h. refl)
      (λ h. refl)
