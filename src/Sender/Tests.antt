-- ===== src/Sender/Tests.antt =====
-- worker/sender.go on one environment: a provider that answers with a 429 once and then fails.
use spur_messaging.Prelude.{ℕ, ◌+◌, ◌≤◌, true, false, none, some, [], ltb, if◌then◌else◌, arith}
use spur_messaging.Domain.Errors.{sentinel, is_error, rate_limit_exceeded, provider_timeout}
use spur_messaging.Domain.Message.{sms, text, outbound, queued, Message}
use spur_messaging.Calls.{Result, ok, err}
use spur_messaging.Sender.Env.{ProviderSetup, ProviderSendResult, SenderEnv}
use spur_messaging.Sender.Attempt.{send_with_cfg, hand_over}
use spur_messaging.Sender.Delivery.{retry_loop, backoffs}
use spur_messaging.Sender.Retries.{
  handed_count, slept_count, Calms, Ends, retry_loop-handed_count, retry_loop-Ends,
}

abbrev setup : ProviderSetup
setup = record { config_id = 2; provider = "msg91"; is_email_provider = false }

abbrev message : Message
message = record {
  id = 3;
  tenant_id = 7;
  campaign_id = some 4;
  conversation_id = none;
  channel = sms;
  direction = outbound;
  recipient = "+15550001";
  sender = "";
  message_type = text;
  template_id = none;
  template_name = none;
  template_params = [];
  text_body = some "hello";
  media_url = none;
  media_type = none;
  provider_message_id = "";
  idempotency_key = none;
  status = queued;
  error_code = none;
  error_message = none;
  sent_at = none;
  failed_at = none;
  created_at = 0;
  metadata = [];
}

abbrev refuse : ℕ → Result ProviderSendResult
refuse n = if ltb n 1 then err (sentinel rate_limit_exceeded) else err (sentinel provider_timeout)

abbrev env : SenderEnv
env = record {
  uuid_string = λ u. "id";
  has_billing = true;
  get_message = λ h t id. ok message;
  get_provider = λ h t c. ok setup;
  back_off = λ h t. ok tt;
  update_status = λ h t id s p. ok tt;
  send_email = λ h p c req. refuse (slept_count h);
  send = λ h p c req. refuse (slept_count h);
  record_charge = λ h c. ok tt;
  update_is_active = λ h t id b. ok tt;
  get_campaign = λ h t id.
      ok (4, record { total = 1; queued = 0; sent = 0; delivered = 0; read = 0; failed = 0 });
  update_stats = λ h t id s. ok tt;
}

retry_loop-handed_count_example :
    handed_count (retry_loop env 5 message setup none backoffs []).1 + 0
    ≤ 0 + 4 + slept_count (retry_loop env 5 message setup none backoffs []).1
retry_loop-handed_count_example = retry_loop-handed_count env message setup 5 []

calm : Calms env message setup 1
unfolding send_with_cfg hand_over is_error
calm h e late sent = ground arith

retry_loop-Ends_example : Ends env message setup (retry_loop env 5 message setup none backoffs []).0
retry_loop-Ends_example = retry_loop-Ends env message setup 1 5 [] calm (omega arith)
