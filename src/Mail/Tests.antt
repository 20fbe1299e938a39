-- ===== src/Mail/Tests.antt =====
-- core/services/email_sender.go and core/services/messaging_gateway.go on one environment.
use spur_messaging.Prelude.{◌≡◌, ◌⊎◌, []}
use spur_messaging.Domain.Message.{sms, other_type}
use spur_messaging.Message.Rules.{queue_of}
use spur_messaging.Message.Cleared.{Target, IsCleared}
use spur_messaging.Message.Tests.{engine, env, cfg}
use spur_messaging.Mail.Requests.{MessagingRequest}
use spur_messaging.Mail.Gateway.{submit, IsReceipted, IsSubmitted, submit-IsReceipted}

abbrev submission : MessagingRequest
submission = record {
  channel = sms;
  recipient = "+15550001";
  message_type = other_type "";
  subject = "";
  html_body = "";
  text_body = "hello";
  template_name = "";
  template_language = "";
  template_params = [];
  media_url = "";
  media_type = "";
  metadata = [];
  idempotency_key = "key-1";
  priority = "high";
  category = "";
  correlation_id = "c1";
  callback_ref = "";
  from_email = "";
  from_name = "";
  reply_to = "";
  cc = [];
  bcc = [];
}

submit-IsReceipted_example :
    (queue_of (submit engine env cfg 7 submission []).1 ≡ [])
    ⊎ (IsReceipted 7 submission [] (submit engine env cfg 7 submission [])
        × ((to : Target) × IsSubmitted submission to
            × IsCleared cfg 7 to (submit engine env cfg 7 submission []).1))
submit-IsReceipted_example = submit-IsReceipted engine env cfg 7 submission []
