-- ===== src/Message/Tests.antt =====
-- core/services/message_service.go on one environment: a tenant whose contact has opted in to SMS,
-- and a messages table that keeps the last row that was stored.
use mathlib.Core.Path.{subst}
use spur_messaging.Prelude.{
  sym, ap, set_key, get_key, true, false, ◌≡◌, refl, ◌⊎◌, none, some, [], ◌∷◌, trim_space, arith,
}
use spur_messaging.Domain.Errors.{is_error, sentinel, not_found}
use spur_messaging.Domain.Message.{sms, text, Message, outbound, queued}
use spur_messaging.Domain.Contact.{is_opted_in_on, Contact, pending, opted_in}
use spur_messaging.Calls.{Result, ok, err}
use spur_messaging.Message.Env.{
  enqueued, read_clock, drew_id, asked_suppressed, asked_phone_contact, asked_provider, SendRequest,
  SenderConfig, ServiceConfig, MessageEnv, History, created, asked_key,
}
use spur_messaging.Message.Email.{TextEngine}
use spur_messaging.Message.Send.{send, send_new, screen, deliver, store, put_on_queue, find_key}
use spur_messaging.Message.Checks.{
  find_provider, find_contact, resolve_request, resolve_string, check_opt_in, check_suppressed,
  check_unsubscribed, check_whatsapp,
}
use spur_messaging.Message.Build.{prepare, build, final_metadata, sender_metadata}
use spur_messaging.Message.Rules.{queue_of}
use spur_messaging.Message.Cleared.{target_of, IsCleared}
use spur_messaging.Message.Sent.{IsSent}
use spur_messaging.Message.Safety.{send-IsCleared}
use spur_messaging.Message.Idempotency.{IsHeld, FindsHeld, send_send}

abbrev pub engine : TextEngine
engine = record { hmac_hex = λ s. s; uuid_string = λ u. "id"; replace_matches = λ f s. some s }

abbrev contact : Contact
contact = record {
  id = 1;
  tenant_id = 7;
  phone = some "+15550001";
  email_address = none;
  name = none;
  attributes = [];
  tags = [];
  opt_in_whatsapp = pending;
  opt_in_sms = opted_in;
  opt_in_email = pending;
  created_at = 0;
  updated_at = 0;
}

abbrev setup : SenderConfig
setup = record { from_email = ""; from_name = ""; reply_to_email = ""; sms_sender_id = "SPUR" }

abbrev stored_row : Message → Message
stored_row m = record m { id = 99 }

abbrev find_row : History → Result Message
find_row [] = err (sentinel not_found)
find_row (created m (ok row) ∷ h) = ok row
find_row (_ ∷ h) = find_row h

abbrev pub env : MessageEnv
env = record {
  new_uuid = λ h. 41;
  clock = λ h. 1000;
  get_by_idempotency_key = λ h t key. find_row h;
  get_by_id = λ h t id. find_row h;
  get_provider = λ h t c. ok setup;
  get_by_email = λ h t a. err (sentinel not_found);
  get_by_phone = λ h t p. ok contact;
  is_suppressed = λ h t c r. ok false;
  is_unsubscribed = λ h t r. ok false;
  get_template = λ h t n l. err (sentinel not_found);
  get_email_template = λ h t n. err (sentinel not_found);
  get_active_conversation = λ h t r now. err (sentinel not_found);
  upsert_outbound = λ h t r now. ok 5;
  create = λ h m. ok (stored_row m);
  enqueue = λ h q. ok tt;
}

abbrev pub cfg : ServiceConfig
cfg = record {
  webhook_base_url = "https://example.com";
  email_from_address = "";
  email_from_name = "";
  email_track_opens = false;
  email_track_clicks = false;
  sms_sender_id = "";
  has_suppression = true;
  has_unsubscribe = true;
  has_conversations = true;
}

abbrev request : SendRequest
request = record {
  channel = sms;
  recipient = "+15550001";
  message_type = text;
  template_name = none;
  template_language = none;
  template_params = [];
  text_body = some "hello";
  media_url = none;
  media_type = none;
  idempotency_key = "key-1";
  metadata = [];
  from_email = "";
  from_name = "";
  reply_to = "";
  track_opens = none;
  track_clicks = none;
  sender_id = "";
  cc = [];
  bcc = [];
}

send-IsCleared_example :
    (queue_of (send engine env cfg 7 request []).1 ≡ [])
    ⊎ (IsSent 7 (target_of request) [] (send engine env cfg 7 request [])
        × IsCleared cfg 7 (target_of request) (send engine env cfg 7 request []).1)
send-IsCleared_example = send-IsCleared engine env cfg 7 request []

abbrev row : Message
row = record {
  id = 99;
  tenant_id = 7;
  campaign_id = none;
  conversation_id = none;
  channel = sms;
  direction = outbound;
  recipient = "+15550001";
  sender = "";
  message_type = text;
  template_id = none;
  template_name = none;
  template_params = [];
  text_body = some "hello";
  media_url = none;
  media_type = none;
  provider_message_id = "";
  idempotency_key = some "key-1";
  status = queued;
  error_code = none;
  error_message = none;
  sent_at = none;
  failed_at = none;
  created_at = 1000;
  metadata = ("sender_id", "SPUR") ∷ [];
}

abbrev message : Message
message = record row { id = 41 }

abbrev log : History
log =
    enqueued (record { message_id = 99; tenant_id = 7; channel = sms; priority = 0 }) (ok tt)
    ∷ created message (ok row)
    ∷ read_clock 1000
    ∷ drew_id 41
    ∷ asked_suppressed 7 sms "+15550001" (ok false)
    ∷ asked_phone_contact 7 "+15550001" (ok contact)
    ∷ asked_provider 7 sms (ok setup)
    ∷ asked_key 7 "key-1" (err (sentinel not_found))
    ∷ []

sent : send engine env cfg 7 request [] ≡ (ok row, log)
unfolding send trim_space is_error send_new find_provider find_contact resolve_request check_opt_in
    is_opted_in_on screen check_suppressed check_unsubscribed deliver check_whatsapp prepare build
    store put_on_queue final_metadata sender_metadata set_key get_key resolve_string find_key
sent = refl

found : FindsHeld env 7 "key-1" log log
found = record { finds_held = λ r held. held_row r held }
  where
    held_row : (r : Message) → IsHeld 7 "key-1" r log → ok row ≡ ok r
    held_row r held = ground arith

send_send_example : send engine env cfg 7 request log ≡ (ok row, asked_key 7 "key-1" (ok row) ∷ log)
unfolding trim_space
send_send_example =
    send_send engine env cfg 7 request [] log
      (subst (λ h. FindsHeld env 7 "key-1" h log) (sym (ap (λ out. out.1) sent)) found) refl
      (ap (λ out. out.0) sent)
