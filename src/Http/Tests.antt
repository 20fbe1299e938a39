-- ===== src/Http/Tests.antt =====
-- adapters/http on one environment: a tenant's user who may send messages.
use spur_messaging.Prelude.{true, length, ◌≡◌, refl, none, some, [], ◌∷◌, trim_space}
use spur_messaging.Prelude.Int.{pos}
use spur_messaging.Domain.Errors.{sentinel, not_found}
use spur_messaging.Domain.Message.{sms, text}
use spur_messaging.Calls.{ok, err}
use spur_messaging.Message.Env.{SendRequest}
use spur_messaging.Identity.Context.{Context, has_permission, tenant_id_of}
use spur_messaging.Api.Validate.{
  validate_idempotency_key, validate_channel, validate_metadata, validate_phone,
}
use spur_messaging.Api.Respond.{error_code_map}
use spur_messaging.Http.Env.{Request, SendBody, Answer, HttpEnv, asked, send_message}
use spur_messaging.Http.Steps.{failed, respond}
use spur_messaging.Http.Messages.{handle_send}
use spur_messaging.Http.Routes.{Endpoint, documented}
use spur_messaging.Http.Dispatch.{handle}
use spur_messaging.Http.Guarded.{AllGuarded, needed, handle-AllGuarded}
use spur_messaging.Http.Denied.{handle_forbidden}
use spur_messaging.Http.Bounded.{AllBounded, handle-AllBounded}
use spur_messaging.Domain.Contact.{is_opted_in_on}
use spur_messaging.Message.Checks.{
  find_provider, find_contact, resolve_request, check_opt_in, check_suppressed, check_unsubscribed,
  check_whatsapp,
}
use spur_messaging.Message.Build.{prepare, build}
use spur_messaging.Message.Send.{send, send_new, screen, deliver, store, put_on_queue}
use spur_messaging.Message.Rules.{queue_of}
use spur_messaging.Message.Tests
use spur_messaging.Http.Served.{Backend, messages_after, over}
use spur_messaging.Http.Answered.{Reaches, asks, says, handle-Reaches}

abbrev pub value : Answer
value = record { content = "{}"; total = 0 }

abbrev pub message : SendRequest
message = record {
  channel = sms;
  recipient = "+15550001111";
  message_type = text;
  template_name = none;
  template_language = none;
  template_params = [];
  text_body = some "hello";
  media_url = none;
  media_type = none;
  idempotency_key = "";
  metadata = [];
  from_email = "";
  from_name = "";
  reply_to = "";
  track_opens = none;
  track_clicks = none;
  sender_id = "";
  cc = [];
  bcc = [];
}

abbrev pub body : SendBody
body = record {
  request = message;
  track_opens = none;
  track_clicks = none;
  from_email = "";
  from_name = "";
  reply_to = "";
  sender_id = "";
  idempotency = "";
  cc = [];
  bcc = [];
}

abbrev pub env : HttpEnv
env = record {
  parse_uuid = λ s. some 5;
  atoi = λ s. pos 0;
  is_number = λ s. true;
  parse_time = λ s. none;
  to_lower = λ s. s;
  split_host_port = λ s. none;
  decode_send = λ s. some body;
  decode_sends = λ s. none;
  decode_template = λ s. none;
  decode_template_update = λ s. none;
  decode_email_template = λ s. none;
  decode_email_template_update = λ s. none;
  decode_variables = λ s. none;
  decode_test_email = λ s. none;
  decode_name = λ s. none;
  decode_campaign = λ s. none;
  decode_campaign_update = λ s. none;
  decode_contact = λ s. none;
  decode_contacts = λ s. none;
  decode_contact_update = λ s. none;
  decode_consent = λ s. none;
  decode_segment = λ s. none;
  decode_conversation_update = λ s. none;
  decode_note = λ s. none;
  decode_endpoint = λ s. none;
  decode_endpoint_update = λ s. none;
  decode_money = λ s. none;
  decode_rate = λ s. none;
  decode_suppression = λ s. none;
  decode_suppression_check = λ s. none;
  decode_provider = λ s. none;
  decode_provider_test = λ s. none;
  decode_state = λ s. none;
  decode_callback = λ s. none;
  clock = λ h. 1000;
  serve = λ h t op. ok value;
  get_by_channel = λ h t c. ok none;
  get_provider = λ h t id. err (sentinel not_found);
  create_provider = λ h cfg. ok value;
  update_provider = λ h cfg. ok value;
  create_session = λ h t state. err (sentinel not_found);
  create_rate_card = λ h owner body from. ok value;
}

abbrev pub context : Context
context = record {
  tenant = some 7;
  user = some 2;
  roles = none;
  permissions = some ("messaging:messages:send" ∷ "messaging:messages:read" ∷ []);
  method = none;
}

abbrev pub request : Request
request = record {
  context = context;
  path = λ name. "5";
  query = λ name. "";
  header = λ name. "";
  user_agent = "";
  remote_addr = "";
  body = "{}";
  has_body = true;
}

-- The message is handed on once, for the tenant.
send_once : (handle_send env request []).1 ≡ asked 7 (send_message message) (ok value) ∷ []
unfolding handle_send has_permission tenant_id_of validate_idempotency_key validate_channel
    validate_metadata validate_phone trim_space
send_once = refl

handle-AllGuarded_example :
    AllGuarded context (needed Endpoint.send) (handle env request Endpoint.send []).1
handle-AllGuarded_example = handle-AllGuarded env request Endpoint.send

handle-AllBounded_example : AllBounded (handle env request Endpoint.send []).1
handle-AllBounded_example = handle-AllBounded env request Endpoint.send

-- The user may not import.
handle_forbidden_example :
    (respond error_code_map (handle env request Endpoint.import_contacts []).0
      ≡ failed (record { status = 403; code = "FORBIDDEN"; message = "forbidden"; field = "" }))
    × ((handle env request Endpoint.import_contacts []).1 ≡ [])
unfolding has_permission documented
handle_forbidden_example = handle_forbidden env request [] Endpoint.import_contacts refl refl

handle-Reaches_example :
    Reaches env request [] 7 5
      (asks Endpoint.get_message)
      (says Endpoint.get_message)
      (handle env request Endpoint.get_message [])
unfolding has_permission documented
handle-Reaches_example = handle-Reaches env request [] 7 5 Endpoint.get_message refl refl refl

-- The message service of its own tests, at the beginning.
abbrev backend : Backend
backend = record {
  engine = Tests.engine;
  messages = Tests.env;
  config = Tests.cfg;
  before = [];
  show = λ m. value;
  show_all = λ ms. value;
  execute = λ t id h. (ok value, h);
}

-- One message is on the queue then.
length-queue :
    length
      (queue_of (messages_after backend (handle (over backend env) request Endpoint.send []).1))
    ≡ 1
unfolding handle has_permission tenant_id_of validate_idempotency_key validate_channel
    validate_metadata validate_phone trim_space send send_new find_provider find_contact
    resolve_request check_opt_in is_opted_in_on screen check_suppressed check_unsubscribed deliver
    check_whatsapp prepare build store put_on_queue
length-queue = refl
