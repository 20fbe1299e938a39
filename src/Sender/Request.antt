-- ===== src/Sender/Request.antt =====
-- worker/sender.go: what is handed to a provider for a message, and what is charged for it.
use spur_messaging.Prelude.{
  String, not, ◌&&◌, List, [], ◌∷◌, Metadata, is_empty, str_eq, get_key, set_key, if◌then◌else◌,
  deref, trim_space, split_on,
}
use spur_messaging.Domain.Message.{Uuid, is_email, is_whatsapp, is_template, Message}
use spur_messaging.Sender.Env.{
  EmailSendRequest, ProviderSendRequest, ProviderSetup, ProviderSendResult, UsageCharge,
}

keep_parts : List String → List String
keep_parts [] = []
keep_parts (p ∷ ps) =
    let rest = keep_parts ps in
    let part = trim_space p in if is_empty part then rest else part ∷ rest

-- `splitCSV`.
unfoldable pub split_csv : String → List String
unfolding split_on keep_parts
split_csv value = if is_empty value then [] else keep_parts (split_on 44 value)

-- `billingCategoryForMessage`.
unfoldable pub billing_category : Message → String
billing_category msg =
    let category = get_key "category" msg.metadata in
    if not (is_empty category)
    then category
    else if is_whatsapp msg.channel && is_template msg.message_type
    then "utility"
    else if is_email msg.channel
    then "marketing"
    else "service"

-- A header or a key that is only passed on where it has a value.
abbrev copy_key : String → String → Metadata → Metadata → Metadata
copy_key from to source target =
    let v = get_key from source in if is_empty v then target else set_key to v target

-- The body of an email: the metadata's, or the message's text where that is empty.
abbrev html_of : Message → String
html_of msg =
    let html = get_key "html_body" msg.metadata in
    if is_empty html then deref msg.text_body else html

abbrev text_of : Message → String
text_of msg =
    let plain = get_key "text_body" msg.metadata in
    if is_empty plain && is_empty (html_of msg) then deref msg.text_body else plain

unfoldable pub email_request : (Uuid → String) → Message → EmailSendRequest
unfolding split_csv
email_request uuid_string msg =
    let m = msg.metadata in
    record {
      to = msg.recipient;
      cc = split_csv (get_key "cc" m);
      bcc = split_csv (get_key "bcc" m);
      from_email = get_key "from_email" m;
      from_name = get_key "from_name" m;
      reply_to = get_key "reply_to" m;
      subject = get_key "subject" m;
      html_body = html_of msg;
      text_body = text_of msg;
      headers =
          copy_key "list_unsubscribe_post" "List-Unsubscribe-Post" m
            (copy_key "list_unsubscribe" "List-Unsubscribe" m []);
      track_opens = str_eq (get_key "track_opens" m) "true";
      track_clicks = str_eq (get_key "track_clicks" m) "true";
      metadata = copy_key "callback_ref" "callback_ref" m (
          copy_key "correlation_id" "correlation_id" m (
            set_key "tenant_id" (uuid_string msg.tenant_id)
              (set_key "message_id" (uuid_string msg.id) [])));
    }

abbrev pub send_request : Message → ProviderSendRequest
send_request msg = record {
  recipient = msg.recipient;
  message_type = msg.message_type;
  template_name = msg.template_name;
  text = msg.text_body;
  template_params = msg.template_params;
}

abbrev pub usage_charge : Message → ProviderSetup → ProviderSendResult → UsageCharge
usage_charge msg setup result = record {
  tenant_id = msg.tenant_id;
  message_id = msg.id;
  campaign_id = msg.campaign_id;
  channel = msg.channel;
  category = billing_category msg;
  country = get_key "country" msg.metadata;
  currency = get_key "currency" msg.metadata;
  provider_cost = result.cost;
  provider = setup.provider;
  description = "Message accepted by provider";
  occurred_at = result.timestamp;
}
