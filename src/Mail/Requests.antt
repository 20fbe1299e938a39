-- ===== src/Mail/Requests.antt =====
-- core/services/email_sender.go and core/services/messaging_gateway.go: the requests to `Send`.
use spur_messaging.Prelude.{
  String, ◌&&◌, not, Option, none, some, List, [], Metadata, is_empty, set_key, if◌then◌else◌,
}
use spur_messaging.Domain.Message.{
  Channel, email, is_email, MessageType, text, template, other_type,
}
use spur_messaging.Message.Env.{SendRequest}

-- ports.TransactionalEmailRequest, as far as it is read.
pub record TransactionalEmailRequest : Type 0 where
  pub to : String
  pub subject : String
  pub html_body : String
  pub from_email : String
  pub from_name : String
  pub reply_to : String
  pub cc : List String
  pub bcc : List String
  pub metadata : Metadata

-- ports.TemplateEmailRequest, as far as it is read.
pub record TemplateEmailRequest : Type 0 where
  pub to : String
  pub template_name : String
  pub variables : Metadata
  pub from_email : String
  pub from_name : String
  pub reply_to : String
  pub cc : List String
  pub bcc : List String
  pub metadata : Metadata

-- ports.MessagingRequest.
pub record MessagingRequest : Type 0 where
  pub channel : Channel
  pub recipient : String
  pub message_type : MessageType
  pub subject : String
  pub html_body : String
  pub text_body : String
  pub template_name : String
  pub template_language : String
  pub template_params : Metadata
  pub media_url : String
  pub media_type : String
  pub metadata : Metadata
  pub idempotency_key : String
  pub priority : String
  pub category : String
  pub correlation_id : String
  pub callback_ref : String
  pub from_email : String
  pub from_name : String
  pub reply_to : String
  pub cc : List String
  pub bcc : List String

-- A request with what both files leave at its zero value.
abbrev plain_request : Channel → String → MessageType → Metadata → SendRequest
plain_request channel recipient type metadata = record {
  channel = channel;
  recipient = recipient;
  message_type = type;
  template_name = none;
  template_language = none;
  template_params = [];
  text_body = none;
  media_url = none;
  media_type = none;
  idempotency_key = "";
  metadata = metadata;
  from_email = "";
  from_name = "";
  reply_to = "";
  track_opens = none;
  track_clicks = none;
  sender_id = "";
  cc = [];
  bcc = [];
}

-- The request of `SendTransactional`.
unfoldable pub transactional_request : TransactionalEmailRequest → SendRequest
unfolding set_key
transactional_request req =
    let metadata =
      set_key "subject" req.subject (set_key "category" "transactional" req.metadata) in
    record (plain_request email req.to text metadata) {
      text_body = some req.html_body;
      from_email = req.from_email;
      from_name = req.from_name;
      reply_to = req.reply_to;
      cc = req.cc;
      bcc = req.bcc;
    }

-- The request of `SendWithTemplate`.
unfoldable pub template_request : TemplateEmailRequest → SendRequest
unfolding set_key
template_request req =
    let metadata = set_key "category" "transactional" req.metadata in
    record (plain_request email req.to template metadata) {
      template_name = some req.template_name;
      template_params = req.variables;
      from_email = req.from_email;
      from_name = req.from_name;
      reply_to = req.reply_to;
      cc = req.cc;
      bcc = req.bcc;
    }

abbrev pub set_filled : String → String → Metadata → Metadata
set_filled key value m = if is_empty value then m else set_key key value m

abbrev filled : String → Option String
filled s = if is_empty s then none else some s

abbrev pub type_or_text : MessageType → MessageType
type_or_text (other_type s) = if is_empty s then text else other_type s
type_or_text type = type

-- The metadata of `Submit`.
unfoldable pub gateway_metadata : MessagingRequest → Metadata
unfolding set_key
gateway_metadata req = set_filled "priority" req.priority (
    set_filled "callback_ref" req.callback_ref (
      set_filled "correlation_id" req.correlation_id (
        set_filled "text_body" req.text_body (
          set_filled "html_body" req.html_body
            (set_filled "subject" req.subject (set_filled "category" req.category req.metadata))))))

-- The request of `Submit`.
unfoldable pub gateway_request : MessagingRequest → SendRequest
unfolding gateway_metadata
gateway_request req =
    record (plain_request req.channel req.recipient (type_or_text req.message_type)
      (gateway_metadata req)) {
        template_name = filled req.template_name;
        template_language = filled req.template_language;
        template_params = req.template_params;
        text_body =
            if is_email req.channel && not (is_empty req.html_body)
            then some req.html_body
            else filled req.text_body;
        media_url = filled req.media_url;
        media_type = filled req.media_type;
        idempotency_key = req.idempotency_key;
        from_email = req.from_email;
        from_name = req.from_name;
        reply_to = req.reply_to;
        cc = req.cc;
        bcc = req.bcc;
      }
