-- ===== src/Message/Build.antt =====
-- core/services/message_service.go, the second half of `Send` up to the database: the email's text
-- and headers, the message, and its metadata.
use spur_messaging.Prelude.{
  String, Bool, true, false, not, Option, none, some, List, [], ◌∷◌, Metadata, is_empty, get_key,
  set_key, if◌then◌else◌, deref, concat, join,
}
use spur_messaging.Domain.Errors.{panicked, not_found_error, validation_error}
use spur_messaging.Domain.Message.{
  Uuid, Channel, sms, email, is_email, is_template, Message, queued, suppressed, outbound,
  MessageStatus,
}
use spur_messaging.Domain.Template.{EmailTemplate}
use spur_messaging.Calls.{ok, err, Op, pure, fail, ◌>>=◌, call, draw, attempt}
use spur_messaging.Message.Env.{
  SendRequest, ServiceConfig, MessageCall, MessageEnv, drew_id, read_clock, asked_template,
  asked_email_template,
}
use spur_messaging.Message.Email.{
  TextEngine, render_email, strip_html, rewrite_links, add_pixel, unsubscribe_url,
  add_unsubscribe_link,
}
use spur_messaging.Message.Checks.{is_marketing, template_language}

abbrev pub is_on : Option Bool → Bool
is_on none = false
is_on (some b) = b

abbrev format_bool : Bool → String
format_bool true = "true"
format_bool false = "false"

-- The three keys that an email's metadata always gets, or the one of an SMS.
unfoldable pub sender_metadata : SendRequest → Channel → Metadata → Metadata
unfolding set_key
sender_metadata req email m =
    set_key "reply_to" req.reply_to
      (set_key "from_name" req.from_name (set_key "from_email" req.from_email m))
sender_metadata req sms m = set_key "sender_id" req.sender_id m
sender_metadata req _ m = m

abbrev set_if : Option Bool → String → Metadata → Metadata
set_if none k m = m
set_if (some b) k m = set_key k (format_bool b) m

abbrev set_list : List String → String → Metadata → Metadata
set_list [] k m = m
set_list (x ∷ xs) k m = set_key k (join "," (x ∷ xs)) m

-- The last pass over the metadata, before the message is stored.
unfoldable pub final_metadata : SendRequest → Metadata → Metadata
unfolding sender_metadata
final_metadata req m =
    let m' = sender_metadata req req.channel m in
    if is_email req.channel
    then set_list req.bcc "bcc" (
        set_list req.cc "cc"
          (set_if req.track_clicks "track_clicks" (set_if req.track_opens "track_opens" m')))
    else m'

module _ (engine : TextEngine) (env : MessageEnv) (cfg : ServiceConfig) (tenant_id : Uuid) where
  -- The rendered template, in the text and the metadata of the request.
  unfoldable pub render_template : EmailTemplate → SendRequest → SendRequest
  render_template tmpl req =
      let html = render_email tmpl.html_body req.template_params in
      let plain = render_email tmpl.text_body req.template_params in
      record req {
        text_body = some html;
        metadata = set_key "text_body" (if is_empty plain then strip_html html else plain) (
            set_key "html_body" html
              (set_key "subject" (render_email tmpl.subject req.template_params) req.metadata));
      }

  -- The unsubscribe headers and the link in the body of a marketing email.
  unfoldable pub add_unsubscribe : SendRequest → SendRequest
  add_unsubscribe req =
      let url = unsubscribe_url engine cfg.webhook_base_url tenant_id req.recipient in
      let m = set_key "list_unsubscribe_post" "List-Unsubscribe=One-Click" (
        set_key "list_unsubscribe" (concat ("<mailto:unsub@citual.com>, <" ∷ url ∷ ">" ∷ []))
          req.metadata) in
      let stored = get_key "html_body" m in
      let html = if not (is_empty stored) then stored else deref req.text_body in
      record req {
        metadata =
            set_key "html_body" (add_unsubscribe_link engine cfg.webhook_base_url html url) m;
      }

  -- `rewriteLinks` on the body in the metadata, where clicks are tracked.
  track_links : Option Bool → Uuid → Metadata → Op MessageCall Metadata
  track_links track message_id m =
      if is_on track
      then elim (rewrite_links engine cfg.webhook_base_url (get_key "html_body" m) message_id) [
        | none ↦ fail (panicked "slice bounds out of range")
        | some html ↦ pure (set_key "html_body" html m)
      ]
      else pure m

  template_stage : SendRequest → Op MessageCall SendRequest
  unfolding render_template
  template_stage req = elim (is_template req.message_type) [
    | false ↦ pure req
    | true ↦ elim req.template_name [
      | none ↦ fail (validation_error "template_name" "template name is required")
      | some name ↦ do
        found ← attempt (
            call (λ h. env.get_email_template h tenant_id name)
              (asked_email_template tenant_id name))
        elim found [
          | err e ↦ fail (not_found_error "email template not found")
          | ok tmpl ↦ pure (render_template tmpl req)
        ]
    ]
  ]

  -- Everything that `Send` does to an email before the message has an ID.
  unfoldable pub prepare : SendRequest → Op MessageCall SendRequest
  unfolding template_stage track_links add_unsubscribe
  prepare req = elim (is_email req.channel) [
    | false ↦ pure req
    | true ↦ do
      rendered ← template_stage req
      let marked = if is_marketing req.metadata then add_unsubscribe rendered else rendered
      m ← track_links marked.track_clicks 0 marked.metadata
      pure (record marked { metadata = m })
  ]

  -- The literal `&domain.Message{...}` of `Send` and of `createSuppressedMessage`.
  abbrev pub blank_message : SendRequest → MessageStatus → Uuid → Message
  blank_message req status id = record {
    id = id;
    tenant_id = tenant_id;
    campaign_id = none;
    conversation_id = none;
    channel = req.channel;
    direction = outbound;
    recipient = req.recipient;
    sender = "";
    message_type = req.message_type;
    template_id = none;
    template_name = none;
    template_params = [];
    text_body = none;
    media_url = none;
    media_type = none;
    provider_message_id = "";
    idempotency_key = if is_empty req.idempotency_key then none else some req.idempotency_key;
    status = status;
    error_code = none;
    error_message = none;
    sent_at = none;
    failed_at = none;
    created_at = 0;
    metadata = req.metadata;
  }

  -- The open pixel and the click links carry the ID that was just drawn.
  email_stage : SendRequest → Uuid → Op MessageCall Metadata
  unfolding track_links sender_metadata
  email_stage req id = elim (is_email req.channel) [
    | false ↦ pure req.metadata
    | true ↦
        let m = sender_metadata req email req.metadata in
        let tracked =
          if is_on req.track_opens
          then set_key "html_body"
              (add_pixel engine cfg.webhook_base_url (get_key "html_body" m) id) m
          else m in
        track_links req.track_clicks id tracked
  ]

  -- The template's ID, where the lookup succeeds; any failure of it is passed over.
  template_id_stage : SendRequest → Op MessageCall (Option Uuid)
  template_id_stage req = elim req.template_name [
    | none ↦ pure none
    | some name ↦ do
      let lang = template_language env cfg tenant_id req
      found ←
          attempt (
            call (λ h. env.get_template h tenant_id name lang) (asked_template tenant_id name lang))
      elim found [ ok tmpl ↦ pure (some tmpl.id) | err e ↦ pure none ]
  ]

  -- Step 6: the message that will be stored.
  unfoldable pub build : SendRequest → Option Uuid → Op MessageCall Message
  unfolding email_stage template_id_stage final_metadata
  build req conversation = do
    id ← draw env.new_uuid drew_id
    now ← draw env.clock read_clock
    m ← email_stage req id
    template ← template_id_stage req
    pure (record (blank_message req queued id) {
      conversation_id = conversation;
      template_id = template;
      template_name = req.template_name;
      template_params = req.template_params;
      text_body = req.text_body;
      media_url = req.media_url;
      media_type = req.media_type;
      created_at = now;
      metadata = final_metadata req m;
    })

  -- The message that `createSuppressedMessage` stores in place of one that may not be sent.
  unfoldable pub build_suppressed : SendRequest → String → Op MessageCall Message
  unfolding sender_metadata
  build_suppressed req code = do
    id ← draw env.new_uuid drew_id
    now ← draw env.clock read_clock
    pure (record (blank_message req suppressed id) {
      error_code = some code;
      created_at = now;
      metadata = sender_metadata req req.channel req.metadata;
    })
