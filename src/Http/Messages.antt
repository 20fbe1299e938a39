-- ===== src/Http/Messages.antt =====
-- adapters/http/message_handler.go.
use spur_messaging.Prelude.{
  String, Bool, ◌||◌, Option, none, some, List, [], ◌∷◌, is_empty, str_eq, trim_space,
  if◌then◌else◌,
}
use spur_messaging.Domain.Errors.{validation_error}
use spur_messaging.Domain.Message.{
  MessageStatus, created, validated, queued, provider_submitted, sent, delivered, read, opened,
  clicked, replied, failed, cancelled, expired, suppressed, unknown_status, is_valid_message_status,
}
use spur_messaging.Message.Env.{SendRequest}
use spur_messaging.Identity.Permissions.{messages_read, messages_send, messages_send_bulk}
use spur_messaging.Api.Validate.{validate_idempotency_key, validate_channel, validate_metadata}
use spur_messaging.Http.Env.{
  Request, SendBody, HttpEnv, send_message, send_bulk_messages, get_message, list_messages,
}
use spur_messaging.Http.Steps.{
  Handling, Success, pure, ◌>>=◌, ◌>>◌, lift, require, check, decode, ask, permitted, by_id,
  page_of, validate_recipient, service_value, respond_created, respond_list, pagination_of,
  query_filter, channel_of, map_option,
}

-- `domain.MessageStatus(s)`.
unfoldable pub message_status_of : String → MessageStatus
message_status_of s =
    if str_eq s "created"
    then created
    else if str_eq s "validated"
    then validated
    else if str_eq s "queued"
    then queued
    else if str_eq s "provider_submitted"
    then provider_submitted
    else if str_eq s "sent"
    then sent
    else if str_eq s "delivered"
    then delivered
    else if str_eq s "read"
    then read
    else if str_eq s "opened"
    then opened
    else if str_eq s "clicked"
    then clicked
    else if str_eq s "replied"
    then replied
    else if str_eq s "failed"
    then failed
    else if str_eq s "cancelled"
    then cancelled
    else if str_eq s "expired"
    then expired
    else if str_eq s "suppressed"
    then suppressed
    else unknown_status s

-- The status that `ListMessages` filters by.
abbrev pub status_filter : Option String → Handling (Option MessageStatus)
status_filter none = pure none
status_filter (some s) = do
  let status = message_status_of s
  require (is_valid_message_status status) "status" "invalid message status"
  pure (some status)

-- The request with the fields that stand beside it in the body.
abbrev pub request_of : SendBody → SendRequest
request_of body = record body.request {
  track_opens = body.track_opens;
  track_clicks = body.track_clicks;
  from_email = body.from_email;
  from_name = body.from_name;
  reply_to = body.reply_to;
  sender_id = body.sender_id;
  cc = body.cc;
  bcc = body.bcc;
}

-- The key of the header and that of the body, which must agree where both are there.
abbrev pub keys_agree : (header body : String) → Bool
keys_agree header body = is_empty header || is_empty body || str_eq header body

abbrev pub key_of : (header body : String) → String
key_of header body = if is_empty header then body else header

module _ (env : HttpEnv) where
  -- What the loop of `SendBulkMessages` checks of a request, and makes of it.
  abbrev pub check_bulk : SendRequest → Handling SendRequest
  check_bulk r = do
    recipient ← lift (validate_recipient env r.channel r.recipient)
    lift (validate_metadata r.metadata)
    pure (record r { recipient = recipient })

  unfoldable pub check_all_bulk : List SendRequest → Handling (List SendRequest)
  check_all_bulk [] = pure []
  check_all_bulk (r ∷ rs) = do
    checked ← check_bulk r
    rest ← check_all_bulk rs
    pure (checked ∷ rest)

  module _ (req : Request) where
    -- `SendMessage`.
    unfoldable pub handle_send : Handling Success
    handle_send = permitted req messages_send (λ t. do
      body ← decode (env.decode_send req.body)
      let header_key = trim_space (req.header "Idempotency-Key")
      let body_key = trim_space body.idempotency
      check (keys_agree header_key body_key) (
          validation_error "idempotency_key"
            "Idempotency-Key header and idempotency_key body field must match")
      let request = record (request_of body) { idempotency_key = key_of header_key body_key }
      lift (validate_idempotency_key request.idempotency_key)
      lift (validate_channel request.channel)
      lift (validate_metadata request.metadata)
      recipient ← lift (validate_recipient env request.channel request.recipient)
      lift (validate_metadata request.metadata)
      answer ← ask env t (send_message (record request { recipient = recipient }))
      respond_created (service_value answer))

    -- `SendBulkMessages`.
    unfoldable pub handle_send_bulk : Handling Success
    unfolding check_all_bulk
    handle_send_bulk = permitted req messages_send_bulk (λ t. do
      requests ← decode (env.decode_sends req.body)
      checked ← check_all_bulk requests
      answer ← ask env t (send_bulk_messages checked)
      respond_created (service_value answer))

    -- `GetMessage`.
    unfoldable pub handle_get_message : Handling Success
    handle_get_message = by_id env req messages_read get_message service_value

    -- `ListMessages`.
    unfoldable pub handle_list_messages : Handling Success
    unfolding page_of
    handle_list_messages = permitted req messages_read (λ t. do
      pages ← page_of env req
      status ← status_filter (query_filter (req.query "status"))
      answer ← ask env t (
          list_messages (record {
            channel = map_option channel_of (query_filter (req.query "channel"));
            status = status;
            recipient = query_filter (req.query "recipient");
            page = pages.0;
            per_page = pages.1;
          }))
      respond_list answer (pagination_of pages.0 pages.1 answer.total))
