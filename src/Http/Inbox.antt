-- ===== src/Http/Inbox.antt =====
-- adapters/http/conversation_handler.go and adapters/http/tenant_webhook_handler.go.
use spur_messaging.Prelude.{
  String, Bool, true, false, ◌||◌, Option, none, some, str_eq, if◌then◌else◌,
}
use spur_messaging.Domain.Errors.{sentinel, forbidden}
use spur_messaging.Domain.Message.{Uuid, Channel}
use spur_messaging.Calls.{ok, err}
use spur_messaging.Http.Steps.{
  Handling, Outcome, done, refused, invalid, settled, Success, pure, ◌>>=◌, ◌>>◌, check, need,
  decode, ask, permitted, by_id, path_id, page_of, parse_pagination, with_total_pages,
  service_value, status_word, respond_ok, respond_created, respond_list, pagination_of,
  query_filter, channel_of,
}
use spur_messaging.Conversations.Service.{
  ConversationStatus, HandoffStatus, open_status, pending_status, resolved_status, closed_status,
  other_conversation_status, bot_handoff, agent_handoff, closed_handoff, waiting_customer_handoff,
  other_handoff, is_valid_conversation_status, is_valid_handoff_status,
}
use spur_messaging.Identity.Context.{has_permission, user_id_of}
use spur_messaging.Identity.Permissions.{
  conversations_read, conversations_write, conversations_assign, webhooks_read, webhooks_write,
  webhooks_test, webhooks_replay,
}
use spur_messaging.Api.Validate.{validate_channel}
use spur_messaging.Http.Env.{
  Request, HttpEnv, list_conversations, get_conversation, update_conversation, add_note,
  create_endpoint, list_endpoints, update_endpoint, get_endpoint, delete_endpoint, test_endpoint,
  replay_delivery, list_deliveries,
}

-- `domain.ConversationStatus(s)`.
unfoldable pub conversation_status_of : String → ConversationStatus
conversation_status_of s =
    if str_eq s "open"
    then open_status
    else if str_eq s "pending"
    then pending_status
    else if str_eq s "resolved"
    then resolved_status
    else if str_eq s "closed"
    then closed_status
    else other_conversation_status s

-- `domain.ConversationHandoffStatus(s)`.
unfoldable pub handoff_status_of : String → HandoffStatus
handoff_status_of s =
    if str_eq s "bot"
    then bot_handoff
    else if str_eq s "agent"
    then agent_handoff
    else if str_eq s "closed"
    then closed_handoff
    else if str_eq s "waiting_customer"
    then waiting_customer_handoff
    else other_handoff s

unfoldable pub channel_filter : Option String → Outcome (Option Channel)
channel_filter none = done none
channel_filter (some s) = elim (validate_channel (channel_of s)) [
  | ok u ↦ done (some (channel_of s))
  | err e ↦ refused e
]

unfoldable pub conversation_filter : Option String → Outcome (Option ConversationStatus)
conversation_filter none = done none
conversation_filter (some s) =
    if is_valid_conversation_status (conversation_status_of s)
    then done (some (conversation_status_of s))
    else invalid "status" "invalid conversation status"

unfoldable pub handoff_filter : Option String → Outcome (Option HandoffStatus)
handoff_filter none = done none
handoff_filter (some s) =
    if is_valid_handoff_status (handoff_status_of s)
    then done (some (handoff_status_of s))
    else invalid "handoff_status" "invalid handoff status"

-- Who assigns nothing needs no permission for it.
abbrev pub is_none {ℓ} : {A : Type ℓ} → Option A → Bool
is_none none = true
is_none (some a) = false

module _ (env : HttpEnv) (req : Request) where
  unfoldable pub id_filter : Option String → Outcome (Option Uuid)
  id_filter none = done none
  id_filter (some s) = elim (env.parse_uuid s) [
    | some id ↦ done (some id)
    | none ↦ invalid "assigned_agent_id" "invalid ID format"
  ]

  -- `ListConversations`.
  unfoldable pub handle_list_conversations : Handling Success
  unfolding page_of
  handle_list_conversations = permitted req conversations_read (λ t. do
    pages ← page_of env req
    channel ← settled (channel_filter (query_filter (req.query "channel")))
    status ← settled (conversation_filter (query_filter (req.query "status")))
    handoff ← settled (handoff_filter (query_filter (req.query "handoff_status")))
    agent ← settled (id_filter (query_filter (req.query "assigned_agent_id")))
    answer ← ask env t (
        list_conversations (record {
          channel = channel;
          status = status;
          handoff_status = handoff;
          assigned_agent_id = agent;
          recipient = query_filter (req.query "recipient");
          tag = query_filter (req.query "tag");
          page = pages.0;
          per_page = pages.1;
        }))
    respond_list answer (pagination_of pages.0 pages.1 answer.total))

  -- `GetConversation`.
  unfoldable pub handle_get_conversation : Handling Success
  handle_get_conversation = by_id env req conversations_read get_conversation service_value

  -- `UpdateConversation`.
  unfoldable pub handle_update_conversation : Handling Success
  handle_update_conversation = permitted req conversations_write (λ t. do
    id ← path_id env req "id" "id"
    body ← decode (env.decode_conversation_update req.body)
    check (is_none body.assigned_agent_id || has_permission req.context conversations_assign)
        (sentinel forbidden)
    check (is_none body.assigned_team || has_permission req.context conversations_assign)
        (sentinel forbidden)
    answer ← ask env t (update_conversation id body)
    respond_ok (service_value answer))

  -- `AddNote`.
  unfoldable pub handle_add_note : Handling Success
  handle_add_note = permitted req conversations_write (λ t. do
    id ← path_id env req "id" "id"
    body ← decode (env.decode_note req.body)
    answer ← ask env t (add_note id (user_id_of req.context) body)
    respond_ok (service_value answer))

  -- `CreateWebhook`.
  unfoldable pub handle_create_webhook : Handling Success
  handle_create_webhook = permitted req webhooks_write (λ t. do
    body ← decode (env.decode_endpoint req.body)
    answer ← ask env t (create_endpoint body)
    respond_created (service_value answer))

  -- `ListWebhooks`.
  unfoldable pub handle_list_webhooks : Handling Success
  unfolding parse_pagination
  handle_list_webhooks = permitted req webhooks_read (λ t. do
    let pages = parse_pagination env req
    answer ← ask env t (list_endpoints pages.0 pages.1)
    respond_list answer (with_total_pages pages.0 pages.1 answer.total))

  -- `GetWebhook`.
  unfoldable pub handle_get_webhook : Handling Success
  handle_get_webhook = by_id env req webhooks_read get_endpoint service_value

  -- `UpdateWebhook`.
  unfoldable pub handle_update_webhook : Handling Success
  handle_update_webhook = permitted req webhooks_write (λ t. do
    id ← path_id env req "id" "id"
    body ← decode (env.decode_endpoint_update req.body)
    answer ← ask env t (update_endpoint id body)
    respond_ok (service_value answer))

  -- `DeleteWebhook`.
  unfoldable pub handle_delete_webhook : Handling Success
  handle_delete_webhook = by_id env req webhooks_write delete_endpoint (λ a. status_word "deleted")

  -- `TestWebhook`.
  unfoldable pub handle_test_webhook : Handling Success
  handle_test_webhook = by_id env req webhooks_test test_endpoint service_value

  abbrev delivery_filter : Option String → Handling (Option Uuid)
  delivery_filter none = pure none
  delivery_filter (some s) = do
    id ← need (env.parse_uuid s) "id" "invalid ID format"
    pure (some id)

  -- `ListDeliveries`.
  unfoldable pub handle_list_deliveries : Handling Success
  unfolding parse_pagination
  handle_list_deliveries = permitted req webhooks_read (λ t. do
    webhook_id ← delivery_filter (query_filter (req.path "id"))
    let pages = parse_pagination env req
    answer ← ask env t (list_deliveries webhook_id pages.0 pages.1)
    respond_list answer (with_total_pages pages.0 pages.1 answer.total))

  -- `ReplayDelivery`.
  unfoldable pub handle_replay_delivery : Handling Success
  handle_replay_delivery = permitted req webhooks_replay (λ t. do
    id ← path_id env req "deliveryID" "delivery_id"
    answer ← ask env t (replay_delivery id)
    respond_ok (service_value answer))
