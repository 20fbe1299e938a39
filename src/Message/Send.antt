-- ===== src/Message/Send.antt =====
-- core/services/message_service.go: `Send`, `SendBulk`, `Retry` and `createSuppressedMessage`.
use spur_messaging.Prelude.{
  String, Bool, true, false, not, ◌&&◌, Option, List, [], ◌∷◌, is_empty, trim_space, get_key,
  str_eq, if◌then◌else◌, ℕ,
}
use spur_messaging.Domain.Errors.{
  sentinel, other, not_found, already_exists, queue_unavailable, is_error,
}
use spur_messaging.Domain.Message.{Uuid, Message, MessageStatus, queued, failed}
use spur_messaging.Domain.Contact.{Contact}
use spur_messaging.Calls.{Result, ok, err, Op, pure, fail, ◌>>=◌, ◌>>◌, call, attempt, guard}
use spur_messaging.Message.Env.{
  SendRequest, SenderConfig, ServiceConfig, MessageCall, MessageEnv, QueueMessage, asked_key,
  asked_message, created, enqueued,
}
use spur_messaging.Message.Email.{TextEngine}
use spur_messaging.Message.Checks.{
  resolve_request, find_provider, find_contact, check_opt_in, check_suppressed, check_unsubscribed,
  check_whatsapp,
}
use spur_messaging.Message.Build.{prepare, build, build_suppressed}

-- What `Create` came to: a new row, or the row that another request stored under the same key.
pub data Stored : Type 0 where
  fresh existing : Message → Stored

abbrev pub row_of : Stored → Message
row_of (fresh row) = row
row_of (existing row) = row

abbrev pub is_failed : MessageStatus → Bool
is_failed failed = true
is_failed _ = false

module _ (engine : TextEngine) (env : MessageEnv) (cfg : ServiceConfig) (tenant_id : Uuid) where
  unfoldable pub find_key : String → Op MessageCall Message
  find_key key = call (λ h. env.get_by_idempotency_key h tenant_id key) (asked_key tenant_id key)

  -- `Create`, and where the key is taken the row that has it.
  unfoldable pub store : String → Message → Op MessageCall Stored
  unfolding find_key
  store key msg = do
    outcome ← attempt (call (λ h. env.create h msg) (created msg))
    elim outcome [
      | ok row ↦ pure (fresh row)
      | err e ↦
          if not (is_empty key) && is_error e already_exists
          then find_key key >>= (λ row. pure (existing row))
          else fail e
    ]

  -- Step 7; any failure of the queue is reported as a queue that is unavailable.
  unfoldable pub put_on_queue : SendRequest → ℕ → Message → Op MessageCall Message
  put_on_queue req priority row = do
    let q : QueueMessage = record {
      message_id = row.id;
      tenant_id = tenant_id;
      channel = req.channel;
      priority = priority;
    }
    outcome ← attempt (call (λ h. env.enqueue h q) (enqueued q))
    elim outcome [ ok u ↦ pure row | err e ↦ fail (sentinel queue_unavailable) ]

  abbrev pub store_row : SendRequest → Message → Op MessageCall Message
  store_row req msg = do stored ← store req.idempotency_key msg; pure (row_of stored)

  -- `createSuppressedMessage`.
  unfoldable pub create_suppressed : SendRequest → String → Op MessageCall Message
  create_suppressed req code = do
    msg ← build_suppressed engine env cfg tenant_id req code
    store_row req msg

  -- A row that is new goes on the queue; one that another request stored is there already.
  abbrev pub put_if_fresh : SendRequest → ℕ → Stored → Op MessageCall Message
  put_if_fresh req priority (existing row) = pure row
  put_if_fresh req priority (fresh row) = put_on_queue req priority row

  abbrev pub priority_of : Message → ℕ
  priority_of msg = if str_eq (get_key "priority" msg.metadata) "high" then 1 else 0

  abbrev pub keep_message : SendRequest → SendRequest → Message → Op MessageCall Message
  keep_message req prepared msg = do
    stored ← store req.idempotency_key msg
    put_if_fresh prepared (priority_of msg) stored

  abbrev pub build_message : SendRequest → Option Uuid → SendRequest → Op MessageCall Message
  build_message req conversation prepared = do
    msg ← build engine env cfg tenant_id prepared conversation
    keep_message req prepared msg

  abbrev pub compose : SendRequest → Option Uuid → Op MessageCall Message
  compose req conversation = do
    prepared ← prepare engine env cfg tenant_id req
    build_message req conversation prepared

  -- The end of `Send`, once nothing stands against the message.
  unfoldable pub deliver : SendRequest → Op MessageCall Message
  deliver req = do conversation ← check_whatsapp env cfg tenant_id req; compose req conversation

  abbrev pub unless_unsubscribed : SendRequest → Bool → Op MessageCall Message
  unless_unsubscribed req true = create_suppressed req "UNSUBSCRIBED"
  unless_unsubscribed req false = deliver req

  abbrev pub unless_suppressed : SendRequest → Bool → Op MessageCall Message
  unless_suppressed req true = create_suppressed req "SUPPRESSED"
  unless_suppressed req false = do
    unsubscribed ← check_unsubscribed env cfg tenant_id req
    unless_unsubscribed req unsubscribed

  -- The lists that keep a message from being sent.
  unfoldable pub screen : SendRequest → Op MessageCall Message
  screen req = do
    suppressed ← check_suppressed env cfg tenant_id req
    unless_suppressed req suppressed

  abbrev pub admit : SendRequest → Option Contact → Op MessageCall Message
  admit req contact = do check_opt_in env cfg tenant_id req contact; screen req

  abbrev pub send_resolved : SendRequest → Op MessageCall Message
  send_resolved req = do contact ← find_contact env cfg tenant_id req; admit req contact

  abbrev pub send_with : SendRequest → SenderConfig → Op MessageCall Message
  send_with req sender = send_resolved (resolve_request cfg sender req)

  -- A request whose key is not known yet.
  unfoldable pub send_new : SendRequest → Op MessageCall Message
  send_new req = do sender ← find_provider env cfg tenant_id req.channel; send_with req sender

  abbrev pub unless_known : SendRequest → Result Message → Op MessageCall Message
  unless_known req (ok row) = pure row
  unless_known req (err e) = if is_error e not_found then send_new req else fail e

  -- A request with its key trimmed: the row that has the key is the answer.
  abbrev pub send_keyed : SendRequest → Bool → Op MessageCall Message
  send_keyed req true = send_new req
  send_keyed req false = do found ← attempt (find_key req.idempotency_key); unless_known req found

  -- `Send`.
  unfoldable pub send : SendRequest → Op MessageCall Message
  unfolding find_key
  send raw =
      let key = trim_space raw.idempotency_key in
      send_keyed (record raw { idempotency_key = key }) (is_empty key)

  -- `SendBulk`: it stops at the first request that fails.
  unfoldable pub send_bulk : List SendRequest → Op MessageCall (List Message)
  send_bulk [] = pure []
  send_bulk (req ∷ reqs) = do msg ← send req; msgs ← send_bulk reqs; pure (msg ∷ msgs)

  -- `Retry`: the status is changed in the answer alone.
  unfoldable pub retry : Uuid → Op MessageCall Message
  retry id = do
    msg ← call (λ h. env.get_by_id h tenant_id id) (asked_message tenant_id id)
    guard (is_failed msg.status) (other "only failed messages can be retried")
    let q : QueueMessage = record {
      message_id = msg.id;
      tenant_id = tenant_id;
      channel = msg.channel;
      priority = 0;
    }
    call (λ h. env.enqueue h q) (enqueued q)
    pure (record msg { status = queued })
