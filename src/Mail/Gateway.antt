-- ===== src/Mail/Gateway.antt =====
-- core/services/email_sender.go and core/services/messaging_gateway.go: what their calls of `Send` do.
use spur_messaging.Prelude.{
  String, Bool, true, false, ◌≡◌, refl, sym, ap, ◌∙◌, ◌⊎◌, inl, inr, List, ◌∷◌, arith, Metadata,
  get_key, get_key-set_key, is_empty, str_eq, if◌then◌else◌, Bool-cases,
}
use spur_messaging.Domain.Message.{
  Uuid, Time, Channel, MessageStatus, MessageType, text, other_type, Message, failed, suppressed,
}
use spur_messaging.Domain.Errors.{GoError}
use spur_messaging.Calls.{Result, ok, err, Op, pure, ◌>>=◌, bind_cases}
use spur_messaging.Message.Env.{ServiceConfig, MessageCall, MessageEnv, History, QueueMessage}
use spur_messaging.Message.Email.{TextEngine}
use spur_messaging.Message.Send.{send}
use spur_messaging.Message.Rules.{queue_of}
use spur_messaging.Message.Cleared.{Target, IsCleared, target_of}
use spur_messaging.Message.Safety.{send-IsCleared}
use spur_messaging.Mail.Requests.{
  TransactionalEmailRequest, TemplateEmailRequest, MessagingRequest, transactional_request,
  template_request, gateway_request, gateway_metadata, set_filled, type_or_text,
}

-- ports.MessagingReceipt.
pub record MessagingReceipt : Type 0 where
  pub message_id : Uuid
  pub tenant_id : Uuid
  pub channel : Channel
  pub status : MessageStatus
  pub accepted : Bool
  pub idempotency_key : String
  pub correlation_id : String
  pub provider_message_id : String
  pub created_at : Time

abbrev is_accepted : MessageStatus → Bool
is_accepted failed = false
is_accepted suppressed = false
is_accepted s = true

abbrev receipt_of : MessagingRequest → Message → MessagingReceipt
receipt_of req msg = record {
  message_id = msg.id;
  tenant_id = msg.tenant_id;
  channel = msg.channel;
  status = msg.status;
  accepted = is_accepted msg.status;
  idempotency_key = req.idempotency_key;
  correlation_id = req.correlation_id;
  provider_message_id = msg.provider_message_id;
  created_at = msg.created_at;
}

err-ok : {e : GoError} {m : Message} → err e ≡ ok m → ⊥
err-ok p = ground arith

abbrev id_in : Message → Result Message → Uuid
id_in d (ok m) = m.id
id_in d (err e) = d.id

-- The metadata holds the submission's own value under the key, or else what its metadata held there.
abbrev pub Carries : Metadata → Metadata → String → String → Type 0
Carries m old key value = get_key key m ≡ (if is_empty value then get_key key old else value)

-- The type that was given, or text where it is empty.
abbrev pub IsType : MessageType → MessageType → Type 0
IsType (other_type s) t = t ≡ (if is_empty s then text else other_type s)
IsType given t = t ≡ given

type_or_text-IsType : (t : MessageType) → IsType t (type_or_text t)
type_or_text-IsType (other_type s) = refl
type_or_text-IsType t = ground arith

-- What is sent is what was submitted.
pub record IsSubmitted (req : MessagingRequest) (to : Target) : Type 0 where
  pub channel : to.channel ≡ req.channel
  pub recipient : to.recipient ≡ req.recipient
  pub message_type : IsType req.message_type to.message_type
  pub category : Carries to.metadata req.metadata "category" req.category
  pub subject : Carries to.metadata req.metadata "subject" req.subject
  pub html_body : Carries to.metadata req.metadata "html_body" req.html_body
  pub text_body : Carries to.metadata req.metadata "text_body" req.text_body
  pub correlation_id : Carries to.metadata req.metadata "correlation_id" req.correlation_id
  pub callback_ref : Carries to.metadata req.metadata "callback_ref" req.callback_ref
  pub priority : Carries to.metadata req.metadata "priority" req.priority

get_key-set_filled :
    (k j v : String) (m : Metadata)
    → get_key j (set_filled k v m)
      ≡ (if str_eq k j then (if is_empty v then get_key j m else v) else get_key j m)
get_key-set_filled k j v m = elim (Bool-cases (is_empty v)) [
  | inl blank ↦ rw blank (ground arith)
  | inr there ↦ rw there (get_key-set_key k j v m)
]

gateway_request-IsSubmitted :
    (req : MessagingRequest) → IsSubmitted req (target_of (gateway_request req))
unfolding gateway_request gateway_metadata
gateway_request-IsSubmitted req = record {
  channel = refl;
  recipient = refl;
  message_type = type_or_text-IsType req.message_type;
  category = simp get_key-set_filled;
  subject = simp get_key-set_filled;
  html_body = simp get_key-set_filled;
  text_body = simp get_key-set_filled;
  correlation_id = simp get_key-set_filled;
  callback_ref = simp get_key-set_filled;
  priority = simp get_key-set_filled;
}

-- The receipt answers the submission and names the one message that the queue got.
pub record IsReceipted (tenant_id : Uuid) (req : MessagingRequest) (base : List QueueMessage)
    (out : Result MessagingReceipt × History) : Type 0 where
  pub entry : QueueMessage
  pub receipt : MessagingReceipt
  pub on_queue : queue_of out.1 ≡ entry ∷ base
  pub answered : out.0 ≡ ok receipt
  pub names : entry.message_id ≡ receipt.message_id
  pub is_own : entry.tenant_id ≡ tenant_id
  pub by_channel : entry.channel ≡ req.channel
  pub correlates : receipt.correlation_id ≡ req.correlation_id
  pub has_key : receipt.idempotency_key ≡ req.idempotency_key

module _ (engine : TextEngine) (env : MessageEnv) (cfg : ServiceConfig) (tenant_id : Uuid) where
  -- `SendTransactional`.
  unfoldable pub send_transactional : TransactionalEmailRequest → Op MessageCall Message
  unfolding transactional_request
  send_transactional req = send engine env cfg tenant_id (transactional_request req)

  -- `SendWithTemplate`.
  unfoldable pub send_with_template : TemplateEmailRequest → Op MessageCall Message
  unfolding template_request
  send_with_template req = send engine env cfg tenant_id (template_request req)

  abbrev answer_with : MessagingRequest → Message → Op MessageCall MessagingReceipt
  answer_with req msg = pure (receipt_of req msg)

  -- `Submit`.
  unfoldable pub submit : MessagingRequest → Op MessageCall MessagingReceipt
  unfolding gateway_request
  submit req = send engine env cfg tenant_id (gateway_request req) >>= answer_with req

  abbrev Submitted : MessagingRequest → History → Result MessagingReceipt × History → Type 0
  Submitted req h out =
      (queue_of out.1 ≡ queue_of h)
      ⊎ (IsReceipted tenant_id req (queue_of h) out
          × ((to : Target) × IsSubmitted req to × IsCleared cfg tenant_id to out.1))

  -- A run of `Submit` either puts nothing on the queue, or puts one message of the tenant there, on the
  -- submission's channel, and answers with a receipt that names this message and has the submission's
  -- key and correlation. It has then been cleared as `Send` clears a message on that channel to that
  -- recipient whose type and category, and so the subject, the bodies, the references and the priority, is the
  -- submission's own, or where that is empty the one of the submission's metadata.
  pub submit-IsReceipted : (req : MessagingRequest) (h : History) → Submitted req h (submit req h)
  unfolding submit gateway_request
  submit-IsReceipted req h =
      let m = send engine env cfg tenant_id (gateway_request req) in
      elim (send-IsCleared engine env cfg tenant_id (gateway_request req) h) [
        | inl same ↦
            bind_cases m (answer_with req) h (Submitted req h) (λ e p. inl same) (λ a p. inl same)
        | inr (sent, cleared) ↦
            bind_cases m (answer_with req) h (Submitted req h)
              (λ e p. absurd (err-ok (sym p ∙ sent.answered)))
              (λ a p. inr (
                record {
                  entry = sent.entry;
                  receipt = receipt_of req a;
                  on_queue = sent.on_queue;
                  answered = refl;
                  is_own = sent.entry_tenant;
                  by_channel = sent.entry_channel;
                  correlates = refl;
                  has_key = refl;
                  names = sent.names_row ∙ ap (id_in sent.row) (sym sent.answered ∙ p);
                },
                (target_of (gateway_request req), gateway_request-IsSubmitted req, cleared),
              ))
      ]
