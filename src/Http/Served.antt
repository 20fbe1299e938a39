-- ===== src/Http/Served.antt =====
-- adapters/http over core/services/message_service.go: what a request makes `MessageService` queue.
use spur_messaging.Prelude.{Bool, false, true, Option, some, List, [], ◌∷◌}
use spur_messaging.Domain.Message.{Uuid, Message}
use spur_messaging.Calls.{Result, Op, ◌>>=◌, pure}
use spur_messaging.Message.Env.{ServiceConfig, MessageCall, MessageEnv, History}
use spur_messaging.Message.Email.{TextEngine}
use spur_messaging.Message.Send.{send, send_bulk}
use spur_messaging.Identity.Context.{Context}
use spur_messaging.Http.Env.{
  Operation, Answer, HttpHistory, HttpEnv, asked, send_message, send_bulk_messages,
  execute_campaign,
}
use spur_messaging.Http.Routes.{Endpoint}

-- The services behind the handlers that put messages on the queue: the message service with its
-- environment, its configuration, its history before the request, and the JSON of what it answers
-- with; and the campaign service's `Execute`, which is any operation at all on the same history.
pub record Backend : Type 0 where
  pub engine : TextEngine
  pub messages : MessageEnv
  pub config : ServiceConfig
  pub before : History
  pub show : Message → Answer
  pub show_all : List Message → Answer
  pub execute : Uuid → Uuid → Op MessageCall Answer

-- The operation executes no campaign.
abbrev IsNoExecution : Operation → Type 0
IsNoExecution (execute_campaign id) = ⊥
IsNoExecution op = Unit

abbrev ExecutesNone : HttpHistory → Type 0
ExecutesNone [] = Unit
ExecutesNone (asked t op r ∷ h) = IsNoExecution op × ExecutesNone h
ExecutesNone (c ∷ h) = ExecutesNone h

abbrev pub executes : Endpoint → Bool
executes Endpoint.execute_campaign = true
executes e = false

module _ (b : Backend) where
  -- The run of an operation, where it is `Send`, `SendBulk` or `Execute`; the others queue nothing.
  abbrev pub perform : Uuid → Operation → Option (Op MessageCall Answer)
  perform t (send_message r) = some (send b.engine b.messages b.config t r >>= λ m. pure (b.show m))
  perform t (send_bulk_messages rs) =
      some (send_bulk b.engine b.messages b.config t rs >>= λ ms. pure (b.show_all ms))
  perform t (execute_campaign id) = some (b.execute t id)
  perform t op = Option.none

  abbrev run_on : Option (Op MessageCall Answer) → History → History
  run_on Option.none h = h
  run_on (some m) h = (m h).1

  -- The service's history after the calls of a request.
  abbrev pub messages_after : HttpHistory → History
  messages_after [] = b.before
  messages_after (asked t op r ∷ h) = run_on (perform t op) (messages_after h)
  messages_after (c ∷ h) = messages_after h

  abbrev answer_of : Option (Op MessageCall Answer) → History → Result Answer → Result Answer
  answer_of Option.none h other = other
  answer_of (some m) h other = (m h).0

  -- The handlers' environment, with the service's own answers.
  abbrev pub over : HttpEnv → HttpEnv
  over env = record env {
    serve = λ h t op. answer_of (perform t op) (messages_after h) (env.serve h t op);
  }
