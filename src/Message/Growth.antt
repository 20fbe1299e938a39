-- ===== src/Message/Growth.antt =====
-- core/services/message_service.go: the later phases of `Send` only add to the history, and a
-- suppressed message never reaches the queue.
use spur_messaging.Prelude.{String, Bool, true, false, arith, Option, ℕ}
use spur_messaging.Domain.Message.{Uuid, Message}
use spur_messaging.Message.Env.{SendRequest, ServiceConfig, MessageEnv}
use spur_messaging.Message.Email.{TextEngine}
use spur_messaging.Message.Send.{
  Stored, row_of, fresh, existing, put_on_queue, create_suppressed, put_if_fresh, priority_of,
  compose, unless_unsubscribed, unless_suppressed, deliver, screen,
}
use spur_messaging.Message.Rules.{
  IsQuiet, Keeps, bind-Keeps, bind-IsQuiet, pure-Keeps, pure-IsQuiet,
}
use spur_messaging.Message.Trace.{
  build_suppressed-IsQuiet, store-IsQuiet, check_suppressed-Keeps, check_unsubscribed-Keeps,
  check_whatsapp-Keeps, prepare-Keeps, build-Keeps, build_suppressed-Keeps, store-Keeps,
}

module _ (engine : TextEngine) (env : MessageEnv) (cfg : ServiceConfig) (tenant_id : Uuid) where
  pub create_suppressed-IsQuiet :
      (req : SendRequest) (code : String)
      → IsQuiet (create_suppressed engine env cfg tenant_id req code)
  unfolding create_suppressed
  create_suppressed-IsQuiet req code =
      bind-IsQuiet (build_suppressed-IsQuiet engine env cfg tenant_id req code) λ m.
        bind-IsQuiet (store-IsQuiet engine env cfg tenant_id req.idempotency_key m)
          λ stored. pure-IsQuiet (row_of stored)

  pub create_suppressed-Keeps :
      (req : SendRequest) (code : String)
      → Keeps (create_suppressed engine env cfg tenant_id req code)
  unfolding create_suppressed
  create_suppressed-Keeps req code =
      bind-Keeps (build_suppressed-Keeps engine env cfg tenant_id req code) λ m.
        bind-Keeps (store-Keeps engine env cfg tenant_id req.idempotency_key m)
          λ stored. pure-Keeps (row_of stored)

  pub put_on_queue-Keeps :
      (req : SendRequest) (n : ℕ) (row : Message)
      → Keeps (put_on_queue engine env cfg tenant_id req n row)
  unfolding put_on_queue
  put_on_queue-Keeps req n row = record { keep = λ P h a. ground arith }

  pub put_if_fresh-Keeps :
      (req : SendRequest) (n : ℕ) (stored : Stored)
      → Keeps (put_if_fresh engine env cfg tenant_id req n stored)
  put_if_fresh-Keeps req n (existing row) = record { keep = λ P h w. w }
  put_if_fresh-Keeps req n (fresh row) = put_on_queue-Keeps req n row

  pub compose-Keeps :
      (req : SendRequest) (c : Option Uuid) → Keeps (compose engine env cfg tenant_id req c)
  compose-Keeps req c = bind-Keeps (prepare-Keeps engine env cfg tenant_id req) λ p.
      bind-Keeps (build-Keeps engine env cfg tenant_id p c) λ m.
        bind-Keeps (store-Keeps engine env cfg tenant_id req.idempotency_key m)
          λ s. put_if_fresh-Keeps p (priority_of engine env cfg tenant_id m) s

  pub deliver-Keeps : (req : SendRequest) → Keeps (deliver engine env cfg tenant_id req)
  unfolding deliver
  deliver-Keeps req = bind-Keeps (check_whatsapp-Keeps env cfg tenant_id req) (compose-Keeps req)

  pub unless_unsubscribed-Keeps :
      (req : SendRequest) (b : Bool) → Keeps (unless_unsubscribed engine env cfg tenant_id req b)
  unless_unsubscribed-Keeps req true = create_suppressed-Keeps req _
  unless_unsubscribed-Keeps req false = deliver-Keeps req

  pub unless_suppressed-Keeps :
      (req : SendRequest) (b : Bool) → Keeps (unless_suppressed engine env cfg tenant_id req b)
  unless_suppressed-Keeps req true = create_suppressed-Keeps req _
  unless_suppressed-Keeps req false =
      bind-Keeps (check_unsubscribed-Keeps env cfg tenant_id req) (unless_unsubscribed-Keeps req)

  pub screen-Keeps : (req : SendRequest) → Keeps (screen engine env cfg tenant_id req)
  unfolding screen
  screen-Keeps req =
      bind-Keeps (check_suppressed-Keeps env cfg tenant_id req) (unless_suppressed-Keeps req)
