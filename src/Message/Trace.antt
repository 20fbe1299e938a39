-- ===== src/Message/Trace.antt =====
-- What a run of `MessageService` leaves in its history, and the phases of `Send` that put nothing
-- on the queue.
use spur_messaging.Prelude.{
  String, false, ◌≡◌, arith, Any, Option, none, some, is_empty, if◌then◌else◌,
}
use spur_messaging.Domain.Message.{suppressed, Uuid, Message, Channel, queued}
use spur_messaging.Domain.Contact.{Contact}
use spur_messaging.Calls.{ok}
use spur_messaging.Message.Env.{SendRequest, ServiceConfig, MessageEnv, History, created, asked_key}
use spur_messaging.Message.Email.{TextEngine}
use spur_messaging.Message.Checks.{
  find_provider, find_contact, check_opt_in, check_suppressed, check_unsubscribed, check_whatsapp,
}
use spur_messaging.Message.Build.{prepare, build, build_suppressed}
use spur_messaging.Message.Rules.{IsQuiet, Keeps}
use spur_messaging.Message.Send.{fresh, existing, store}

module _ (env : MessageEnv) (cfg : ServiceConfig) (tenant_id : Uuid) where
  pub find_provider-IsQuiet :
      (channel : Channel) → IsQuiet (find_provider env cfg tenant_id channel)
  unfolding find_provider
  find_provider-IsQuiet channel = record { quiet = λ h. ground arith }

  pub find_provider-Keeps : (channel : Channel) → Keeps (find_provider env cfg tenant_id channel)
  unfolding find_provider
  find_provider-Keeps channel = record { keep = λ P h a. ground arith }

  pub find_contact-IsQuiet : (req : SendRequest) → IsQuiet (find_contact env cfg tenant_id req)
  unfolding find_contact
  find_contact-IsQuiet req = record { quiet = λ h. ground arith }

  pub find_contact-Keeps : (req : SendRequest) → Keeps (find_contact env cfg tenant_id req)
  unfolding find_contact
  find_contact-Keeps req = record { keep = λ P h a. ground arith }

  pub check_opt_in-IsQuiet :
      (req : SendRequest) (c : Option Contact) → IsQuiet (check_opt_in env cfg tenant_id req c)
  unfolding check_opt_in
  check_opt_in-IsQuiet req c = record { quiet = λ h. ground arith }

  pub check_opt_in-Keeps :
      (req : SendRequest) (c : Option Contact) → Keeps (check_opt_in env cfg tenant_id req c)
  unfolding check_opt_in
  check_opt_in-Keeps req c = record { keep = λ P h a. ground arith }

  pub check_suppressed-IsQuiet :
      (req : SendRequest) → IsQuiet (check_suppressed env cfg tenant_id req)
  unfolding check_suppressed
  check_suppressed-IsQuiet req = record { quiet = λ h. ground arith }

  pub check_suppressed-Keeps : (req : SendRequest) → Keeps (check_suppressed env cfg tenant_id req)
  unfolding check_suppressed
  check_suppressed-Keeps req = record { keep = λ P h a. ground arith }

  pub check_unsubscribed-IsQuiet :
      (req : SendRequest) → IsQuiet (check_unsubscribed env cfg tenant_id req)
  unfolding check_unsubscribed
  check_unsubscribed-IsQuiet req = record { quiet = λ h. ground arith }

  pub check_unsubscribed-Keeps :
      (req : SendRequest) → Keeps (check_unsubscribed env cfg tenant_id req)
  unfolding check_unsubscribed
  check_unsubscribed-Keeps req = record { keep = λ P h a. ground arith }

  pub check_whatsapp-IsQuiet : (req : SendRequest) → IsQuiet (check_whatsapp env cfg tenant_id req)
  unfolding check_whatsapp
  check_whatsapp-IsQuiet req = record { quiet = λ h. ground arith }

  pub check_whatsapp-Keeps : (req : SendRequest) → Keeps (check_whatsapp env cfg tenant_id req)
  unfolding check_whatsapp
  check_whatsapp-Keeps req = record { keep = λ P h a. ground arith }

module _ (engine : TextEngine) (env : MessageEnv) (cfg : ServiceConfig) (tenant_id : Uuid) where
  pub prepare-IsQuiet : (req : SendRequest) → IsQuiet (prepare engine env cfg tenant_id req)
  unfolding prepare
  prepare-IsQuiet req = record { quiet = λ h. ground arith }

  pub prepare-Keeps : (req : SendRequest) → Keeps (prepare engine env cfg tenant_id req)
  unfolding prepare
  prepare-Keeps req = record { keep = λ P h a. ground arith }

  pub build-IsQuiet :
      (req : SendRequest) (c : Option Uuid) → IsQuiet (build engine env cfg tenant_id req c)
  unfolding build
  build-IsQuiet req c = record { quiet = λ h. ground arith }

  pub build-Keeps :
      (req : SendRequest) (c : Option Uuid) → Keeps (build engine env cfg tenant_id req c)
  unfolding build
  build-Keeps req c = record { keep = λ P h a. ground arith }

  pub build_suppressed-IsQuiet :
      (req : SendRequest) (code : String)
      → IsQuiet (build_suppressed engine env cfg tenant_id req code)
  unfolding build_suppressed
  build_suppressed-IsQuiet req code = record { quiet = λ h. ground arith }

  pub build_suppressed-Keeps :
      (req : SendRequest) (code : String)
      → Keeps (build_suppressed engine env cfg tenant_id req code)
  unfolding build_suppressed
  build_suppressed-Keeps req code = record { keep = λ P h a. ground arith }

  pub store-IsQuiet : (key : String) (m : Message) → IsQuiet (store engine env cfg tenant_id key m)
  unfolding store
  store-IsQuiet key m = record { quiet = λ h. ground arith }

  pub store-Keeps : (key : String) (m : Message) → Keeps (store engine env cfg tenant_id key m)
  unfolding store
  store-Keeps key m = record { keep = λ P h a. ground arith }

  -- The row that `Create` came to was stored just now, or found under the key.
  pub store_lem :
      (key : String) (m : Message) (h : History) {row : Message}
      → let (r, h') = store engine env cfg tenant_id key m h in
        ((r ≡ ok (fresh row)) → Any (λ c. c ≡ created m (ok row)) h')
        × ((r ≡ ok (existing row))
            → (is_empty key ≡ false) × Any (λ c. c ≡ asked_key tenant_id key (ok row)) h')
  unfolding store
  store_lem key m h = (λ e. ground arith, λ e. ground arith)

  -- What the rest of `Send` reads of a prepared request.
  pub prepare_lem :
      (req : SendRequest) (h : History) {p : SendRequest}
      → (prepare engine env cfg tenant_id req h).0 ≡ ok p
      → (p.channel ≡ req.channel)
        × (p.recipient ≡ req.recipient)
        × (p.idempotency_key ≡ req.idempotency_key)
  unfolding prepare
  prepare_lem req h e = ground arith

  pub build_lem :
      (req : SendRequest) (c : Option Uuid) (h : History) {m : Message}
      → (build engine env cfg tenant_id req c h).0 ≡ ok m
      → (m.status ≡ queued)
        × (m.tenant_id ≡ tenant_id)
        × (m.channel ≡ req.channel)
        × (m.recipient ≡ req.recipient)
        × (m.idempotency_key
            ≡ (if is_empty req.idempotency_key then none else some req.idempotency_key))
  unfolding build
  build_lem req c h e = ground arith

  pub build_suppressed_lem :
      (req : SendRequest) (code : String) (h : History) {m : Message}
      → (build_suppressed engine env cfg tenant_id req code h).0 ≡ ok m
      → (m.tenant_id ≡ tenant_id)
        × (m.idempotency_key
            ≡ (if is_empty req.idempotency_key then none else some req.idempotency_key))
        × (m.status ≡ suppressed)
        × (m.error_code ≡ some code)
        × (m.recipient ≡ req.recipient)
  unfolding build_suppressed
  build_suppressed_lem req code h e = ground arith
