-- ===== src/Message/Idempotency/Held.antt =====
-- core/services/message_service.go: rows that are on record for an idempotency key.
use spur_messaging.Prelude.{String, ◌≡◌, ◌⊎◌, inl, inr, Any, some, ℕ, arith}
use spur_messaging.Domain.Message.{Uuid, Message}
use spur_messaging.Calls.{ok, Op, ◌>>=◌, bind_cases}
use spur_messaging.Message.Env.{
  SendRequest, ServiceConfig, MessageCall, MessageEnv, History, created, asked_key,
}
use spur_messaging.Message.Email.{TextEngine}
use spur_messaging.Message.Send.{Stored, fresh, existing, row_of, store, put_on_queue, put_if_fresh}
use spur_messaging.Message.Trace.{store_lem}
use spur_messaging.Message.Growth.{put_on_queue-Keeps}

-- The row is on record for the tenant's key: it was found under the key, or stored with it.
abbrev pub IsHeld : Uuid → String → Message → History → Type 0
IsHeld t key row h =
    Any (λ c. c ≡ asked_key t key (ok row)) h
    ⊎ ((m : Message) × Any (λ c. c ≡ created m (ok row)) h
        × (m.tenant_id ≡ t)
        × (m.idempotency_key ≡ some key))

-- The messages table at a later time, given what was done before: a row that was stored under the
-- key, or found under it, is what the key finds, as its unique index on tenant and key promises.
pub record FindsHeld (env : MessageEnv) (t : Uuid) (key : String) (before later : History)
    : Type 0 where
  pub finds_held :
      (row : Message) → IsHeld t key row before → env.get_by_idempotency_key later t key ≡ ok row

-- A row that the run answers with is on record.
pub record Answers (t : Uuid) (key : String) (m : Op MessageCall Message) (h : History)
    : Type 0 where
  pub answers : (row : Message) → (m h).0 ≡ ok row → IsHeld t key row (m h).1

module _ {t : Uuid} {key : String} {A : Type 0} (m : Op MessageCall A)
    (f : A → Op MessageCall Message) {h : History} where
  pub bind-Answers :
      ((a : A) → (m h).0 ≡ ok a → Answers t key (f a) (m h).1) → Answers t key (m >>= f) h
  bind-Answers k = record {
    answers = λ row.
        bind_cases m f h (λ out. out.0 ≡ ok row → IsHeld t key row out.1) (λ e p q. absurd (cc q))
          (λ a p. (k a p).answers row);
  }

module _ (engine : TextEngine) (env : MessageEnv) (cfg : ServiceConfig) (tenant_id : Uuid) where
  pub store-IsHeld :
      (key : String) (m : Message) (h : History) (s : Stored)
      → m.tenant_id ≡ tenant_id
      → m.idempotency_key ≡ some key
      → (store engine env cfg tenant_id key m h).0 ≡ ok s
      → IsHeld tenant_id key (row_of s) (store engine env cfg tenant_id key m h).1
  store-IsHeld key m h (fresh row) et ek e =
      inr (m, (store_lem engine env cfg tenant_id key m h).0 e, et, ek)
  store-IsHeld key m h (existing row) et ek e =
      inl ((store_lem engine env cfg tenant_id key m h).1 e).1

  pub put_if_fresh-row :
      (p : SendRequest) (n : ℕ) (s : Stored) (h : History) (row : Message)
      → (put_if_fresh engine env cfg tenant_id p n s h).0 ≡ ok row
      → row_of s ≡ row
  unfolding put_on_queue
  put_if_fresh-row p n (existing r) h row e = cc
  put_if_fresh-row p n (fresh r) h row e = ground arith

  pub put_if_fresh-IsHeld :
      (p : SendRequest) (n : ℕ) (s : Stored) (key : String) (row : Message) (h : History)
      → IsHeld tenant_id key row h
      → IsHeld tenant_id key row (put_if_fresh engine env cfg tenant_id p n s h).1
  put_if_fresh-IsHeld p n (existing r) key row h w = w
  put_if_fresh-IsHeld p n (fresh r) key row h (inl w) =
      inl ((put_on_queue-Keeps engine env cfg tenant_id p n r).keep _ h w)
  put_if_fresh-IsHeld p n (fresh r) key row h (inr (m, w, et, ek)) =
      inr (m, (put_on_queue-Keeps engine env cfg tenant_id p n r).keep _ h w, et, ek)
