-- ===== src/Message/Bulk.antt =====
-- core/services/message_service.go: what a sequence of `Send` calls, such as `SendBulk`, may queue.
use spur_messaging.Prelude.{
  ◌≡◌, true, false, inl, inr, String, Bool, List, [], ◌∷◌, Any, is_empty, trim_space, Bool-cases,
}
use spur_messaging.Domain.Errors.{is_error, not_found}
use spur_messaging.Domain.Message.{Uuid, Message, queued}
use spur_messaging.Calls.{Result, ok, err, Op, ◌>>=◌, pure, attempt, bind_cases}
use spur_messaging.Message.Env.{
  SendRequest, SenderConfig, ServiceConfig, MessageCall, MessageEnv, QueueMessage, History, created,
}
use spur_messaging.Message.Email.{TextEngine}
use spur_messaging.Message.Send.{
  find_key, send_with, send_new, unless_known, send_keyed, send, send_bulk,
}
use spur_messaging.Message.Rules.{queue_of, Keeps, bind-Keeps, pure-Keeps}
use spur_messaging.Message.Trace.{find_provider-Keeps, find_contact-Keeps, check_opt_in-Keeps}
use spur_messaging.Message.Growth.{screen-Keeps}
use spur_messaging.Message.Cleared.{Target, target_of, IsCleared}
use spur_messaging.Message.Safety.{send-IsCleared}

-- The entry is the tenant's and names the row, which was to be stored for the tenant as queued.
pub record IsFor (t : Uuid) (to : Target) (q : QueueMessage) (message row : Message) : Type 0 where
  pub names_row : q.message_id ≡ row.id
  pub entry_tenant : q.tenant_id ≡ t
  pub entry_channel : q.channel ≡ to.channel
  pub is_queued : message.status ≡ queued
  pub message_tenant : message.tenant_id ≡ t
  pub message_recipient : message.recipient ≡ to.recipient

-- The entry's row was stored, and what stands between its recipient and the queue was cleared.
pub record IsBacked (cfg : ServiceConfig) (t : Uuid) (to : Target) (q : QueueMessage) (h : History)
    : Type 0 where
  pub message : Message
  pub row : Message
  pub entry : IsFor t to q message row
  pub stored : Any (λ c. c ≡ created message (ok row)) h
  pub cleared : IsCleared cfg t to h

-- The queue is the old one with entries on top that are all backed by the history.
pub data Adds (cfg : ServiceConfig) (t : Uuid) (h : History) (base : List QueueMessage)
    : List QueueMessage → Type 0 where
  same : Adds cfg t h base base
  more :
      {qs : List QueueMessage} (q : QueueMessage) (to : Target)
      → IsBacked cfg t to q h
      → Adds cfg t h base qs
      → Adds cfg t h base (q ∷ qs)

module _ {cfg : ServiceConfig} {t : Uuid} where
  Adds-trans :
      {h : History} {xs ys zs : List QueueMessage}
      → Adds cfg t h xs ys
      → Adds cfg t h ys zs
      → Adds cfg t h xs zs
  Adds-trans a same = a
  Adds-trans a (more q to b rest) = more q to b (Adds-trans a rest)

  module _ {A : Type 0} {m : Op MessageCall A} (k : Keeps m) (h : History) where
    IsCleared-after : (to : Target) → IsCleared cfg t to h → IsCleared cfg t to (m h).1
    IsCleared-after to c = record {
      consent = λ g. k.keep _ h (c.consent g);
      unsuppressed = λ g. k.keep _ h (c.unsuppressed g);
      subscribed = λ g. k.keep _ h (c.subscribed g);
      template_approved = λ g. k.keep _ h (c.template_approved g);
      session_open = λ g. k.keep _ h (c.session_open g);
    }

    Adds-after : {xs ys : List QueueMessage} → Adds cfg t h xs ys → Adds cfg t (m h).1 xs ys
    Adds-after same = same
    Adds-after (more q to b rest) =
        more q to
          (record {
            message = b.message;
            row = b.row;
            entry = b.entry;
            stored = k.keep _ h b.stored;
            cleared = IsCleared-after to b.cleared;
          })
          (Adds-after rest)

-- The operation only adds to the history, and backs what it queues.
pub record Backs (cfg : ServiceConfig) (t : Uuid) {A : Type 0} (m : Op MessageCall A) : Type 1 where
  pub keeps : Keeps m
  pub adds : (h : History) → Adds cfg t (m h).1 (queue_of h) (queue_of (m h).1)

-- What was backed stays backed past such an operation.
pub Backs-after :
    {cfg : ServiceConfig} {t : Uuid} {A : Type 0} {m : Op MessageCall A}
    → Backs cfg t m
    → (h : History) {base : List QueueMessage} → Adds cfg t h base (queue_of h)
    → Adds cfg t (m h).1 base (queue_of (m h).1)
Backs-after k h a = Adds-trans (Adds-after k.keeps h a) (k.adds h)

module _ (cfg : ServiceConfig) (t : Uuid) where
  pub pure-Backs : {A : Type 0} (a : A) → Backs cfg t (pure a)
  pure-Backs a = record { keeps = pure-Keeps a; adds = λ h. same }

  pub bind-Backs :
      {A B : Type 0} (m : Op MessageCall A) (f : A → Op MessageCall B)
      → Backs cfg t m
      → ((a : A) → Backs cfg t (f a))
      → Backs cfg t (m >>= f)
  bind-Backs m f first next = record {
    keeps = bind-Keeps first.keeps (λ a. (next a).keeps);
    adds = λ h.
        bind_cases m f h (λ out. Adds cfg t out.1 (queue_of h) (queue_of out.1))
          (λ e p. first.adds h) (λ a p. Backs-after (next a) (m h).1 (first.adds h));
  }

module _ (engine : TextEngine) (env : MessageEnv) (cfg : ServiceConfig) (t : Uuid) where
  send_with-Keeps :
      (req : SendRequest) (s : SenderConfig) → Keeps (send_with engine env cfg t req s)
  send_with-Keeps req s =
      bind-Keeps (find_contact-Keeps env cfg t _)
        λ c. bind-Keeps (check_opt_in-Keeps env cfg t _ c) (λ u. screen-Keeps engine env cfg t _)

  send_new-Keeps : (req : SendRequest) → Keeps (send_new engine env cfg t req)
  unfolding send_new
  send_new-Keeps req = bind-Keeps (find_provider-Keeps env cfg t req.channel) (send_with-Keeps req)

  unless_known-Keeps :
      (req : SendRequest) (r : Result Message) → Keeps (unless_known engine env cfg t req r)
  unless_known-Keeps req (ok row) = pure-Keeps row
  unless_known-Keeps req (err e) = elim (Bool-cases (is_error e not_found)) [
    | inl unknown ↦ rw unknown (send_new-Keeps req)
    | inr failed ↦ rw failed (record { keep = λ P h w. w })
  ]

  find_key-Keeps : (key : String) → Keeps (attempt (find_key engine env cfg t key))
  unfolding find_key
  find_key-Keeps key = record { keep = λ P h w. inr w }

  send_keyed-Keeps : (req : SendRequest) (b : Bool) → Keeps (send_keyed engine env cfg t req b)
  send_keyed-Keeps req true = send_new-Keeps req
  send_keyed-Keeps req false =
      bind-Keeps (find_key-Keeps req.idempotency_key) (unless_known-Keeps req)

  send-Keeps : (req : SendRequest) → Keeps (send engine env cfg t req)
  unfolding send
  send-Keeps req = send_keyed-Keeps _ (is_empty (trim_space req.idempotency_key))

  pub send-Backs : (req : SendRequest) → Backs cfg t (send engine env cfg t req)
  send-Backs req = record {
    keeps = send-Keeps req;
    adds = λ h. elim (send-IsCleared engine env cfg t req h) [
      | inl quiet ↦ rw quiet same
      | inr (sent, cleared) ↦ rw sent.on_queue (
          more sent.entry (target_of req)
            (record {
              message = sent.message;
              row = sent.row;
              stored = sent.stored;
              cleared = cleared;
              entry = record {
                names_row = sent.names_row;
                entry_tenant = sent.entry_tenant;
                entry_channel = sent.entry_channel;
                is_queued = sent.is_queued;
                message_tenant = sent.message_tenant;
                message_recipient = sent.message_recipient;
              };
            })
            same)
    ];
  }

  -- `SendBulk`, whatever it is stopped by.
  pub send_bulk-Backs : (reqs : List SendRequest) → Backs cfg t (send_bulk engine env cfg t reqs)
  unfolding send_bulk
  send_bulk-Backs [] = pure-Backs cfg t []
  send_bulk-Backs (req ∷ reqs) =
      bind-Backs cfg t _ _ (send-Backs req)
        λ msg. bind-Backs cfg t _ _ (send_bulk-Backs reqs) (λ msgs. pure-Backs cfg t (msg ∷ msgs))
