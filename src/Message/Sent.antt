-- ===== src/Message/Sent.antt =====
-- core/services/message_service.go: what the end of `Send`, once the checks are passed, leaves behind.
use spur_messaging.Prelude.{◌≡◌, refl, ◌⊎◌, inl, inr, List, ◌∷◌, arith, Any, ℕ, ◌∙◌, ap}
use spur_messaging.Domain.Message.{Uuid, Message, queued}
use spur_messaging.Calls.{ok, Result}
use spur_messaging.Message.Env.{
  SendRequest, ServiceConfig, MessageEnv, QueueMessage, History, created,
}
use spur_messaging.Message.Email.{TextEngine}
use spur_messaging.Message.Send.{
  Stored, fresh, existing, put_on_queue, put_if_fresh, priority_of, keep_message, build_message,
  compose, deliver,
}
use spur_messaging.Message.Rules.{queue_of, Yields, bind-Yields}
use spur_messaging.Message.Trace.{
  check_whatsapp-IsQuiet, prepare-IsQuiet, build-IsQuiet, store-IsQuiet, store_lem, prepare_lem,
  build_lem,
}
use spur_messaging.Message.Cleared.{Target, target_of}
use spur_messaging.Message.Growth.{put_on_queue-Keeps}

-- The run stored a message as queued, put the row on the queue and answered with it.
pub record IsSent (tenant_id : Uuid) (to : Target) (base : List QueueMessage)
    (out : Result Message × History) : Type 0 where
  pub message : Message
  pub row : Message
  pub entry : QueueMessage
  pub answered : out.0 ≡ ok row
  pub stored : Any (λ c. c ≡ created message (ok row)) out.1
  pub on_queue : queue_of out.1 ≡ entry ∷ base
  pub names_row : entry.message_id ≡ row.id
  pub entry_tenant : entry.tenant_id ≡ tenant_id
  pub entry_channel : entry.channel ≡ to.channel
  pub is_queued : message.status ≡ queued
  pub message_tenant : message.tenant_id ≡ tenant_id
  pub message_recipient : message.recipient ≡ to.recipient

module _ (engine : TextEngine) (env : MessageEnv) (cfg : ServiceConfig) (tenant_id : Uuid) where
  put_lem :
      (req : SendRequest) (n : ℕ) (row : Message) (h : History)
      → let (r, h') = put_on_queue engine env cfg tenant_id req n row h in
        (queue_of h' ≡ queue_of h)
        ⊎ ((q : QueueMessage) × (r ≡ ok row)
            × (queue_of h' ≡ q ∷ queue_of h)
            × (q.message_id ≡ row.id)
            × (q.tenant_id ≡ tenant_id)
            × (q.channel ≡ req.channel))
  unfolding put_on_queue
  put_lem req n row h = ground arith

  stored-IsSent :
      (to : Target) (p : SendRequest) (m : Message) (n : ℕ) (s : Stored) (h : History)
      → p.channel ≡ to.channel
      → (m.status ≡ queued) × (m.tenant_id ≡ tenant_id) × (m.recipient ≡ to.recipient)
      → ((row : Message) → s ≡ fresh row → Any (λ c. c ≡ created m (ok row)) h)
      → Yields (put_if_fresh engine env cfg tenant_id p n s) h (IsSent tenant_id to)
  stored-IsSent to p m n (existing row) h ec em es = record { yields = inl refl }
  stored-IsSent to p m n (fresh row) h ec em es = record {
    yields = elim (put_lem p n row h) [
      | inl same ↦ inl same
      | inr (q, answered, on_queue, names, tenant, channel) ↦ inr (record {
        message = m;
        row = row;
        entry = q;
        answered = answered;
        stored = (put_on_queue-Keeps engine env cfg tenant_id p n row).keep _ h (es row refl);
        on_queue = on_queue;
        names_row = names;
        entry_tenant = tenant;
        entry_channel = channel ∙ ec;
        is_queued = em.0;
        message_tenant = em.1;
        message_recipient = em.2;
      })
    ];
  }

  pub deliver-IsSent :
      (req : SendRequest) (h : History)
      → Yields (deliver engine env cfg tenant_id req) h (IsSent tenant_id (target_of req))
  unfolding deliver
  deliver-IsSent req h =
      bind-Yields (compose engine env cfg tenant_id req)
        (check_whatsapp-IsQuiet env cfg tenant_id req)
        λ c _.
          bind-Yields (build_message engine env cfg tenant_id req c)
            (prepare-IsQuiet engine env cfg tenant_id req)
            λ p ep.
              bind-Yields (keep_message engine env cfg tenant_id req p)
                (build-IsQuiet engine env cfg tenant_id p c)
                λ m em.
                  bind-Yields
                    (put_if_fresh engine env cfg tenant_id p
                      (priority_of engine env cfg tenant_id m))
                    (store-IsQuiet engine env cfg tenant_id req.idempotency_key m)
                    λ s es.
                      let fp = prepare_lem engine env cfg tenant_id req _ ep in
                      let fm = build_lem engine env cfg tenant_id p c _ em in
                      stored-IsSent (target_of req) p m _ s _ fp.0 (fm.0, fm.1, fm.3 ∙ fp.1)
                        (λ row e.
                          (store_lem engine env cfg tenant_id req.idempotency_key m _).0
                            (es ∙ ap ok e))
