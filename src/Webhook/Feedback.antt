-- ===== src/Webhook/Feedback.antt =====
-- core/services/webhook_service.go: what the events of an email provider do to the lists.
use spur_messaging.Prelude.{
  String, Bool, true, false, ◌≡◌, Option, none, some, ◌∷◌, str_eq, is_empty, arith, Any, Bool-cases,
  inl, inr, refl, ◌⊎◌,
}
use spur_messaging.Prelude.Int.{ltb_ℤ}
use spur_messaging.Domain.Message.{Uuid, MessageStatus, Message, message_status_rank}
use spur_messaging.Domain.Event.{
  EmailEventType, bounce, complaint, SuppressionReason, hard_bounce, spam_complaint,
}
use spur_messaging.Domain.Errors.{GoError}
use spur_messaging.Calls.{Result, ok, err, bind_cases}
use spur_messaging.Webhook.Env.{
  ProviderEvent, WebhookConfig, WebhookCall, WebhookHistory, WebhookEnv, asked_event,
  added_suppression, unsubscribed_email,
}
use spur_messaging.Webhook.Whatsapp.{change_status, deliver_message_event}
use spur_messaging.Webhook.EmailEvents.{
  auto_suppress, raise_status, record_event, check_seen, process_email_event,
}

module _ (env : WebhookEnv) where
  -- The suppression list took the address, or failed itself.
  abbrev pub IsSuppressed : Uuid → String → SuppressionReason → Result (Unit {0}) → Type 0
  IsSuppressed t a reason r =
      (r ≡ ok tt)
      ⊎ ((h : WebhookHistory) × (e : GoError) × (env.add_to_suppression h t a reason ≡ err e))

  -- The unsubscribe list took the address, or failed itself.
  abbrev pub IsUnsubscribed : Uuid → String → Option Uuid → String → Result (Unit {0}) → Type 0
  IsUnsubscribed t a campaign reason r =
      (r ≡ ok tt)
      ⊎ ((h : WebhookHistory) × (e : GoError) × (env.unsubscribe h t a campaign reason ≡ err e))

  -- The call puts the address on the tenant's suppression list for the reason.
  abbrev pub IsSuppression : Uuid → String → SuppressionReason → WebhookCall → Type 0
  IsSuppression t a reason (added_suppression t' a' reason' r) =
      (t' ≡ t) × (a' ≡ a) × (reason' ≡ reason) × IsSuppressed t a reason r
  IsSuppression t a reason _ = ⊥

  -- The call puts the address on the tenant's unsubscribe list.
  abbrev pub IsUnsubscription : Uuid → String → WebhookCall → Type 0
  IsUnsubscription t a (unsubscribed_email t' a' campaign reason r) =
      (t' ≡ t) × (a' ≡ a) × IsUnsubscribed t a campaign reason r
  IsUnsubscription t a _ = ⊥

  -- What a complaint and a hard bounce must lead to.
  abbrev pub IsBlocked : Message → ProviderEvent → WebhookHistory → Type 0
  IsBlocked m event h =
      (event.email_event_type ≡ complaint
        → Any (IsSuppression m.tenant_id event.address spam_complaint) h
          × Any (IsUnsubscription m.tenant_id event.address) h)
      × (event.email_event_type ≡ bounce
          → str_eq event.bounce_type "hard" ≡ true
          → Any (IsSuppression m.tenant_id event.address hard_bounce) h)

  suppressed_lem :
      (t : Uuid) (a : String) (reason : SuppressionReason) (h : WebhookHistory)
      (r : Result (Unit {0}))
      → env.add_to_suppression h t a reason ≡ r
      → IsSuppressed t a reason r
  suppressed_lem t a reason h (ok u) p = inl refl
  suppressed_lem t a reason h (err e) p = inr (h, e, p)

  unsubscribed_lem :
      (t : Uuid) (a : String) (campaign : Option Uuid) (reason : String) (h : WebhookHistory)
      (r : Result (Unit {0}))
      → env.unsubscribe h t a campaign reason ≡ r
      → IsUnsubscribed t a campaign reason r
  unsubscribed_lem t a campaign reason h (ok u) p = inl refl
  unsubscribed_lem t a campaign reason h (err e) p = inr (h, e, p)

module _ (env : WebhookEnv) (cfg : WebhookConfig) where
  complaint_blocks :
      (m : Message) (event : ProviderEvent) (t : EmailEventType) (h : WebhookHistory)
      → t ≡ complaint
      → Any
          (IsSuppression env m.tenant_id event.address spam_complaint)
          (auto_suppress env cfg m event t h).1
        × Any (IsUnsubscription env m.tenant_id event.address) (auto_suppress env cfg m event t h).1
  unfolding auto_suppress
  complaint_blocks m event complaint h e = (
    inr (
        inl
          (refl, refl, refl, suppressed_lem env m.tenant_id event.address spam_complaint h _ refl)),
    inl (refl, refl, unsubscribed_lem env m.tenant_id event.address none "complaint" _ _ refl),
  )
  complaint_blocks m event t h e = ground arith

  bounce_blocks :
      (m : Message) (event : ProviderEvent) (t : EmailEventType) (h : WebhookHistory)
      → t ≡ bounce
      → str_eq event.bounce_type "hard" ≡ true
      → Any
          (IsSuppression env m.tenant_id event.address hard_bounce)
          (auto_suppress env cfg m event t h).1
  unfolding auto_suppress
  bounce_blocks m event bounce h e hard =
      rw hard
        (inl (refl, refl, refl, suppressed_lem env m.tenant_id event.address hard_bounce h _ refl))
  bounce_blocks m event t h e hard = ground arith

  change_returns :
      (m : Message) (event : ProviderEvent) (s : MessageStatus) (h : WebhookHistory)
      → (change_status env cfg m.tenant_id event.provider_message_id s event.timestamp m h).0
        ≡ ok tt
  unfolding change_status deliver_message_event
  change_returns m event s h = ground arith

  raise_returns :
      (m : Message) (event : ProviderEvent) (o : Option MessageStatus) (h : WebhookHistory)
      → (raise_status env cfg m event o h).0 ≡ ok tt
  unfolding raise_status
  raise_returns m event none h = refl
  raise_returns m event (some s) h =
      elim (Bool-cases (ltb_ℤ (message_status_rank m.status) (message_status_rank s))) [
        | inl high ↦ rw high (change_returns m event s h)
        | inr low ↦ rw low refl
      ]

  record_blocks :
      (event : ProviderEvent) (m : Message) (h : WebhookHistory)
      → IsBlocked env m event (record_event env cfg event m h).1
  unfolding record_event
  record_blocks event m h =
      bind_cases (raise_status env cfg m event event.status)
        (λ _. auto_suppress env cfg m event event.email_event_type) _
        (λ out. IsBlocked env m event out.1)
        (λ e p. absurd (cc (p, raise_returns m event event.status _)))
        (λ u p. (
          complaint_blocks m event event.email_event_type _,
          bounce_blocks m event event.email_event_type _,
        ))

  -- An event with a provider ID that is on record is looked up and dropped: no other call is made.
  pub process_email_event_once :
      (event : ProviderEvent) (h : WebhookHistory)
      → is_empty event.email_provider_id ≡ false
      → env.exists_event h event.email_provider_id ≡ ok true
      → process_email_event env cfg event h
        ≡ (ok tt, asked_event event.email_provider_id (ok true) ∷ h)
  unfolding process_email_event
  process_email_event_once event h named seen = rw named (rw seen refl)

  check_blocks :
      (event : ProviderEvent) (m : Message) (b : Bool) (h : WebhookHistory)
      → ((h' : WebhookHistory) → env.get_by_provider_id h' event.provider_message_id ≡ ok m)
      → ((h' : WebhookHistory) → env.exists_event h' event.email_provider_id ≡ ok false)
      → IsBlocked env m event (check_seen env cfg event b h).1
  check_blocks event m true h found unseen = rw found (record_blocks event m _)
  check_blocks event m false h found unseen = rw unseen (rw found (record_blocks event m _))

  -- An event that is not on record, about a message that every lookup finds: after a complaint the
  -- address is on the tenant's suppression list and on its unsubscribe list, and after a hard bounce on
  -- the suppression list, but for a list that failed itself, and whatever else fails on the way.
  pub process_email_event_blocks :
      (event : ProviderEvent) (m : Message) (h : WebhookHistory)
      → ((h' : WebhookHistory) → env.get_by_provider_id h' event.provider_message_id ≡ ok m)
      → ((h' : WebhookHistory) → env.exists_event h' event.email_provider_id ≡ ok false)
      → IsBlocked env m event (process_email_event env cfg event h).1
  unfolding process_email_event
  process_email_event_blocks event m h = check_blocks event m (is_empty event.email_provider_id) h
