-- ===== src/Webhook/Ranks.antt =====
-- core/services/webhook_service.go: how the webhooks change a message's status.
pub mod Climbing
pub use spur_messaging.Webhook.Ranks.Climbing.{
  last_status, IsAbove, IsClimbing, IsBlind, IsNearlyClimbing, CanRead, ReadsStatus, Keeping,
  then-Keeping, above,
}
use spur_messaging.Prelude.{
  Bool-cases, inl, inr, String, Bool, true, false, Option, none, some, List, [], ◌∷◌, str_eq,
  if◌then◌else◌, arith, is_empty,
}
use spur_messaging.Prelude.Int.{leb_ℤ→gt, ltb_ℤ→lt, ltb_ℤ, leb_ℤ, ◌<ℤ◌, ◌≤ℤ◌}
use spur_messaging.Domain.Message.{Time, Uuid, MessageStatus, message_status_rank, Message}
use spur_messaging.Domain.Event.{EmailEventType}
use spur_messaging.Domain.Errors.{GoError}
use spur_messaging.Calls.{Result, ok, err, Op, ◌>>=◌, ◌>>◌, bind_cases}
use spur_messaging.Webhook.Env.{
  WhatsappStatus, WhatsappMessage, WhatsappChange, WhatsappEntry, ProviderEvent, WebhookConfig,
  WebhookCall, WebhookHistory, WebhookEnv, updated_status, read_clock, asked_provider_id,
}
use spur_messaging.Webhook.Whatsapp.{
  map_whatsapp_status, time_or, change_status, change_if_higher, process_whatsapp_status,
  process_whatsapp_incoming, process_change, process_changes, process_entry,
  handle_whatsapp_webhook, for_each, deliver_message_event,
}
use spur_messaging.Webhook.EmailEvents.{
  auto_suppress, raise_status, record_event, with_message, find_message, unless_seen, check_seen,
  process_email_event, handle_email_webhook, parse_email_webhook, receive_email_webhook,
}

module _ (env : WebhookEnv) (cfg : WebhookConfig) (law : ReadsStatus env) where
  change_climbs :
      (tenant_id : Uuid) (id : String) (s : MessageStatus) (t : Time) (m : Message)
      (h : WebhookHistory)
      → IsAbove (last_status id h) s
      → IsClimbing h
      → IsClimbing (change_status env cfg tenant_id id s t m h).1
  unfolding change_status deliver_message_event
  change_climbs tenant_id id s t m h a w = ground arith

  change_nearly_climbs :
      (tenant_id : Uuid) (id : String) (s : MessageStatus) (t : Time) (m : Message)
      (h : WebhookHistory)
      → IsAbove (last_status id h) s
      → IsNearlyClimbing h
      → IsNearlyClimbing (change_status env cfg tenant_id id s t m h).1
  unfolding change_status deliver_message_event
  change_nearly_climbs tenant_id id s t m h a w = ground arith

  found_climbs :
      (tenant_id : Uuid) (id : String) (s : MessageStatus) (t : Time) (r : Result Message)
      (h : WebhookHistory)
      → CanRead (last_status id h) r
      → IsNearlyClimbing h
      → IsNearlyClimbing
          (change_if_higher env cfg tenant_id id s t r (asked_provider_id id r ∷ h)).1
  found_climbs tenant_id id s t (err e) h read w = ground arith
  found_climbs tenant_id id s t (ok m) h read w =
      elim (Bool-cases (leb_ℤ (message_status_rank s) (message_status_rank m.status))) [
        | inl low ↦ rw low w
        | inr high ↦ rw high (
            change_nearly_climbs tenant_id id s t m (asked_provider_id id (ok m) ∷ h)
              (above (last_status id h) m s
                (leb_ℤ→gt (message_status_rank s) (message_status_rank m.status) high) read)
              w)
      ]

  status-Climbs :
      (tenant_id : Uuid) (status : WhatsappStatus)
      → Keeping IsNearlyClimbing (process_whatsapp_status env cfg tenant_id status)
  unfolding process_whatsapp_status
  status-Climbs tenant_id status = record {
    climbs = λ h w.
        found_climbs tenant_id status.id (map_whatsapp_status status.status)
          (time_or (env.unix_time status.timestamp) (env.clock h))
          (env.get_by_provider_id (read_clock (env.clock h) ∷ h) status.id)
          (read_clock (env.clock h) ∷ h) (law.reads (read_clock (env.clock h) ∷ h) status.id) w;
  }

  incoming-Climbs :
      (tenant_id : Uuid) (msg : WhatsappMessage)
      → Keeping IsNearlyClimbing (process_whatsapp_incoming env cfg tenant_id msg)
  unfolding process_whatsapp_incoming
  incoming-Climbs tenant_id msg = record { climbs = λ h w. ground arith }

  for_each-Keeping :
      {W : WebhookHistory → Type 0} {A : Type 0} (f : A → Op WebhookCall (Unit {0})) (xs : List A)
      → ((x : A) → Keeping W (f x))
      → Keeping W (for_each env cfg f xs)
  for_each-Keeping f [] each = record { climbs = λ h w. w }
  for_each-Keeping f (x ∷ xs) each =
      then-Keeping (f x) (for_each env cfg f xs) (each x) (for_each-Keeping f xs each)

  raise_climbs :
      (m : Message) (event : ProviderEvent) (o : Option MessageStatus) (h : WebhookHistory)
      → CanRead (last_status event.provider_message_id h) (ok m)
      → IsClimbing h
      → IsClimbing (raise_status env cfg m event o h).1
  unfolding raise_status
  raise_climbs m event none h read w = w
  raise_climbs m event (some s) h read w =
      elim (Bool-cases (ltb_ℤ (message_status_rank m.status) (message_status_rank s))) [
        | inl high ↦ rw high (
            change_climbs m.tenant_id event.provider_message_id s event.timestamp m h
              (above (last_status event.provider_message_id h) m s
                (ltb_ℤ→lt (message_status_rank m.status) (message_status_rank s) high) read)
              w)
        | inr low ↦ rw low w
      ]

  suppress-Climbs :
      (m : Message) (event : ProviderEvent) (t : EmailEventType)
      → Keeping IsClimbing (auto_suppress env cfg m event t)
  unfolding auto_suppress
  suppress-Climbs m event t = record { climbs = λ h w. ground arith }

  record_climbs :
      (event : ProviderEvent) (m : Message) (h : WebhookHistory)
      → CanRead (last_status event.provider_message_id h) (ok m)
      → IsClimbing h
      → IsClimbing (record_event env cfg event m h).1
  unfolding record_event
  record_climbs event m h read w =
      bind_cases (raise_status env cfg m event event.status)
        (λ _. auto_suppress env cfg m event event.email_event_type) _ (λ out. IsClimbing out.1)
        (λ e p. raise_climbs m event event.status _ read w)
        (λ u p.
          (suppress-Climbs m event event.email_event_type).climbs _
            (raise_climbs m event event.status _ read w))

  with_message_climbs :
      (event : ProviderEvent) (r : Result Message) (h : WebhookHistory)
      → CanRead (last_status event.provider_message_id h) r
      → IsClimbing h
      → IsClimbing (with_message env cfg event r h).1
  with_message_climbs event (err e) h read w = w
  with_message_climbs event (ok m) h read w = record_climbs event m h read w

  find_message-Climbs : (event : ProviderEvent) → Keeping IsClimbing (find_message env cfg event)
  find_message-Climbs event = record {
    climbs = λ h w.
        with_message_climbs event (env.get_by_provider_id h event.provider_message_id)
          (asked_provider_id event.provider_message_id
              (env.get_by_provider_id h event.provider_message_id)
            ∷ h)
          (law.reads h event.provider_message_id) w;
  }

  unless_seen-Climbs :
      (event : ProviderEvent) (r : Result Bool) → Keeping IsClimbing (unless_seen env cfg event r)
  unless_seen-Climbs event (ok true) = record { climbs = λ h w. w }
  unless_seen-Climbs event (ok false) = find_message-Climbs event
  unless_seen-Climbs event (err e) = find_message-Climbs event

  check_seen-Climbs :
      (event : ProviderEvent) (b : Bool) → Keeping IsClimbing (check_seen env cfg event b)
  check_seen-Climbs event true = find_message-Climbs event
  check_seen-Climbs event false = record {
    climbs =
        λ h w. (unless_seen-Climbs event (env.exists_event h event.email_provider_id)).climbs _ w;
  }

  email-Climbs : (event : ProviderEvent) → Keeping IsClimbing (process_email_event env cfg event)
  unfolding process_email_event
  email-Climbs event = check_seen-Climbs event (is_empty event.email_provider_id)

  change_field-Climbs :
      (tenant_id : Uuid) (change : WhatsappChange)
      → Keeping IsNearlyClimbing (process_change env cfg tenant_id change)
  change_field-Climbs tenant_id change = elim (Bool-cases (str_eq change.field "messages")) [
    | inl yes_it_is ↦ rw yes_it_is (
        then-Keeping _ _ (for_each-Keeping _ change.statuses (status-Climbs tenant_id))
          (for_each-Keeping _ change.messages (incoming-Climbs tenant_id)))
    | inr no_other ↦ rw no_other (record { climbs = λ h w. w })
  ]

  changes-Climbs :
      (entry : WhatsappEntry) (r : Result Uuid)
      → Keeping IsNearlyClimbing (process_changes env cfg entry r)
  changes-Climbs entry (err e) = record { climbs = λ h w. w }
  changes-Climbs entry (ok tenant_id) =
      for_each-Keeping (process_change env cfg tenant_id) entry.changes
        (change_field-Climbs tenant_id)

  entry-Climbs : (entry : WhatsappEntry) → Keeping IsNearlyClimbing (process_entry env cfg entry)
  entry-Climbs entry = record {
    climbs = λ h w. (changes-Climbs entry (env.get_by_waba_id h entry.id)).climbs _ w;
  }

  -- Whatever a WhatsApp webhook carries, in whatever order: if every status written so far ranks above
  -- the one written before it for the same message, unless the lookup of the message failed just before
  -- the write, then so it is after the webhook. The messages table is one that shows a message that was
  -- written to, where it finds it, with a status no lower.
  pub handle_whatsapp_webhook_climbs :
      (payload : Option (List WhatsappEntry)) (h : WebhookHistory)
      → IsNearlyClimbing h
      → IsNearlyClimbing (handle_whatsapp_webhook env cfg payload h).1
  unfolding handle_whatsapp_webhook
  handle_whatsapp_webhook_climbs none h w = w
  handle_whatsapp_webhook_climbs (some entries) h w =
      (for_each-Keeping (process_entry env cfg) entries entry-Climbs).climbs h w

  -- Whatever events an email webhook carries, late, repeated or out of order: if every status
  -- written so far ranks above the one written before it for the same message, then so it is after
  -- the webhook. The messages table is one that shows a message that was written to, where it finds it, with a
  -- status no lower.
  pub handle_email_webhook_climbs :
      (events : Option (List ProviderEvent)) (h : WebhookHistory)
      → IsClimbing h
      → IsClimbing (handle_email_webhook env cfg events h).1
  unfolding handle_email_webhook
  handle_email_webhook_climbs none h w = w
  handle_email_webhook_climbs (some events) h w =
      (for_each-Keeping (process_email_event env cfg) events email-Climbs).climbs h w

  -- The same through the lookup of the provider, whichever providers are registered.
  receive_email_webhook_climbs :
      (providers : Option (String → Option (String → Option (List ProviderEvent))))
      (name body : String) (h : WebhookHistory)
      → IsClimbing h
      → IsClimbing (receive_email_webhook env cfg providers name body h).1
  unfolding receive_email_webhook
  receive_email_webhook_climbs providers name body h w =
      handle_email_webhook_climbs (parse_email_webhook providers name body) h w
