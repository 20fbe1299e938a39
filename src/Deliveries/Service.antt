-- ===== src/Deliveries/Service.antt =====
-- core/services/tenant_webhook_service.go: `DeliverEvent`, `TestEndpoint`, `ReplayDelivery`,
-- `ProcessDueDeliveries` and `normalizePage`.
use spur_messaging.Prelude.{
  ℕ, String, Bool, true, false, ◌&&◌, ◌||◌, Option, none, some, List, [], ◌∷◌, str_eq, leb, ltb,
  if◌then◌else◌,
}
use spur_messaging.Prelude.Int.{ℤ, pos, ltb_ℤ, leb_ℤ, pos_part}
use spur_messaging.Domain.Errors.{validation_error}
use spur_messaging.Domain.Message.{Uuid}
use spur_messaging.Domain.Event.{
  WebhookEventType, message_created, message_sent, message_delivered, message_read, message_opened,
  message_clicked, message_failed, message_replied, template_approved, template_rejected,
  contact_opted_in, contact_opted_out, campaign_started, campaign_completed, campaign_failed,
  wallet_low_balance, webhook_test, other_event, is_valid_webhook_event,
}
use spur_messaging.Calls.{Result, ok, err, Op, pure, ◌>>=◌, ◌>>◌, call, draw, attempt, guard}
use spur_messaging.Deliveries.Env.{
  WebhookEndpoint, is_pending, WebhookDelivery, DeliveryCall, DeliveryEnv, read_clock, drew_id,
  asked_endpoint, listed_endpoints, asked_delivery, listed_due, created_delivery, deleted_endpoint,
}
use spur_messaging.Deliveries.Attempt.{attempt_delivery}

-- The event's text as a number, for the comparison of two events.
abbrev event_code : WebhookEventType → ℕ
event_code message_created = 0
event_code message_sent = 1
event_code message_delivered = 2
event_code message_read = 3
event_code message_opened = 4
event_code message_clicked = 5
event_code message_failed = 6
event_code message_replied = 7
event_code template_approved = 8
event_code template_rejected = 9
event_code contact_opted_in = 10
event_code contact_opted_out = 11
event_code campaign_started = 12
event_code campaign_completed = 13
event_code campaign_failed = 14
event_code wallet_low_balance = 15
event_code webhook_test = 16
event_code (other_event s) = 17

abbrev event_text : WebhookEventType → String
event_text (other_event s) = s
event_text _ = ""

abbrev has_event : WebhookEventType → List WebhookEventType → Bool
has_event event [] = false
has_event event (e ∷ es) =
    (leb (event_code event) (event_code e)
      && leb (event_code e) (event_code event)
      && str_eq (event_text event) (event_text e))
    || has_event event es

-- `SubscribesTo`.
abbrev pub subscribes_to : WebhookEndpoint → WebhookEventType → Bool
subscribes_to endpoint event = endpoint.is_active && has_event event endpoint.events

abbrev pub max_webhook_per_page : ℕ
max_webhook_per_page = 100

-- `normalizePage` with the service's default and maximum.
abbrev pub normalize_page : ℤ → ℤ → ℕ × ℕ
normalize_page page per_page =
    let n = if leb_ℤ per_page (pos 0) then 25 else pos_part per_page in
    (pos_part page, if ltb max_webhook_per_page n then max_webhook_per_page else n)

abbrev id_or : Option Uuid → Uuid → Uuid
id_or none id = id
id_or (some id) _ = id

-- A value that no call is needed for, or its error.
abbrev given : {A : Type 0} → Result A → Op DeliveryCall A
given r h = (r, h)

module _ (env : DeliveryEnv) where
  -- `newWebhookDelivery`, and its insertion.
  unfoldable pub store_delivery :
      Uuid → Uuid → WebhookEventType → String → Op DeliveryCall WebhookDelivery
  store_delivery tenant_id webhook_id event payload = do
    event_id ← draw env.new_uuid drew_id
    id ← draw env.new_uuid drew_id
    let delivery : WebhookDelivery = record {
      id = id;
      tenant_id = tenant_id;
      webhook_id = webhook_id;
      event_id = id_or (env.event_id payload) event_id;
      event_type = event;
      payload = payload;
      status = is_pending;
      attempt_count = 0;
      next_attempt_at = none;
      last_attempt_at = none;
      response_status = none;
      response_body = none;
      error_message = none;
      signature = "";
    }
    call (λ h. env.create_delivery h delivery) (created_delivery delivery)

  abbrev pub find_endpoint : Uuid → Uuid → Op DeliveryCall WebhookEndpoint
  find_endpoint tenant_id id =
      call (λ h. env.get_endpoint h tenant_id id) (asked_endpoint tenant_id id)

  -- `ReplayDelivery`.
  unfoldable pub replay_delivery : Uuid → Uuid → Op DeliveryCall WebhookDelivery
  unfolding attempt_delivery
  replay_delivery tenant_id id = do
    delivery ← call (λ h. env.get_delivery h tenant_id id) (asked_delivery tenant_id id)
    endpoint ← find_endpoint tenant_id delivery.webhook_id
    attempt_delivery env endpoint delivery

  abbrev pub deliver_to :
      Uuid → WebhookEventType → String → WebhookEndpoint → Op DeliveryCall WebhookDelivery
  deliver_to tenant_id event payload endpoint = do
    delivery ← store_delivery tenant_id endpoint.id event payload
    attempt_delivery env endpoint delivery

  -- `TestEndpoint`.
  unfoldable pub test_endpoint : Uuid → Uuid → Op DeliveryCall WebhookDelivery
  unfolding attempt_delivery store_delivery
  test_endpoint tenant_id id = do
    endpoint ← find_endpoint tenant_id id
    event_id ← draw env.new_uuid drew_id
    now ← draw env.clock read_clock
    payload ← given (env.test_payload event_id tenant_id id now)
    deliver_to tenant_id webhook_test payload endpoint

  -- `DeleteEndpoint`.
  unfoldable pub delete_endpoint : Uuid → Uuid → Op DeliveryCall (Unit {0})
  delete_endpoint tenant_id id =
      call (λ h. env.delete_endpoint h tenant_id id) (deleted_endpoint tenant_id id)

  -- The loop of `DeliverEvent`.
  unfoldable pub deliver_all :
      Uuid
      → WebhookEventType
      → String
      → List WebhookEndpoint
      → Op DeliveryCall (List WebhookDelivery)
  unfolding attempt_delivery store_delivery
  deliver_all tenant_id event payload [] = pure []
  deliver_all tenant_id event payload (endpoint ∷ endpoints) =
      let rest = deliver_all tenant_id event payload endpoints in
      elim (subscribes_to endpoint event) [
        | false ↦ rest
        | true ↦ do
          delivery ← deliver_to tenant_id event payload endpoint
          deliveries ← rest
          pure (delivery ∷ deliveries)
      ]

  -- `DeliverEvent`; of the deliveries made before an error, the history tells.
  unfoldable pub deliver_event :
      Uuid → WebhookEventType → String → Op DeliveryCall (List WebhookDelivery)
  unfolding deliver_all
  deliver_event tenant_id event payload = do
    guard (is_valid_webhook_event event)
        (validation_error "event_type" "unsupported webhook event type")
    endpoints ←
        call (λ h. env.list_endpoints h tenant_id 0 max_webhook_per_page)
          (listed_endpoints tenant_id 0 max_webhook_per_page)
    deliver_all tenant_id event payload endpoints

  -- One turn of `ProcessDueDeliveries`: what fails is only logged.
  unfoldable pub process_delivery : WebhookDelivery → Op DeliveryCall (Unit {0})
  unfolding attempt_delivery
  process_delivery delivery = do
    found ← attempt (find_endpoint delivery.tenant_id delivery.webhook_id)
    elim found [
      | err e ↦ pure tt
      | ok endpoint ↦ do outcome ← attempt (attempt_delivery env endpoint delivery); pure tt
    ]

  process_deliveries : List WebhookDelivery → Op DeliveryCall (Unit {0})
  unfolding process_delivery
  process_deliveries [] = pure tt
  process_deliveries (d ∷ ds) = process_delivery d >> process_deliveries ds

  -- `ProcessDueDeliveries`.
  unfoldable pub process_due_deliveries : ℤ → Op DeliveryCall (Unit {0})
  unfolding process_deliveries
  process_due_deliveries limit = do
    let n =
        if leb_ℤ limit (pos 0) || ltb_ℤ (pos max_webhook_per_page) limit
        then max_webhook_per_page
        else pos_part limit
    now ← draw env.clock read_clock
    due ← call (λ h. env.list_due h now n) (listed_due now n)
    process_deliveries due
