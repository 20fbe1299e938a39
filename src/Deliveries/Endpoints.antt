-- ===== src/Deliveries/Endpoints.antt =====
-- core/services/tenant_webhook_service.go: `CreateEndpoint` and `UpdateEndpoint`.
use spur_messaging.Prelude.{
  false, String, Bool, true, ◌&&◌, Option, none, some, List, [], ◌∷◌, length, is_empty, trim_space,
  leb,
}
use spur_messaging.Message.Email.{bytes}
use spur_messaging.Domain.Errors.{validation_error}
use spur_messaging.Domain.Message.{Uuid}
use spur_messaging.Domain.Event.{WebhookEventType, is_valid_webhook_event}
use spur_messaging.Calls.{err, Op, pure, ◌>>=◌, ◌>>◌, call, draw, guard}
use spur_messaging.Deliveries.Env.{
  WebhookEndpoint, DeliveryCall, DeliveryEnv, drew_id, drew_secret, asked_endpoint,
  created_endpoint, updated_endpoint,
}

pub record CreateEndpointRequest : Type 0 where
  pub url : String
  pub secret : String
  pub events : List WebhookEventType

pub record UpdateEndpointRequest : Type 0 where
  pub url : Option String
  pub secret : Option String
  pub events : Option (List WebhookEventType)
  pub is_active : Option Bool

abbrev pub are_valid_events : List WebhookEventType → Bool
are_valid_events [] = true
are_valid_events (e ∷ es) = is_valid_webhook_event e && are_valid_events es

abbrev pub some_or_old {ℓ} : {A : Type ℓ} → Option A → A → A
some_or_old none old = old
some_or_old (some new) old = new

module _ (env : DeliveryEnv) (tenant_id : Uuid) where
  -- `validateWebhookEvents`.
  abbrev pub validate_webhook_events : List WebhookEventType → Op DeliveryCall (Unit {0})
  validate_webhook_events [] h =
      (err (validation_error "events" "at least one webhook event is required"), h)
  validate_webhook_events (e ∷ es) h =
      guard (are_valid_events (e ∷ es)) (validation_error "events" "unsupported webhook event type")
        h

  abbrev pub check_url : String → Op DeliveryCall (Unit {0})
  check_url url = guard (env.is_https url) (validation_error "url" "webhook URL must be HTTPS")

  -- `generateWebhookSecret`, where no secret is asked for.
  abbrev pick_secret : Bool → String → Op DeliveryCall String
  pick_secret true secret = call env.new_secret drew_secret
  pick_secret false secret = pure secret

  -- The secret that is asked for, or a new one, of 32 bytes at least.
  unfoldable pub choose_secret : String → Op DeliveryCall String
  unfolding trim_space bytes
  choose_secret raw = do
    secret ← pick_secret (is_empty (trim_space raw)) (trim_space raw)
    guard (leb 32 (length (bytes secret)))
        (validation_error "secret" "webhook secret must be at least 32 characters")
    pure secret

  -- `CreateEndpoint`.
  unfoldable pub create_endpoint : CreateEndpointRequest → Op DeliveryCall WebhookEndpoint
  unfolding choose_secret
  create_endpoint req = do
    check_url req.url
    validate_webhook_events req.events
    secret ← choose_secret req.secret
    id ← draw env.new_uuid drew_id
    let endpoint : WebhookEndpoint = record {
      id = id;
      tenant_id = tenant_id;
      url = req.url;
      secret = secret;
      events = req.events;
      is_active = true;
    }
    call (λ h. env.create_endpoint h endpoint) (created_endpoint endpoint)

  abbrev pub check_new_url : Option String → Op DeliveryCall (Unit {0})
  check_new_url none = pure tt
  check_new_url (some url) = check_url url

  abbrev pub check_new_events : Option (List WebhookEventType) → Op DeliveryCall (Unit {0})
  check_new_events none = pure tt
  check_new_events (some events) = validate_webhook_events events

  abbrev pub choose_new_secret : Option String → String → Op DeliveryCall String
  choose_new_secret none old = pure old
  choose_new_secret (some raw) old = choose_secret raw

  -- `UpdateEndpoint`.
  unfoldable pub update_endpoint : Uuid → UpdateEndpointRequest → Op DeliveryCall WebhookEndpoint
  unfolding choose_secret
  update_endpoint id req = do
    endpoint ← call (λ h. env.get_endpoint h tenant_id id) (asked_endpoint tenant_id id)
    check_new_url req.url
    check_new_events req.events
    secret ← choose_new_secret req.secret endpoint.secret
    let updated = record endpoint {
      url = some_or_old req.url endpoint.url;
      events = some_or_old req.events endpoint.events;
      secret = secret;
      is_active = some_or_old req.is_active endpoint.is_active;
    }
    call (λ h. env.update_endpoint h updated) (updated_endpoint updated)
