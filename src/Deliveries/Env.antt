-- ===== src/Deliveries/Env.antt =====
-- core/services/tenant_webhook_service.go and core/domain/webhook.go: endpoints, deliveries, and the
-- calls of `TenantWebhookService`.
use spur_messaging.Prelude.{ℕ, ◌/◌, String, Bool, Option, List, [], ◌∷◌, append, concat}
use spur_messaging.Domain.Message.{Uuid, Time}
use spur_messaging.Domain.Event.{WebhookEventType}
use spur_messaging.Calls.{Result}

pub record WebhookEndpoint : Type 0 where
  pub id : Uuid
  pub tenant_id : Uuid
  pub url : String
  pub secret : String
  pub events : List WebhookEventType
  pub is_active : Bool

pub data DeliveryStatus : Type 0 where
  is_pending succeeded retrying gave_up : DeliveryStatus

pub record WebhookDelivery : Type 0 where
  pub id : Uuid
  pub tenant_id : Uuid
  pub webhook_id : Uuid
  pub event_id : Uuid
  pub event_type : WebhookEventType
  pub payload : String
  pub status : DeliveryStatus
  pub attempt_count : ℕ
  pub next_attempt_at : Option Time
  pub last_attempt_at : Option Time
  pub response_status : Option ℕ
  pub response_body : Option String
  pub error_message : Option String
  pub signature : String

-- The request of `attemptDelivery`: where it goes and the headers that differ between requests.
pub record WebhookPost : Type 0 where
  pub url : String
  pub payload : String
  pub event_id : Uuid
  pub event_type : WebhookEventType
  pub timestamp : ℕ
  pub signature : String

-- The answer's code, and its body cut off at the limit.
pub record WebhookAnswer : Type 0 where
  pub code : ℕ
  pub body : String

pub data DeliveryCall : Type 0 where
  read_clock : Time → DeliveryCall
  drew_id : Uuid → DeliveryCall
  drew_secret : Result String → DeliveryCall
  posted : WebhookPost → Result WebhookAnswer → DeliveryCall
  asked_endpoint : Uuid → Uuid → Result WebhookEndpoint → DeliveryCall
  listed_endpoints : Uuid → ℕ → ℕ → Result (List WebhookEndpoint) → DeliveryCall
  created_endpoint : WebhookEndpoint → Result WebhookEndpoint → DeliveryCall
  updated_endpoint : WebhookEndpoint → Result WebhookEndpoint → DeliveryCall
  deleted_endpoint : Uuid → Uuid → Result (Unit {0}) → DeliveryCall
  asked_delivery : Uuid → Uuid → Result WebhookDelivery → DeliveryCall
  listed_due : Time → ℕ → Result (List WebhookDelivery) → DeliveryCall
  created_delivery : WebhookDelivery → Result WebhookDelivery → DeliveryCall
  updated_delivery : WebhookDelivery → Result WebhookDelivery → DeliveryCall

abbrev pub DeliveryHistory : Type 0
DeliveryHistory = List DeliveryCall

-- `hmac_hex` is HMAC-SHA256 of a text under a key, `show_int` is `%d`, `is_https` is `url.Parse`
-- with the test of scheme and host, `new_request` is `http.NewRequest`, `event_id` reads the ID in
-- a payload, `test_payload` is the JSON of a test event. The repository writes stored rows back.
pub record DeliveryEnv : Type 0 where
  pub hmac_hex : String → String → String
  pub show_int : ℕ → String
  pub is_https : String → Bool
  pub new_request : String → Result (Unit {0})
  pub event_id : String → Option Uuid
  pub test_payload : (event tenant webhook : Uuid) → Time → Result String
  pub clock : DeliveryHistory → Time
  pub new_uuid : DeliveryHistory → Uuid
  pub new_secret : DeliveryHistory → Result String
  pub post : DeliveryHistory → WebhookPost → Result WebhookAnswer
  pub get_endpoint : DeliveryHistory → Uuid → Uuid → Result WebhookEndpoint
  pub list_endpoints : DeliveryHistory → Uuid → ℕ → ℕ → Result (List WebhookEndpoint)
  pub create_endpoint : DeliveryHistory → WebhookEndpoint → Result WebhookEndpoint
  pub update_endpoint : DeliveryHistory → WebhookEndpoint → Result WebhookEndpoint
  pub delete_endpoint : DeliveryHistory → Uuid → Uuid → Result (Unit {0})
  pub get_delivery : DeliveryHistory → Uuid → Uuid → Result WebhookDelivery
  pub list_due : DeliveryHistory → Time → ℕ → Result (List WebhookDelivery)
  pub create_delivery : DeliveryHistory → WebhookDelivery → Result WebhookDelivery
  pub update_delivery : DeliveryHistory → WebhookDelivery → Result WebhookDelivery

-- `SignWebhookPayload`.
unfoldable pub sign_webhook_payload : DeliveryEnv → String → Time → String → String
unfolding append concat
sign_webhook_payload env secret timestamp payload =
    append "v1="
      (env.hmac_hex secret (concat (env.show_int (timestamp / 1_000_000_000) ∷ "." ∷ payload ∷ [])))
