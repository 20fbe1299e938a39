-- ===== src/Deliveries/Tests.antt =====
-- core/services/tenant_webhook_service.go on one environment: an endpoint that answers with 503.
use spur_messaging.Prelude.{true, false, refl, none, some, [], ◌∷◌, trim_space}
use spur_messaging.Message.Email.{bytes}
use spur_messaging.Domain.Errors.{sentinel, not_found}
use spur_messaging.Domain.Event.{message_sent, message_failed}
use spur_messaging.Calls.{ok, err}
use spur_messaging.Deliveries.Env.{WebhookEndpoint, WebhookDelivery, is_pending, DeliveryEnv}
use spur_messaging.Deliveries.Endpoints.{
  CreateEndpointRequest, UpdateEndpointRequest, create_endpoint, update_endpoint, choose_secret,
}
use spur_messaging.Deliveries.Safe.{IsStored, create_endpoint-IsStored, update_endpoint-IsStored}

abbrev endpoint : WebhookEndpoint
endpoint = record {
  id = 2;
  tenant_id = 7;
  url = "https://example.com/hook";
  secret = "0123456789abcdef0123456789abcdef";
  events = message_sent ∷ [];
  is_active = true;
}

abbrev env : DeliveryEnv
env = record {
  hmac_hex = λ k s. s;
  show_int = λ n. "0";
  is_https = λ u. true;
  new_request = λ u. ok tt;
  event_id = λ p. none;
  test_payload = λ e t w now. ok "{}";
  clock = λ h. 1000;
  new_uuid = λ h. 9;
  new_secret = λ h. ok "0123456789abcdef0123456789abcdef";
  post = λ h p. ok (record { code = 503; body = "" });
  get_endpoint = λ h t id. ok endpoint;
  list_endpoints = λ h t p n. ok (endpoint ∷ []);
  create_endpoint = λ h e. ok e;
  update_endpoint = λ h e. ok e;
  delete_endpoint = λ h t id. ok tt;
  get_delivery = λ h t id. err (sentinel not_found);
  list_due = λ h now n. ok [];
  create_delivery = λ h d. ok d;
  update_delivery = λ h d. ok d;
}

-- Four attempts have failed, so the next one is the last.
abbrev delivery : WebhookDelivery
delivery = record {
  id = 3;
  tenant_id = 7;
  webhook_id = 2;
  event_id = 4;
  event_type = message_sent;
  payload = "{}";
  status = is_pending;
  attempt_count = 4;
  next_attempt_at = none;
  last_attempt_at = none;
  response_status = none;
  response_body = none;
  error_message = none;
  signature = "";
}

abbrev create_request : CreateEndpointRequest
create_request = record {
  url = "https://example.com/hook";
  secret = " ";
  events = message_sent ∷ [];
}

create_endpoint-IsStored_example : IsStored env 7 (create_endpoint env 7 create_request []).1
unfolding create_endpoint choose_secret trim_space bytes
create_endpoint-IsStored_example =
    create_endpoint-IsStored env 7 create_request [] {row = record endpoint { id = 9 }} refl

abbrev update_request : UpdateEndpointRequest
update_request = record {
  url = none;
  secret = none;
  events = some (message_failed ∷ []);
  is_active = some false;
}

update_endpoint-IsStored_example : IsStored env 7 (update_endpoint env 7 2 update_request []).1
unfolding update_endpoint choose_secret trim_space bytes
update_endpoint-IsStored_example =
    update_endpoint-IsStored env 7 2 update_request [] {old = endpoint}
      {row = record endpoint { events = message_failed ∷ []; is_active = false }} refl
      (refl, refl, refl) refl refl
