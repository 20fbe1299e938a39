-- ===== src/Deliveries/Safe.antt =====
-- core/services/tenant_webhook_service.go: which endpoints are ever stored.
use spur_messaging.Prelude.{true, ◌≡◌, ◌∷◌, length, leb, arith}
use spur_messaging.Message.Email.{bytes}
use spur_messaging.Domain.Message.{Uuid}
use spur_messaging.Calls.{ok}
use spur_messaging.Deliveries.Env.{
  WebhookEndpoint, DeliveryHistory, DeliveryEnv, created_endpoint, updated_endpoint,
}
use spur_messaging.Deliveries.Endpoints.{
  CreateEndpointRequest, UpdateEndpointRequest, are_valid_events, choose_secret, create_endpoint,
  update_endpoint,
}

module _ (env : DeliveryEnv) where
  -- HTTPS, a secret of 32 bytes at least, and events that exist.
  abbrev pub IsSafe : WebhookEndpoint → Type 0
  IsSafe e =
      (env.is_https e.url ≡ true)
      × (leb 32 (length (bytes e.secret)) ≡ true)
      × (are_valid_events e.events ≡ true)

  -- The last call stored an endpoint of the tenant that is safe.
  abbrev pub IsStored : Uuid → DeliveryHistory → Type 0
  IsStored t (created_endpoint e r ∷ h) = IsSafe e × (e.tenant_id ≡ t)
  IsStored t (updated_endpoint e r ∷ h) = IsSafe e × (e.tenant_id ≡ t)
  IsStored t _ = ⊥

  -- A successful creation stores, as its last call, an endpoint of the tenant with an HTTPS URL, a
  -- secret of at least 32 bytes and no event that does not exist.
  pub create_endpoint-IsStored :
      (tenant_id : Uuid) (req : CreateEndpointRequest) (h : DeliveryHistory) {row : WebhookEndpoint}
      → (create_endpoint env tenant_id req h).0 ≡ ok row
      → IsStored tenant_id (create_endpoint env tenant_id req h).1
  unfolding create_endpoint choose_secret
  create_endpoint-IsStored tenant_id req h e = ground arith

  -- A successful update of an endpoint of the tenant with an HTTPS URL, a secret of at least 32
  -- bytes and no event that does not exist stores, as its last call, one of which the same holds,
  -- whichever fields the request replaces.
  pub update_endpoint-IsStored :
      (tenant_id id : Uuid) (req : UpdateEndpointRequest) (h : DeliveryHistory)
      {old row : WebhookEndpoint}
      → env.get_endpoint h tenant_id id ≡ ok old
      → IsSafe old
      → old.tenant_id ≡ tenant_id
      → (update_endpoint env tenant_id id req h).0 ≡ ok row
      → IsStored tenant_id (update_endpoint env tenant_id id req h).1
  unfolding update_endpoint choose_secret
  update_endpoint-IsStored tenant_id id req h found safe own e = ground arith
