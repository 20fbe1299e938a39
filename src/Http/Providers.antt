-- ===== src/Http/Providers.antt =====
-- adapters/http/provider_handler.go and adapters/http/whatsapp_onboarding_handler.go.
use spur_messaging.Prelude.{
  String, Bool, true, false, not, Option, none, some, [], ◌∷◌, is_empty, trim_space,
}
use spur_messaging.Prelude.Int.{ℤ}
use spur_messaging.Domain.Errors.{conflict_error}
use spur_messaging.Domain.Message.{Uuid, Channel, is_whatsapp, text}
use spur_messaging.Calls.{Result, ok, err}
use spur_messaging.Http.Steps.{
  Handling, Payload, done, Success, pure, ◌>>=◌, ◌>>◌, lift, call, require, check, decode, ask,
  permitted, tenant_permitted, by_id, path_id, pagination_from_request, service_value, status_word,
  session_value, respond_ok, respond_created, respond_list, pagination_of,
}
use spur_messaging.Message.Env.{SendRequest}
use spur_messaging.Registry.Lookup.{ProviderConfig}
use spur_messaging.Identity.Permissions.{providers_read, providers_write, providers_test}
use spur_messaging.Api.Validate.{validate_channel}
use spur_messaging.Http.Env.{
  Request, Operation, Answer, HttpEnv, asked_channel, asked_provider, created_provider,
  updated_provider, created_session, send_message, list_providers, get_provider_config,
  delete_provider, complete_onboarding, get_onboarding, get_account, sync_account,
  disconnect_account, sync_phone, list_accounts, list_phones,
}

-- `err == nil && existing != nil && existing.IsActive`.
abbrev pub is_active_config : Result (Option ProviderConfig) → Bool
is_active_config (ok (some cfg)) = cfg.is_active
is_active_config (ok none) = false
is_active_config (err e) = false

-- What `CreateProvider` asks of a WhatsApp configuration.
abbrev pub require_whatsapp : ProviderConfig → Bool → Handling (Unit {0})
require_whatsapp cfg false = pure tt
require_whatsapp cfg true = do
  require (not (is_empty cfg.phone_number_id)) "phone_number_id"
      "phone_number_id is required for WhatsApp"
  require (not (is_empty cfg.waba_id)) "waba_id" "waba_id is required for WhatsApp"

-- The message that `TestProvider` sends.
abbrev pub test_message : Channel → (recipient message : String) → SendRequest
test_message channel recipient message = record {
  channel = channel;
  recipient = recipient;
  message_type = text;
  template_name = none;
  template_language = none;
  template_params = [];
  text_body = some message;
  media_url = none;
  media_type = none;
  idempotency_key = "";
  metadata = [];
  from_email = "";
  from_name = "";
  reply_to = "";
  track_opens = none;
  track_clicks = none;
  sender_id = "";
  cc = [];
  bcc = [];
}

module _ (env : HttpEnv) (req : Request) where
  -- A call whose error the handler looks at.
  abbrev ask_channel : Uuid → Channel → Handling (Result (Option ProviderConfig))
  ask_channel t channel h =
      let r = env.get_by_channel h t channel in (done r, asked_channel t channel r ∷ h)

  -- `CreateProvider`.
  unfoldable pub handle_create_provider : Handling Success
  handle_create_provider = permitted req providers_write (λ t. do
    cfg ← decode (env.decode_provider req.body)
    lift (validate_channel cfg.channel)
    existing ← ask_channel t cfg.channel
    check (not (is_active_config existing)) (conflict_error "active config for this channel exists")
    require_whatsapp cfg (is_whatsapp cfg.channel)
    let own = record cfg { tenant_id = t }
    answer ← call (λ h. env.create_provider h own) (created_provider own)
    respond_created (service_value answer))

  -- `ListProviders`.
  unfoldable pub handle_list_providers : Handling Success
  handle_list_providers =
      permitted req providers_read
        (λ t. do answer ← ask env t list_providers; respond_ok (service_value answer))

  -- `GetProvider`.
  unfoldable pub handle_get_provider : Handling Success
  handle_get_provider = by_id env req providers_read get_provider_config service_value

  -- `UpdateProvider`.
  unfoldable pub handle_update_provider : Handling Success
  handle_update_provider = permitted req providers_write (λ t. do
    id ← path_id env req "id" "id"
    cfg ← decode (env.decode_provider req.body)
    lift (validate_channel cfg.channel)
    let own = record cfg { id = id; tenant_id = t }
    answer ← call (λ h. env.update_provider h own) (updated_provider own)
    respond_ok (service_value answer))

  -- `DeleteProvider`.
  unfoldable pub handle_delete_provider : Handling Success
  handle_delete_provider =
      by_id env req providers_write delete_provider (λ a. status_word "deleted")

  -- `TestProvider`.
  unfoldable pub handle_test_provider : Handling Success
  handle_test_provider = permitted req providers_test (λ t. do
    id ← path_id env req "id" "id"
    body ← decode (env.decode_provider_test req.body)
    cfg ← call (λ h. env.get_provider h t id) (asked_provider t id)
    answer ← ask env t (send_message (test_message cfg.channel body.recipient body.message))
    respond_ok (status_word "test message sent"))

  -- `Config` opens a session; the fixed values of its answer are left out.
  unfoldable pub handle_onboarding_config : Handling Success
  handle_onboarding_config = tenant_permitted req providers_write (λ t. do
    session ← call (λ h. env.create_session h t "") (created_session t "")
    respond_ok (session_value session))

  -- `decodeOptionalJSON`.
  abbrev optional_state : Bool → Handling String
  optional_state true = decode (env.decode_state req.body)
  optional_state false = pure ""

  -- `CreateSession`.
  unfoldable pub handle_create_session : Handling Success
  handle_create_session = tenant_permitted req providers_write (λ t. do
    state ← optional_state req.has_body
    session ← call (λ h. env.create_session h t state) (created_session t state)
    respond_created (session_value session))

  -- `Callback`.
  unfoldable pub handle_callback : Handling Success
  handle_callback = tenant_permitted req providers_write (λ t. do
    body ← decode (env.decode_callback req.body)
    require (not (is_empty (trim_space body.state))) "state" "state is required"
    require (not (is_empty (trim_space body.code))) "code" "code is required"
    answer ← ask env t (complete_onboarding body)
    respond_ok (service_value answer))

  abbrev one : String → (Uuid → Operation) → (Answer → Payload) → Handling Success
  one permission op payload = tenant_permitted req permission (λ t. do
    id ← path_id env req "id" "id"
    answer ← ask env t (op id)
    respond_ok (payload answer))

  abbrev page : (ℤ → ℤ → Operation) → Handling Success
  page op = tenant_permitted req providers_read (λ t. do
    pages ← pagination_from_request env req
    answer ← ask env t (op pages.0 pages.1)
    respond_list answer (pagination_of pages.0 pages.1 answer.total))

  -- `GetSession`.
  unfoldable pub handle_get_session : Handling Success
  handle_get_session = one providers_read get_onboarding service_value

  -- `ListAccounts`.
  unfoldable pub handle_list_accounts : Handling Success
  unfolding pagination_from_request
  handle_list_accounts = page list_accounts

  -- `GetAccount`.
  unfoldable pub handle_get_account : Handling Success
  handle_get_account = one providers_read get_account service_value

  -- `SyncAccount`.
  unfoldable pub handle_sync_account : Handling Success
  handle_sync_account = one providers_write sync_account service_value

  -- `DeleteAccount`.
  unfoldable pub handle_delete_account : Handling Success
  handle_delete_account = one providers_write disconnect_account (λ a. status_word "disconnected")

  -- `ListPhoneNumbers`.
  unfoldable pub handle_list_phones : Handling Success
  unfolding pagination_from_request
  handle_list_phones = page list_phones

  -- `SyncPhoneNumber`.
  unfoldable pub handle_sync_phone : Handling Success
  handle_sync_phone = one providers_write sync_phone service_value
