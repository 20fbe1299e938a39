-- ===== src/Onboarding/Sessions.antt =====
-- core/services/whatsapp_onboarding_service.go: sessions, `CompleteOnboardingCallback`, disconnecting.
use spur_messaging.Prelude.{
  String, Bool, true, false, not, ◌==◌, Option, none, some, List, [], ◌∷◌, is_empty, str_eq,
  trim_space,
}
use spur_messaging.Domain.Errors.{sentinel, validation_error, credentials_expired, error_text}
use spur_messaging.Domain.Message.{Uuid, Time}
use spur_messaging.Calls.{Result, ok, err, Op, pure, fail, ◌>>=◌, ◌>>◌, call, draw, attempt, guard}
use spur_messaging.Onboarding.Env.{
  WhatsappAccount, WhatsappPhone, OnboardingSession, TokenExchange, OnboardingCall, OnboardingEnv,
  drew_id, read_clock, asked_account_by_id, exchanged_code, created_session, asked_session,
  asked_session_by_state, set_session_status, failed_session, completed_session, listed_accounts,
  listed_phones, set_active, deleted_account,
}
use spur_messaging.Onboarding.Accounts.{first_non_empty, upsert_provider_config, sync_waba}
use spur_messaging.Onboarding.Sync.{sync_phone_numbers, finalize}

-- ports.CompleteWhatsAppOnboardingRequest.
pub record CallbackRequest : Type 0 where
  pub state : String
  pub code : String
  pub waba_id : String

-- ports.WhatsAppOnboardingResult.
pub record OnboardingResult : Type 0 where
  pub session : OnboardingSession
  pub account : Option WhatsappAccount
  pub phone_numbers : List WhatsappPhone

module _ (env : OnboardingEnv) (tenant_id : Uuid) where
  abbrev state_or_new : String → Bool → Op OnboardingCall String
  state_or_new state true = do id ← draw env.new_uuid drew_id; pure (env.uuid_string id)
  state_or_new state false = pure state

  abbrev pub new_session : Uuid → String → Time → OnboardingSession
  new_session id state now = record {
    id = id;
    tenant_id = tenant_id;
    state = state;
    status = "pending";
    error_message = none;
    completed_at = none;
    created_at = now;
    updated_at = now;
  }

  -- `CreateOnboardingSession`.
  unfoldable pub create_onboarding_session : String → Op OnboardingCall OnboardingSession
  unfolding trim_space
  create_onboarding_session raw = do
    guard (not (tenant_id == 0)) (validation_error "tenant_id" "tenant ID is required")
    state ← state_or_new (trim_space raw) (is_empty (trim_space raw))
    now ← draw env.clock read_clock
    id ← draw env.new_uuid drew_id
    let session = new_session id state now
    call (λ h. env.create_session h session) (created_session session)
    pure session

  abbrev pub note_failure : {A : Type 0} → Uuid → Result A → Op OnboardingCall A
  note_failure id (ok a) = pure a
  note_failure id (err e) = do
    session ← attempt (
        call (λ h. env.fail_session h tenant_id id (error_text e))
          (failed_session tenant_id id (error_text e)))
    fail e

  -- A step of the callback: its error is noted in the session, and is the answer.
  abbrev pub noting : {A : Type 0} → Uuid → Op OnboardingCall A → Op OnboardingCall A
  noting id m = attempt m >>= note_failure id

  abbrev phones_of : OnboardingSession → List WhatsappAccount → Op OnboardingCall OnboardingResult
  phones_of session [] = pure (record { session = session; account = none; phone_numbers = [] })
  phones_of session (account ∷ rest) = do
    phones ←
        call (λ h. env.list_phones_by_waba h tenant_id account.waba_id 1 100)
          (listed_phones tenant_id account.waba_id)
    pure (record { session = session; account = some account; phone_numbers = phones })

  -- `GetOnboardingStatus`, and `completedResult`.
  unfoldable pub onboarding_status : Uuid → Op OnboardingCall OnboardingResult
  onboarding_status id = do
    session ← call (λ h. env.get_session h tenant_id id) (asked_session tenant_id id)
    accounts ← call (λ h. env.list_accounts h tenant_id 1 1) (listed_accounts tenant_id)
    phones_of session accounts

  -- `ExchangeCodeForToken`.
  abbrev pub exchange : String → Op OnboardingCall (Option TokenExchange)
  exchange code = do
    guard (not (is_empty (trim_space code)))
        (validation_error "code" "authorization code is required")
    call (λ h. env.exchange_code h code) (exchanged_code code)

  abbrev pub usable_token : Option TokenExchange → Op OnboardingCall TokenExchange
  usable_token none = fail (sentinel credentials_expired)
  usable_token (some token) = do
    guard (not (is_empty (trim_space token.access_token))) (sentinel credentials_expired)
    pure token

  abbrev pub some_waba : String → Op OnboardingCall (Unit {0})
  some_waba waba_id =
      guard (not (is_empty waba_id)) (validation_error "waba_id" "WABA ID is required")

  abbrev pub link : CallbackRequest → Uuid → TokenExchange → Op OnboardingCall OnboardingResult
  link req id token = do
    let waba_id = first_non_empty req.waba_id token.waba_id
    noting id (some_waba waba_id)
    config_id ← noting id (upsert_provider_config env tenant_id waba_id token.access_token)
    account ← noting id (sync_waba env tenant_id token.access_token waba_id (some config_id))
    phones ← noting id (sync_phone_numbers env tenant_id token.access_token waba_id)
    linked ← noting id (finalize env tenant_id account phones)
    session ← call (λ h. env.complete_session h tenant_id id) (completed_session tenant_id id)
    pure (record { session = session; account = some linked; phone_numbers = phones })

  abbrev pub unless_completed :
      CallbackRequest → (code : String) → Uuid → Bool → Op OnboardingCall OnboardingResult
  unless_completed req code id true = onboarding_status id
  unless_completed req code id false = do
    session ←
        call (λ h. env.update_session_status h tenant_id id "in_progress")
          (set_session_status tenant_id id "in_progress")
    answer ← noting session.id (exchange code)
    token ← noting session.id (usable_token answer)
    link req session.id token

  abbrev pub find_session : String → Op OnboardingCall OnboardingSession
  find_session state =
      call (λ h. env.get_session_by_state h tenant_id state)
        (asked_session_by_state tenant_id state)

  -- `CompleteOnboardingCallback`.
  unfoldable pub complete_callback : CallbackRequest → Op OnboardingCall OnboardingResult
  unfolding trim_space first_non_empty onboarding_status upsert_provider_config sync_waba
      sync_phone_numbers finalize error_text
  complete_callback req = do
    let state = trim_space req.state
    guard (not (is_empty state)) (validation_error "state" "state is required")
    let code = trim_space req.code
    guard (not (is_empty code)) (validation_error "code" "authorization code is required")
    session ← find_session state
    unless_completed req code session.id (str_eq session.status "completed")

  abbrev switch_off : Option Uuid → Op OnboardingCall (Unit {0})
  switch_off none = pure tt
  switch_off (some id) =
      call (λ h. env.update_is_active h tenant_id id false) (set_active tenant_id id false)

  -- `disconnectAccount`.
  abbrev pub disconnect : WhatsappAccount → Op OnboardingCall (Unit {0})
  disconnect account = do
    switch_off account.provider_config_id
    call (λ h. env.delete_account h tenant_id account.id) (deleted_account tenant_id account.id)

  -- `DisconnectWhatsAppAccount`.
  unfoldable pub disconnect_whatsapp_account : Uuid → Op OnboardingCall (Unit {0})
  disconnect_whatsapp_account id = do
    account ← call (λ h. env.get_account_by_id h tenant_id id) (asked_account_by_id tenant_id id)
    disconnect account
