-- ===== src/Onboarding/Commands.antt =====
-- core/services/whatsapp_onboarding_service.go: `SyncWhatsAppPhoneNumber`, `DisconnectWABA`, and what a
-- client may ask.
use spur_messaging.Prelude.{
  String, not, ◌==◌, ◌||◌, Option, none, some, List, [], ◌∷◌, is_empty, str_eq, trim_space,
  if◌then◌else◌,
}
use spur_messaging.Domain.Errors.{other, validation_error}
use spur_messaging.Domain.Message.{Uuid}
use spur_messaging.Calls.{Op, pure, fail, ◌>>=◌, ◌>>◌, call, attempt, guard}
use spur_messaging.Onboarding.Env.{
  WhatsappAccount, WhatsappPhone, OnboardingCall, OnboardingEnv, asked_account, asked_phone_by_id,
}
use spur_messaging.Onboarding.Sync.{
  access_token, sync_phone_numbers, finalize, sync_whatsapp_account,
}
use spur_messaging.Onboarding.Sessions.{
  CallbackRequest, create_onboarding_session, complete_callback, disconnect,
  disconnect_whatsapp_account,
}

-- The first of the numbers that has the row's ID or its number.
unfoldable pub find_phone : WhatsappPhone → List WhatsappPhone → Option WhatsappPhone
find_phone phone [] = none
find_phone phone (p ∷ ps) =
    let rest = find_phone phone ps in
    if (p.id == phone.id) || str_eq p.phone_number_id phone.phone_number_id then some p else rest

module _ (env : OnboardingEnv) (tenant_id : Uuid) where
  -- A nil account is dereferenced, which panics: nothing is called any more.
  abbrev not_nil : Option WhatsappAccount → Op OnboardingCall WhatsappAccount
  not_nil none = fail (other "nil pointer dereference")
  not_nil (some account) = pure account

  -- `GetWhatsAppBusinessAccountByWABAID`.
  abbrev pub account_of_waba : String → Op OnboardingCall WhatsappAccount
  account_of_waba waba_id =
      call (λ h. env.get_account h tenant_id waba_id) (asked_account tenant_id waba_id) >>= not_nil

  -- `GetWhatsAppPhoneNumber`.
  abbrev pub phone_by_id : Uuid → Op OnboardingCall WhatsappPhone
  phone_by_id id = call (λ h. env.get_phone_by_id h tenant_id id) (asked_phone_by_id tenant_id id)

  -- The end of the loop: the number was found, and the outcome of finalizing is dropped, or it was not.
  abbrev pub answer_phone :
      Uuid
      → WhatsappAccount
      → List WhatsappPhone
      → Option WhatsappPhone
      → Op OnboardingCall WhatsappPhone
  answer_phone id account phones none = phone_by_id id
  answer_phone id account phones (some p) = do
    finalized ← attempt (finalize env tenant_id account phones)
    pure p

  -- `SyncWhatsAppPhoneNumber`.
  unfoldable pub sync_whatsapp_phone_number : Uuid → Op OnboardingCall WhatsappPhone
  unfolding access_token sync_phone_numbers find_phone finalize
  sync_whatsapp_phone_number id = do
    phone ← phone_by_id id
    account ← account_of_waba phone.waba_id
    token ← access_token env tenant_id account
    phones ← sync_phone_numbers env tenant_id token account.waba_id
    answer_phone id account phones (find_phone phone phones)

  -- `DisconnectWABA`.
  unfoldable pub disconnect_waba : String → Op OnboardingCall (Unit {0})
  unfolding trim_space
  disconnect_waba raw = do
    let waba_id = trim_space raw
    guard (not (is_empty waba_id)) (validation_error "waba_id" "WABA ID is required")
    account ← account_of_waba waba_id
    disconnect env tenant_id account

-- What a client may ask of the service.
pub data Command : Type 0 where
  asks_session : String → Command
  asks_callback : CallbackRequest → Command
  asks_sync asks_disconnect asks_phone_sync : Uuid → Command
  asks_waba_disconnect : (waba_id : String) → Command

-- The request's calls; its answer is dropped.
unfoldable pub obey_onboarding : OnboardingEnv → Uuid → Command → Op OnboardingCall (Unit {0})
unfolding create_onboarding_session complete_callback sync_whatsapp_account
    disconnect_whatsapp_account sync_whatsapp_phone_number disconnect_waba
obey_onboarding env t (asks_session state) = create_onboarding_session env t state >>= λ _. pure tt
obey_onboarding env t (asks_callback req) = complete_callback env t req >>= λ _. pure tt
obey_onboarding env t (asks_sync id) = sync_whatsapp_account env t id >>= λ _. pure tt
obey_onboarding env t (asks_disconnect id) = disconnect_whatsapp_account env t id
obey_onboarding env t (asks_phone_sync id) = sync_whatsapp_phone_number env t id >>= λ _. pure tt
obey_onboarding env t (asks_waba_disconnect waba_id) = disconnect_waba env t waba_id
