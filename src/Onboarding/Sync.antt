-- ===== src/Onboarding/Sync.antt =====
-- core/services/whatsapp_onboarding_service.go: `SyncPhoneNumbers`, `finalizeWhatsAppAccountSync`,
-- `accessTokenForAccount` and `SyncWhatsAppAccount`.
use spur_messaging.Prelude.{
  String, Bool, true, false, not, ◌&&◌, ◌||◌, Option, none, some, List, [], ◌∷◌, is_empty, str_eq,
  trim_space, if◌then◌else◌,
}
use spur_messaging.Domain.Errors.{
  GoError, sentinel, not_found, is_error, validation_error, new_provider_error, credentials_expired,
  provider_not_configured,
}
use spur_messaging.Domain.Message.{Uuid, Time}
use spur_messaging.Calls.{Result, ok, err, Op, pure, fail, ◌>>=◌, ◌>>◌, call, draw, attempt, guard}
use spur_messaging.Onboarding.Env.{
  WhatsappAccount, WhatsappPhone, PhoneInfo, OnboardingCall, OnboardingEnv, drew_id, read_clock,
  asked_phones, decrypted, asked_config, updated_config, set_account_status, asked_phone,
  created_phone, synced_phone, asked_account_by_id,
}
use spur_messaging.Onboarding.Accounts.{ensure_phone, sync_waba, known_or_unknown}

abbrev pub quality_ratings : List String
quality_ratings = "green" ∷ "yellow" ∷ "red" ∷ "unknown" ∷ []

abbrev pub phone_statuses : List String
phone_statuses =
    "pending_verification" ∷ "connected" ∷ "disconnected" ∷ "flagged" ∷ "restricted" ∷ "banned"
    ∷ "unknown" ∷ []

abbrev pub code_statuses : List String
code_statuses = "not_verified" ∷ "pending" ∷ "verified" ∷ "failed" ∷ "expired" ∷ "unknown" ∷ []

-- `isUsableWhatsAppPhoneNumber`.
unfoldable pub is_usable_phone : WhatsappPhone → Bool
unfolding trim_space
is_usable_phone p =
    not (is_empty (trim_space p.phone_number_id))
    && str_eq p.status "connected"
    && (str_eq p.code_verification_status "verified" || str_eq p.code_verification_status "unknown")

-- `firstUsableWhatsAppPhoneNumber`.
unfoldable pub first_usable : List WhatsappPhone → Option WhatsappPhone
unfolding is_usable_phone
first_usable [] = none
first_usable (p ∷ ps) = let rest = first_usable ps in if is_usable_phone p then some p else rest

module _ (env : OnboardingEnv) (tenant_id : Uuid) where
  abbrev pub phone_of : Uuid → Time → String → PhoneInfo → WhatsappPhone
  phone_of id now waba_id info = record {
    id = id;
    tenant_id = tenant_id;
    waba_id = waba_id;
    phone_number_id = info.id;
    display_phone_number = info.display_phone_number;
    verified_name = info.verified_name;
    quality_rating = known_or_unknown quality_ratings info.quality_rating;
    messaging_limit_tier = info.messaging_limit_tier;
    status = known_or_unknown phone_statuses info.status;
    code_verification_status = known_or_unknown code_statuses info.code_verification_status;
    last_synced_at = some now;
    created_at = now;
    updated_at = now;
  }

  abbrev insert_phone : WhatsappPhone → Op OnboardingCall WhatsappPhone
  insert_phone phone = do call (λ h. env.create_phone h phone) (created_phone phone); pure phone

  abbrev insert_phone_if : WhatsappPhone → GoError → Bool → Op OnboardingCall WhatsappPhone
  insert_phone_if phone e true = insert_phone phone
  insert_phone_if phone e false = fail e

  abbrev pub keep_phone :
      WhatsappPhone → Result (Option WhatsappPhone) → Op OnboardingCall WhatsappPhone
  keep_phone phone (ok (some old)) =
      let changed = record phone { id = old.id; created_at = old.created_at } in
      call (λ h. env.sync_phone h changed) (synced_phone changed)
  keep_phone phone (ok none) = insert_phone phone
  keep_phone phone (err e) = insert_phone_if phone e (is_error e not_found)

  -- One round of the loop, for a number that has an ID.
  unfoldable pub sync_one : Time → (waba_id : String) → PhoneInfo → Op OnboardingCall WhatsappPhone
  unfolding ensure_phone is_error
  sync_one now waba_id info = do
    ensure_phone env tenant_id info.id
    id ← draw env.new_uuid drew_id
    let phone = phone_of id now waba_id info
    existing ←
        attempt (call (λ h. env.get_phone h tenant_id info.id) (asked_phone tenant_id info.id))
    keep_phone phone existing

  abbrev pub unless_no_id :
      Op OnboardingCall WhatsappPhone
      → Op OnboardingCall (List WhatsappPhone)
      → Bool
      → Op OnboardingCall (List WhatsappPhone)
  unless_no_id one rest true = rest
  unless_no_id one rest false = do phone ← one; phones ← rest; pure (phone ∷ phones)

  -- The loop: a number without an ID is passed over.
  unfoldable pub sync_each :
      Time → (waba_id : String) → List PhoneInfo → Op OnboardingCall (List WhatsappPhone)
  unfolding trim_space sync_one
  sync_each now waba_id [] = pure []
  sync_each now waba_id (info ∷ infos) =
      unless_no_id (sync_one now waba_id info) (sync_each now waba_id infos)
        (is_empty (trim_space info.id))

  -- `SyncPhoneNumbers`.
  unfoldable pub sync_phone_numbers : (token raw : String) → Op OnboardingCall (List WhatsappPhone)
  unfolding trim_space sync_each
  sync_phone_numbers token raw = do
    let waba_id = trim_space raw
    guard (not (is_empty waba_id)) (validation_error "waba_id" "WABA ID is required")
    guard (not (is_empty (trim_space token))) (sentinel credentials_expired)
    infos ← call (λ h. env.list_phone_numbers h token waba_id) (asked_phones waba_id)
    now ← draw env.clock read_clock
    sync_each now waba_id infos

  abbrev set_status : WhatsappAccount → String → Op OnboardingCall WhatsappAccount
  set_status account status =
      call
        (λ h.
          env.update_account_status h tenant_id account.id account.business_verification_status
            status)
        (set_account_status tenant_id account.id account.business_verification_status status)

  -- The provider configuration learns the account and the number.
  unfoldable pub configure :
      WhatsappAccount → WhatsappPhone → Option Uuid → Op OnboardingCall (Unit {0})
  configure account phone none = pure tt
  configure account phone (some id) = do
    cfg ← call (λ h. env.get_config h tenant_id id) (asked_config tenant_id id)
    let changed = record cfg {
      waba_id = account.waba_id;
      business_id = account.meta_business_id;
      phone_number_id = phone.phone_number_id;
      display_phone = phone.display_phone_number;
      is_active = true;
    }
    call (λ h. env.update_config h changed) (updated_config changed)

  abbrev pub finish_sync :
      WhatsappAccount → Option WhatsappPhone → Op OnboardingCall WhatsappAccount
  finish_sync account none = do
    status ← attempt (set_status account "in_progress")
    fail (validation_error "phone_numbers" "no usable WhatsApp phone number found for this WABA")
  finish_sync account (some phone) = do
    ensure_phone env tenant_id phone.phone_number_id
    configure account phone account.provider_config_id
    set_status account "completed"

  -- `finalizeWhatsAppAccountSync`.
  unfoldable pub finalize : WhatsappAccount → List WhatsappPhone → Op OnboardingCall WhatsappAccount
  unfolding first_usable ensure_phone configure
  finalize account phones = finish_sync account (first_usable phones)

  abbrev token_of : Option String → Op OnboardingCall String
  token_of none = fail (sentinel credentials_expired)
  token_of (some token) = do
    guard (not (is_empty (trim_space token))) (sentinel credentials_expired)
    pure token

  abbrev config_token : Option Uuid → Op OnboardingCall String
  config_token none = fail (sentinel provider_not_configured)
  config_token (some id) = do
    cfg ← call (λ h. env.get_config h tenant_id id) (asked_config tenant_id id)
    guard cfg.is_active (sentinel provider_not_configured)
    guard env.has_cipher (new_provider_error "credential encryption is not configured")
    plain ← draw (λ h. env.decrypt h cfg.credentials) (decrypted cfg.credentials)
    token_of plain

  -- `accessTokenForAccount`.
  unfoldable pub access_token : WhatsappAccount → Op OnboardingCall String
  unfolding trim_space
  access_token account = config_token account.provider_config_id

  -- `SyncWhatsAppAccount`.
  unfoldable pub sync_whatsapp_account :
      Uuid → Op OnboardingCall (WhatsappAccount × List WhatsappPhone)
  unfolding access_token sync_waba sync_phone_numbers finalize
  sync_whatsapp_account id = do
    account ← call (λ h. env.get_account_by_id h tenant_id id) (asked_account_by_id tenant_id id)
    token ← access_token account
    synced ← sync_waba env tenant_id token account.waba_id account.provider_config_id
    phones ← sync_phone_numbers token synced.waba_id
    done ← finalize synced phones
    pure (done, phones)
