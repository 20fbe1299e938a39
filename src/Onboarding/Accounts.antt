-- ===== src/Onboarding/Accounts.antt =====
-- core/services/whatsapp_onboarding_service.go: owners, defaults, `upsertProviderConfig`, `SyncWABA`.
use spur_messaging.Prelude.{
  String, Bool, true, false, not, ◌==◌, Option, none, some, List, [], ◌∷◌, is_empty, trim_space,
  if◌then◌else◌,
}
use spur_messaging.Domain.Errors.{
  GoError, sentinel, not_found, is_error, validation_error, conflict_error, new_provider_error,
  credentials_expired,
}
use spur_messaging.Domain.Message.{Uuid, Time, whatsapp}
use spur_messaging.Calls.{Result, ok, err, Op, pure, fail, ◌>>=◌, ◌>>◌, call, draw, attempt, guard}
use spur_messaging.Contacts.Keywords.{is_one_of}
use spur_messaging.Registry.Lookup.{ProviderConfig}
use spur_messaging.Onboarding.Env.{
  WhatsappAccount, AccountInfo, OnboardingCall, OnboardingEnv, drew_id, read_clock,
  asked_waba_owner, asked_phone_owner, asked_waba, encrypted, asked_channel, created_config,
  updated_config, asked_account, created_account, synced_account,
}

-- `firstNonEmptyString` of two values.
unfoldable pub first_non_empty : String → String → String
unfolding trim_space
first_non_empty a b = if is_empty (trim_space a) then trim_space b else trim_space a

-- A status that the code knows, or "unknown".
abbrev pub known_or_unknown : List String → String → String
known_or_unknown known s = if is_one_of s known then s else "unknown"

abbrev pub verification_statuses : List String
verification_statuses = "not_verified" ∷ "pending" ∷ "verified" ∷ "rejected" ∷ "unknown" ∷ []

-- No owner, or the tenant itself.
abbrev pub check_owner : Uuid → String → Result ProviderConfig → Op OnboardingCall (Unit {0})
check_owner t message (ok cfg) h = guard (cfg.tenant_id == t) (conflict_error message) h
check_owner t message (err e) h = guard (is_error e not_found) e h

module _ (env : OnboardingEnv) (tenant_id : Uuid) where
  abbrev ask_waba_owner : String → Bool → Op OnboardingCall (Unit {0})
  ask_waba_owner waba_id true = pure tt
  ask_waba_owner waba_id false = do
    owner ← attempt (call (λ h. env.get_by_waba_id h waba_id) (asked_waba_owner waba_id))
    check_owner tenant_id "WhatsApp Business Account is already linked to another tenant" owner

  -- `ensureWABANotLinkedToAnotherTenant`.
  unfoldable pub ensure_waba : String → Op OnboardingCall (Unit {0})
  unfolding trim_space is_error
  ensure_waba waba_id = ask_waba_owner waba_id (is_empty (trim_space waba_id))

  abbrev ask_phone_owner : String → Bool → Op OnboardingCall (Unit {0})
  ask_phone_owner phone_id true = pure tt
  ask_phone_owner phone_id false = do
    owner ← attempt (call (λ h. env.get_by_phone_number_id h phone_id) (asked_phone_owner phone_id))
    check_owner tenant_id "WhatsApp phone number is already linked to another tenant" owner

  -- `ensurePhoneNumberNotLinkedToAnotherTenant`.
  unfoldable pub ensure_phone : String → Op OnboardingCall (Unit {0})
  unfolding trim_space is_error
  ensure_phone phone_id = ask_phone_owner phone_id (is_empty (trim_space phone_id))

  abbrev pub new_config : Uuid → String → String → ProviderConfig
  new_config id waba_id credentials = record {
    id = id;
    tenant_id = tenant_id;
    channel = whatsapp;
    provider = "meta_cloud";
    credentials = credentials;
    webhook_secret = "";
    is_active = true;
    phone_number_id = "";
    waba_id = waba_id;
    business_id = "";
    display_phone = "";
    from_email = "";
    from_name = "";
    reply_to_email = "";
    track_opens = none;
    track_clicks = none;
  }

  abbrev create_config : String → String → Op OnboardingCall Uuid
  create_config waba_id credentials = do
    id ← draw env.new_uuid drew_id
    let cfg = new_config id waba_id credentials
    call (λ h. env.create_config h cfg) (created_config cfg)
    pure id

  abbrev create_config_if : String → String → GoError → Bool → Op OnboardingCall Uuid
  create_config_if waba_id credentials e true = create_config waba_id credentials
  create_config_if waba_id credentials e false = fail e

  abbrev pub keep_config : String → String → Result (Option ProviderConfig) → Op OnboardingCall Uuid
  keep_config waba_id credentials (ok (some cfg)) = do
    let changed = record cfg {
      provider = "meta_cloud";
      credentials = credentials;
      waba_id = waba_id;
      is_active = true;
    }
    call (λ h. env.update_config h changed) (updated_config changed)
    pure cfg.id
  keep_config waba_id credentials (ok none) = create_config waba_id credentials
  keep_config waba_id credentials (err e) =
      create_config_if waba_id credentials e (is_error e not_found)

  -- `upsertProviderConfig`.
  unfoldable pub upsert_provider_config : (waba_id token : String) → Op OnboardingCall Uuid
  unfolding ensure_waba is_error
  upsert_provider_config waba_id token = do
    ensure_waba waba_id
    credentials ← call (λ h. env.encrypt h token) (encrypted token)
    existing ← attempt (call (λ h. env.get_by_channel h tenant_id) (asked_channel tenant_id))
    keep_config waba_id credentials existing

  abbrev pub account_of : Uuid → Time → AccountInfo → String → Option Uuid → WhatsappAccount
  account_of id now info waba_id config_id = record {
    id = id;
    tenant_id = tenant_id;
    meta_business_id = first_non_empty info.meta_business_id info.id;
    waba_id = first_non_empty info.id waba_id;
    name = info.name;
    currency = info.currency;
    timezone_id = info.timezone_id;
    business_verification_status =
        known_or_unknown verification_statuses info.business_verification_status;
    onboarding_status = "in_progress";
    provider_config_id = config_id;
    last_synced_at = some now;
    created_at = now;
    updated_at = now;
  }

  abbrev insert_account : WhatsappAccount → Op OnboardingCall WhatsappAccount
  insert_account account = do
    call (λ h. env.create_account h account) (created_account account)
    pure account

  abbrev insert_account_if : WhatsappAccount → GoError → Bool → Op OnboardingCall WhatsappAccount
  insert_account_if account e true = insert_account account
  insert_account_if account e false = fail e

  abbrev pub keep_account :
      WhatsappAccount → Result (Option WhatsappAccount) → Op OnboardingCall WhatsappAccount
  keep_account account (ok (some old)) =
      let changed = record account { id = old.id; created_at = old.created_at } in
      call (λ h. env.sync_account h changed) (synced_account changed)
  keep_account account (ok none) = insert_account account
  keep_account account (err e) = insert_account_if account e (is_error e not_found)

  abbrev pub present : Option AccountInfo → Op OnboardingCall AccountInfo
  present none = fail (new_provider_error "Meta WABA response is empty")
  present (some info) = pure info

  -- `SyncWABA`.
  unfoldable pub sync_waba : (token raw : String) → Option Uuid → Op OnboardingCall WhatsappAccount
  unfolding trim_space ensure_waba first_non_empty is_error
  sync_waba token raw config_id = do
    let waba_id = trim_space raw
    guard (not (is_empty waba_id)) (validation_error "waba_id" "WABA ID is required")
    guard (not (is_empty (trim_space token))) (sentinel credentials_expired)
    ensure_waba waba_id
    answer ← call (λ h. env.get_waba h token waba_id) (asked_waba waba_id)
    info ← present answer
    now ← draw env.clock read_clock
    id ← draw env.new_uuid drew_id
    let account = account_of id now info waba_id config_id
    existing ← attempt (
        call (λ h. env.get_account h tenant_id account.waba_id)
          (asked_account tenant_id account.waba_id))
    keep_account account existing
