-- ===== src/Onboarding/Tests.antt =====
-- core/services/whatsapp_onboarding_service.go on one environment: an account with one number.
use spur_messaging.Prelude.{ℕ, Option, true, ◌≡◌, refl, none, some, [], ◌∷◌}
use spur_messaging.Domain.Errors.{sentinel, not_found, already_exists, domain_error}
use spur_messaging.Domain.Message.{whatsapp}
use spur_messaging.Calls.{Result, ok, err}
use spur_messaging.Registry.Lookup.{ProviderConfig, platform_config}
use spur_messaging.Onboarding.Env.{
  WhatsappAccount, WhatsappPhone, AccountInfo, PhoneInfo, OnboardingSession, OnboardingEnv,
}
use spur_messaging.Onboarding.Accounts.{ensure_phone}
use spur_messaging.Onboarding.Sync.{phone_of}
use spur_messaging.Onboarding.Sessions.{CallbackRequest, OnboardingResult, complete_callback}
use spur_messaging.Onboarding.Commands.{sync_whatsapp_phone_number, disconnect_waba}

abbrev own : ProviderConfig
own = record (platform_config ℕ 7 whatsapp "meta_cloud" none) { id = 3; credentials = "sealed" }

abbrev account : WhatsappAccount
account = record {
  id = 5;
  tenant_id = 7;
  meta_business_id = "b";
  waba_id = "w";
  name = "Shop";
  currency = "INR";
  timezone_id = "1";
  business_verification_status = "verified";
  onboarding_status = "in_progress";
  provider_config_id = some 3;
  last_synced_at = none;
  created_at = 0;
  updated_at = 0;
}

abbrev info : AccountInfo
info = record {
  id = "other";
  meta_business_id = "";
  name = "Shop";
  currency = "INR";
  timezone_id = "1";
  business_verification_status = "verified";
}

abbrev number : PhoneInfo
number = record {
  id = "p";
  display_phone_number = "+91";
  verified_name = "Shop";
  quality_rating = "green";
  messaging_limit_tier = "";
  status = "connected";
  code_verification_status = "verified";
}

abbrev stored : WhatsappPhone
stored = record {
  id = 4;
  tenant_id = 7;
  waba_id = "w";
  phone_number_id = "p";
  display_phone_number = "+91";
  verified_name = "Shop";
  quality_rating = "yellow";
  messaging_limit_tier = "";
  status = "connected";
  code_verification_status = "verified";
  last_synced_at = none;
  created_at = 0;
  updated_at = 0;
}

abbrev session : OnboardingSession
session = record {
  id = 2;
  tenant_id = 7;
  state = "s";
  status = "pending";
  error_message = none;
  completed_at = none;
  created_at = 0;
  updated_at = 0;
}

abbrev callback : CallbackRequest
callback = record { state = "s"; code = "c"; waba_id = "" }

abbrev env : OnboardingEnv
env = record {
  new_uuid = λ h. 9;
  clock = λ h. 1000;
  get_by_waba_id = λ h id. err (sentinel not_found);
  get_by_phone_number_id = λ h id. ok own;
  get_waba = λ h token id. ok (some info);
  list_phone_numbers = λ h token id. ok (number ∷ []);
  encrypt = λ h s. ok "sealed";
  has_cipher = true;
  decrypt = λ h s. some "token";
  get_by_channel = λ h t. ok (some own);
  get_config = λ h t id. ok own;
  create_config = λ h cfg. ok tt;
  update_config = λ h cfg. ok tt;
  get_account = λ h t id. ok (some account);
  create_account = λ h a. ok tt;
  sync_account = λ h a. ok a;
  update_account_status = λ h t id verification status. ok account;
  get_phone = λ h t id. err (sentinel not_found);
  get_phone_by_id = λ h t id. ok stored;
  create_phone = λ h p. ok tt;
  sync_phone = λ h p. ok p;
  get_account_by_id = λ h t id. ok account;
  exchange_code = λ h code. ok (some (record { access_token = "token"; waba_id = "w" }));
  uuid_string = λ id. "id";
  create_session = λ h s. ok tt;
  get_session = λ h t id. ok session;
  get_session_by_state = λ h t state. ok session;
  update_session_status = λ h t id status. ok session;
  fail_session = λ h t id message. ok session;
  complete_session = λ h t id. ok session;
  list_accounts = λ h t page per_page. ok (account ∷ []);
  list_phones_by_waba = λ h t id page per_page. ok [];
  update_is_active = λ h t id active. ok tt;
  delete_account = λ h t id. ok tt;
}

-- Another tenant has the number.
ensure_phone_conflict :
    (ensure_phone env 8 "p" []).0
    ≡ err
        (domain_error already_exists "WhatsApp phone number is already linked to another tenant" "")
unfolding ensure_phone
ensure_phone_conflict = refl

abbrev account_in : Result OnboardingResult → Result (Option WhatsappAccount)
account_in (ok out) = ok out.account
account_in (err e) = err e

-- The callback links the number.
callback_links_number : account_in (complete_callback env 7 callback []).0 ≡ ok (some account)
unfolding complete_callback
callback_links_number = refl

-- The stored number is found again under a new row.
sync_phone_found : (sync_whatsapp_phone_number env 7 4 []).0 ≡ ok (phone_of env 7 9 1000 "w" number)
unfolding sync_whatsapp_phone_number
sync_phone_found = refl

-- The configuration is switched off and the account deleted.
disconnect_waba_done : (disconnect_waba env 7 " w " []).0 ≡ ok tt
unfolding disconnect_waba
disconnect_waba_done = refl
