-- ===== src/Onboarding/Env.antt =====
-- core/domain/whatsapp_account.go, and what `WhatsAppOnboardingService` calls.
use spur_messaging.Prelude.{ℕ, String, Bool, Option, List}
use spur_messaging.Domain.Message.{Uuid, Time}
use spur_messaging.Calls.{Result}
use spur_messaging.Registry.Lookup.{ProviderConfig}

pub record WhatsappAccount : Type 0 where
  pub id : Uuid
  pub tenant_id : Uuid
  pub meta_business_id : String
  pub waba_id : String
  pub name : String
  pub currency : String
  pub timezone_id : String
  pub business_verification_status : String
  pub onboarding_status : String
  pub provider_config_id : Option Uuid
  pub last_synced_at : Option Time
  pub created_at : Time
  pub updated_at : Time

pub record WhatsappPhone : Type 0 where
  pub id : Uuid
  pub tenant_id : Uuid
  pub waba_id : String
  pub phone_number_id : String
  pub display_phone_number : String
  pub verified_name : String
  pub quality_rating : String
  pub messaging_limit_tier : String
  pub status : String
  pub code_verification_status : String
  pub last_synced_at : Option Time
  pub created_at : Time
  pub updated_at : Time

pub record OnboardingSession : Type 0 where
  pub id : Uuid
  pub tenant_id : Uuid
  pub state : String
  pub status : String
  pub error_message : Option String
  pub completed_at : Option Time
  pub created_at : Time
  pub updated_at : Time

-- ports.WhatsAppTokenExchange, as far as it is read.
pub record TokenExchange : Type 0 where
  pub access_token : String
  pub waba_id : String

-- ports.WhatsAppBusinessAccountInfo and ports.WhatsAppPhoneNumberInfo: Meta's answers.
pub record AccountInfo : Type 0 where
  pub id : String
  pub meta_business_id : String
  pub name : String
  pub currency : String
  pub timezone_id : String
  pub business_verification_status : String

pub record PhoneInfo : Type 0 where
  pub id : String
  pub display_phone_number : String
  pub verified_name : String
  pub quality_rating : String
  pub messaging_limit_tier : String
  pub status : String
  pub code_verification_status : String

pub data OnboardingCall : Type 0 where
  drew_id : Uuid → OnboardingCall
  read_clock : Time → OnboardingCall
  asked_waba_owner : String → Result ProviderConfig → OnboardingCall
  asked_phone_owner : String → Result ProviderConfig → OnboardingCall
  asked_waba : String → Result (Option AccountInfo) → OnboardingCall
  asked_phones : String → Result (List PhoneInfo) → OnboardingCall
  encrypted : String → Result String → OnboardingCall
  decrypted : String → Option String → OnboardingCall
  asked_channel : Uuid → Result (Option ProviderConfig) → OnboardingCall
  asked_config : Uuid → Uuid → Result ProviderConfig → OnboardingCall
  created_config : ProviderConfig → Result (Unit {0}) → OnboardingCall
  updated_config : ProviderConfig → Result (Unit {0}) → OnboardingCall
  asked_account : Uuid → String → Result (Option WhatsappAccount) → OnboardingCall
  created_account : WhatsappAccount → Result (Unit {0}) → OnboardingCall
  synced_account : WhatsappAccount → Result WhatsappAccount → OnboardingCall
  set_account_status :
      Uuid → Uuid → (verification status : String) → Result WhatsappAccount → OnboardingCall
  asked_phone : Uuid → String → Result (Option WhatsappPhone) → OnboardingCall
  asked_phone_by_id : Uuid → Uuid → Result WhatsappPhone → OnboardingCall
  created_phone : WhatsappPhone → Result (Unit {0}) → OnboardingCall
  synced_phone : WhatsappPhone → Result WhatsappPhone → OnboardingCall
  asked_account_by_id : Uuid → Uuid → Result WhatsappAccount → OnboardingCall
  exchanged_code : String → Result (Option TokenExchange) → OnboardingCall
  created_session : OnboardingSession → Result (Unit {0}) → OnboardingCall
  asked_session : Uuid → Uuid → Result OnboardingSession → OnboardingCall
  asked_session_by_state : Uuid → String → Result OnboardingSession → OnboardingCall
  set_session_status : Uuid → Uuid → String → Result OnboardingSession → OnboardingCall
  failed_session : Uuid → Uuid → String → Result OnboardingSession → OnboardingCall
  completed_session : Uuid → Uuid → Result OnboardingSession → OnboardingCall
  listed_accounts : Uuid → Result (List WhatsappAccount) → OnboardingCall
  listed_phones : Uuid → String → Result (List WhatsappPhone) → OnboardingCall
  set_active : Uuid → Uuid → Bool → Result (Unit {0}) → OnboardingCall
  deleted_account : Uuid → Uuid → Result (Unit {0}) → OnboardingCall

abbrev pub OnboardingHistory : Type 0
OnboardingHistory = List OnboardingCall

-- `encrypt` marshals the credentials and encrypts them; `decrypt` undoes both, or fails at one of them.
pub record OnboardingEnv : Type 0 where
  pub new_uuid : OnboardingHistory → Uuid
  pub clock : OnboardingHistory → Time
  pub get_by_waba_id : OnboardingHistory → String → Result ProviderConfig
  pub get_by_phone_number_id : OnboardingHistory → String → Result ProviderConfig
  pub get_waba : OnboardingHistory → (token waba_id : String) → Result (Option AccountInfo)
  pub list_phone_numbers : OnboardingHistory → (token waba_id : String) → Result (List PhoneInfo)
  pub encrypt : OnboardingHistory → String → Result String
  pub has_cipher : Bool
  pub decrypt : OnboardingHistory → String → Option String
  pub get_by_channel : OnboardingHistory → Uuid → Result (Option ProviderConfig)
  pub get_config : OnboardingHistory → Uuid → Uuid → Result ProviderConfig
  pub create_config : OnboardingHistory → ProviderConfig → Result (Unit {0})
  pub update_config : OnboardingHistory → ProviderConfig → Result (Unit {0})
  pub get_account : OnboardingHistory → Uuid → String → Result (Option WhatsappAccount)
  pub create_account : OnboardingHistory → WhatsappAccount → Result (Unit {0})
  pub sync_account : OnboardingHistory → WhatsappAccount → Result WhatsappAccount
  pub update_account_status :
      OnboardingHistory → Uuid → Uuid → (verification status : String) → Result WhatsappAccount
  pub get_phone : OnboardingHistory → Uuid → String → Result (Option WhatsappPhone)
  pub get_phone_by_id : OnboardingHistory → Uuid → Uuid → Result WhatsappPhone
  pub create_phone : OnboardingHistory → WhatsappPhone → Result (Unit {0})
  pub sync_phone : OnboardingHistory → WhatsappPhone → Result WhatsappPhone
  pub get_account_by_id : OnboardingHistory → Uuid → Uuid → Result WhatsappAccount
  pub exchange_code : OnboardingHistory → String → Result (Option TokenExchange)
  pub uuid_string : Uuid → String
  pub create_session : OnboardingHistory → OnboardingSession → Result (Unit {0})
  pub get_session : OnboardingHistory → Uuid → Uuid → Result OnboardingSession
  pub get_session_by_state : OnboardingHistory → Uuid → String → Result OnboardingSession
  pub update_session_status : OnboardingHistory → Uuid → Uuid → String → Result OnboardingSession
  pub fail_session : OnboardingHistory → Uuid → Uuid → String → Result OnboardingSession
  pub complete_session : OnboardingHistory → Uuid → Uuid → Result OnboardingSession
  pub list_accounts : OnboardingHistory → Uuid → (page per_page : ℕ) → Result (List WhatsappAccount)
  pub list_phones_by_waba :
      OnboardingHistory → Uuid → String → (page per_page : ℕ) → Result (List WhatsappPhone)
  pub update_is_active : OnboardingHistory → Uuid → Uuid → Bool → Result (Unit {0})
  pub delete_account : OnboardingHistory → Uuid → Uuid → Result (Unit {0})
