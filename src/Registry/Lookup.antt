-- ===== src/Registry/Lookup.antt =====
-- core/services/provider_registry.go: the registry and `GetProvider`.
use spur_messaging.Prelude.{
  String, Bool, true, Option, none, some, List, [], ◌∷◌, is_empty, str_eq, if◌then◌else◌, append,
}
use spur_messaging.Domain.Errors.{other}
use spur_messaging.Domain.Message.{Uuid, Channel, whatsapp, sms, email, other_channel}
use spur_messaging.Calls.{Result, ok, err}
use spur_messaging.Contacts.Records.{channel_eq}

-- domain.ProviderConfig.
pub record ProviderConfig : Type 0 where
  pub id : Uuid
  pub tenant_id : Uuid
  pub channel : Channel
  pub provider : String
  pub credentials : String
  pub webhook_secret : String
  pub is_active : Bool
  pub phone_number_id : String
  pub waba_id : String
  pub business_id : String
  pub display_phone : String
  pub from_email : String
  pub from_name : String
  pub reply_to_email : String
  pub track_opens : Option Bool
  pub track_clicks : Option Bool

-- A map whose keys are channels.
unfoldable pub get_channel {ℓ} : {A : Type ℓ} → Channel → List (Channel × A) → Option A
get_channel c [] = none
get_channel c ((d, a) ∷ m) = if channel_eq d c then some a else get_channel c m

unfoldable pub set_channel {ℓ} :
    {A : Type ℓ} → Channel → A → List (Channel × A) → List (Channel × A)
set_channel c a [] = (c, a) ∷ []
set_channel c a ((d, b) ∷ m) = if channel_eq d c then (c, a) ∷ m else (d, b) ∷ set_channel c a m

unfoldable pub get_name {ℓ} : {A : Type ℓ} → String → List (String × A) → Option A
get_name n [] = none
get_name n ((k, a) ∷ m) = if str_eq k n then some a else get_name n m

unfoldable pub set_name {ℓ} : {A : Type ℓ} → String → A → List (String × A) → List (String × A)
set_name n a [] = (n, a) ∷ []
set_name n a ((k, b) ∷ m) = if str_eq k n then (n, a) ∷ m else (k, b) ∷ set_name n a m

abbrev pub channel_text : Channel → String
channel_text whatsapp = "whatsapp"
channel_text sms = "sms"
channel_text email = "email"
channel_text (other_channel s) = s

-- `P` stands for the providers themselves.
module _ (P : Type 0) where
  -- ProviderRegistry.
  pub record ProviderRegistry : Type 0 where
    pub providers : List (Channel × List (String × P))
    pub default_providers : List (Channel × String)
    pub default_configs : List (Channel × ProviderConfig)

  abbrev pub names_of : Option (List (String × P)) → List (String × P)
  names_of none = []
  names_of (some m) = m

  -- `r.Providers[channel][name]`.
  unfoldable pub look_up_provider : ProviderRegistry → Channel → String → Option P
  unfolding get_channel get_name
  look_up_provider r channel name = get_name name (names_of (get_channel channel r.providers))

  -- `RegisterWithName`, for a provider of the channel.
  unfoldable pub register_with_name : String → Channel → P → ProviderRegistry → ProviderRegistry
  unfolding get_channel set_channel set_name
  register_with_name name channel p r = record r {
    providers =
        set_channel channel (set_name name p (names_of (get_channel channel r.providers)))
          r.providers;
  }

  -- `SetDefaultProvider`.
  unfoldable pub set_default_provider : Channel → String → ProviderRegistry → ProviderRegistry
  unfolding set_channel
  set_default_provider channel name r =
      if is_empty name
      then r
      else record r { default_providers = set_channel channel name r.default_providers }

  -- `SetDefaultConfig`.
  unfoldable pub set_default_config :
      Channel → Option ProviderConfig → ProviderRegistry → ProviderRegistry
  unfolding set_channel
  set_default_config channel none r = r
  set_default_config channel (some cfg) r = record r {
    default_configs = set_channel channel cfg r.default_configs;
  }

  abbrev text_or_empty : Option String → String
  text_or_empty none = ""
  text_or_empty (some s) = s

  -- The name that the environment or the code gives where the registry has none.
  abbrev fallback_name : (String → String) → Channel → String
  fallback_name getenv email = getenv "MESSAGING_EMAIL_PROVIDER"
  fallback_name getenv sms = getenv "MESSAGING_SMS_PROVIDER"
  fallback_name getenv whatsapp = "meta_cloud"
  fallback_name getenv (other_channel s) = ""

  unfoldable pub default_name : (String → String) → ProviderRegistry → Channel → String
  unfolding get_channel
  default_name getenv r channel =
      let own = text_or_empty (get_channel channel r.default_providers) in
      if is_empty own then fallback_name getenv channel else own

  -- The platform's configuration, made the tenant's.
  abbrev pub platform_config : Uuid → Channel → String → Option ProviderConfig → ProviderConfig
  platform_config tenant_id channel name none = record {
    id = 0;
    tenant_id = tenant_id;
    channel = channel;
    provider = name;
    credentials = "";
    webhook_secret = "";
    is_active = true;
    phone_number_id = "";
    waba_id = "";
    business_id = "";
    display_phone = "";
    from_email = "";
    from_name = "";
    reply_to_email = "";
    track_opens = none;
    track_clicks = none;
  }
  platform_config tenant_id channel name (some cfg) = record cfg {
    id = 0;
    tenant_id = tenant_id;
    channel = channel;
    provider = name;
    is_active = true;
  }

  abbrev pub with_platform :
      ProviderRegistry → Uuid → Channel → String → Option P → Result (P × ProviderConfig)
  with_platform r tenant_id channel name none = err (
      other (
        append "provider "
          (append name (append " not registered for channel " (channel_text channel)))))
  with_platform r tenant_id channel name (some p) =
      ok (p, platform_config tenant_id channel name (get_channel channel r.default_configs))

  -- The second step of `GetProvider`.
  unfoldable pub get_default :
      (String → String) → ProviderRegistry → Uuid → Channel → Result (P × ProviderConfig)
  unfolding default_name look_up_provider get_channel append
  get_default getenv r tenant_id channel =
      let name = default_name getenv r channel in
      if is_empty name
      then err (other (append "no provider configured for channel " (channel_text channel)))
      else with_platform r tenant_id channel name (look_up_provider r channel name)

  abbrev pub own_or :
      Result (P × ProviderConfig) → ProviderConfig → Option P → Result (P × ProviderConfig)
  own_or rest cfg none = rest
  own_or rest cfg (some p) = ok (p, cfg)

  -- A configuration of the tenant's that is found, is active and names a registered provider.
  abbrev pub own_first :
      ProviderRegistry
      → Channel
      → Result (P × ProviderConfig)
      → Result (Option ProviderConfig)
      → Result (P × ProviderConfig)
  own_first r channel rest (err e) = rest
  own_first r channel rest (ok none) = rest
  own_first r channel rest (ok (some cfg)) =
      if cfg.is_active then own_or rest cfg (look_up_provider r channel cfg.provider) else rest

  -- `GetProvider`, given the answer of `GetByChannel`.
  unfoldable pub get_provider :
      (String → String)
      → ProviderRegistry
      → Uuid
      → Channel
      → Result (Option ProviderConfig)
      → Result (P × ProviderConfig)
  unfolding get_default look_up_provider
  get_provider getenv r tenant_id channel found =
      own_first r channel (get_default getenv r tenant_id channel) found
