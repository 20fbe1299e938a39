-- ===== src/Registry/Tests.antt =====
-- core/services/provider_registry.go on a registry with two SMS providers.
use spur_messaging.Prelude.{◌≡◌, true, none, some, [], ◌∷◌, ℕ}
use spur_messaging.Domain.Message.{sms}
use spur_messaging.Calls.{ok}
use spur_messaging.Registry.Lookup.{
  ProviderConfig, ProviderRegistry, look_up_provider, get_provider, platform_config,
}
use spur_messaging.Registry.Choice.{IsChoice, get_provider-IsChoice}

abbrev registry : ProviderRegistry ℕ
registry = record {
  providers = (sms, ("msg91", 1) ∷ []) ∷ [];
  default_providers = [];
  default_configs = [];
}

abbrev own : ProviderConfig
own = record (platform_config ℕ 7 sms "twilio" none) { id = 3 }

abbrev two : ProviderRegistry ℕ
two = record {
  providers = (sms, ("msg91", 1) ∷ ("twilio", 2) ∷ []) ∷ [];
  default_providers = (sms, "msg91") ∷ [];
  default_configs = [];
}

get_provider-IsChoice_example :
    IsChoice ℕ two 7 sms (ok (some own)) (get_provider ℕ (λ s. "") two 7 sms (ok (some own)))
    × ((cfg : ProviderConfig) (p : ℕ)
        → ok (some own) ≡ ok (some cfg)
        → cfg.is_active ≡ true
        → look_up_provider ℕ two sms cfg.provider ≡ some p
        → get_provider ℕ (λ s. "") two 7 sms (ok (some own)) ≡ ok (p, cfg))
get_provider-IsChoice_example = get_provider-IsChoice ℕ (λ s. "") two 7 sms (ok (some own))
