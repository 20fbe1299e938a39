-- ===== src/Registry/Choice.antt =====
-- core/services/provider_registry.go: what is found after a registration, and what `GetProvider` picks.
use spur_messaging.Prelude.{
  String, true, ◌&&◌, ◌≡◌, refl, ◌⊎◌, inl, inr, Option, none, some, List, [], ◌∷◌, str_eq,
  str_eq_iff, if◌then◌else◌, arith, Bool-cases, ap,
}
use spur_messaging.Domain.Message.{Uuid, Channel, whatsapp, sms, email, other_channel}
use spur_messaging.Calls.{Result, ok, err}
use spur_messaging.Contacts.Records.{channel_eq}
use spur_messaging.Registry.Lookup.{
  ProviderConfig, ProviderRegistry, get_channel, set_channel, get_name, set_name, look_up_provider,
  register_with_name, get_provider, get_default, own_first, names_of,
}

channel_eq_iff : (c d : Channel) → (channel_eq c d ≡ true → c ≡ d) × (c ≡ d → channel_eq c d ≡ true)
channel_eq_iff whatsapp d = (λ e. ground arith, λ e. ground arith)
channel_eq_iff sms d = (λ e. ground arith, λ e. ground arith)
channel_eq_iff email d = (λ e. ground arith, λ e. ground arith)
channel_eq_iff (other_channel s) whatsapp = (λ e. ground arith, λ e. ground arith)
channel_eq_iff (other_channel s) sms = (λ e. ground arith, λ e. ground arith)
channel_eq_iff (other_channel s) email = (λ e. ground arith, λ e. ground arith)
channel_eq_iff (other_channel s) (other_channel t) =
    (λ e. ground (arith, str_eq_iff s t), λ e. ground (arith, str_eq_iff s t))

module _ {A : Type 0} where
  get_channel-set_channel :
      (c d : Channel) (a : A) (m : List (Channel × A))
      → get_channel d (set_channel c a m) ≡ (if channel_eq c d then some a else get_channel d m)
  unfolding get_channel set_channel
  get_channel-set_channel c d a [] = refl
  get_channel-set_channel c d a ((e, b) ∷ m) = ground (
    arith,
    channel_eq_iff c d,
    channel_eq_iff e c,
    channel_eq_iff e d,
    get_channel-set_channel c d a m,
  )

  get_name-set_name :
      (n k : String) (a : A) (m : List (String × A))
      → get_name k (set_name n a m) ≡ (if str_eq n k then some a else get_name k m)
  unfolding get_name set_name
  get_name-set_name n k a [] = refl
  get_name-set_name n k a ((e, b) ∷ m) =
      ground (arith, str_eq_iff n k, str_eq_iff e n, str_eq_iff e k, get_name-set_name n k a m)

module _ (P : Type 0) where
  -- After a registration the provider is found under its channel and name, and every other channel
  -- and name has the provider that it had before.
  pub look_up_provider-register_with_name :
      (r : ProviderRegistry P) (name other_name : String) (channel other : Channel) (p : P)
      → look_up_provider P (register_with_name P name channel p r) other other_name ≡ (
          if channel_eq channel other && str_eq name other_name
          then some p
          else look_up_provider P r other other_name)
  unfolding look_up_provider register_with_name
  look_up_provider-register_with_name r name other_name channel other p =
      let old = names_of P (get_channel channel r.providers) in
      let outer = get_channel-set_channel channel other (set_name name p old) r.providers in
      let inner = get_name-set_name name other_name p old in
      elim (Bool-cases (channel_eq channel other)) [
        | inl here ↦
            let same =
              ap (λ c. names_of P (get_channel c r.providers))
                ((channel_eq_iff channel other).0 here) in
            rw (outer, here, inner) rw same refl
        | inr there ↦ rw (outer, there) refl
      ]

  -- The provider is the one registered under the name that the configuration has on the channel, the
  -- configuration is active, and it is the tenant's own as it was found, or one with the tenant's ID
  -- and the channel that is no stored row.
  abbrev pub IsChoice :
      ProviderRegistry P
      → Uuid
      → Channel
      → Result (Option ProviderConfig)
      → Result (P × ProviderConfig)
      → Type 0
  IsChoice r t channel found (err e) = Unit
  IsChoice r t channel found (ok (p, cfg)) =
      (look_up_provider P r channel cfg.provider ≡ some p)
      × (cfg.is_active ≡ true)
      × ((found ≡ ok (some cfg)) ⊎ ((cfg.tenant_id ≡ t) × (cfg.channel ≡ channel) × (cfg.id ≡ 0)))

  get_default_lem :
      (getenv : String → String) (r : ProviderRegistry P) (t : Uuid) (channel : Channel)
      (found : Result (Option ProviderConfig))
      → IsChoice r t channel found (get_default P getenv r t channel)
  unfolding get_default
  get_default_lem getenv r t channel found = ground arith

  own_first_lem :
      (r : ProviderRegistry P) (t : Uuid) (channel : Channel)
      (found : Result (Option ProviderConfig)) (rest : Result (P × ProviderConfig))
      → IsChoice r t channel found rest
      → IsChoice r t channel found (own_first P r channel rest found)
  own_first_lem r t channel (err e) rest c = c
  own_first_lem r t channel (ok none) rest c = c
  own_first_lem r t channel (ok (some cfg)) rest c = ground arith

  -- What `GetProvider` answers without an error is a choice in this sense, and where the tenant has
  -- an active configuration that names a registered provider, it answers with these.
  pub get_provider-IsChoice :
      (getenv : String → String) (r : ProviderRegistry P) (t : Uuid) (channel : Channel)
      (found : Result (Option ProviderConfig))
      → IsChoice r t channel found (get_provider P getenv r t channel found)
        × ((cfg : ProviderConfig) (p : P)
            → found ≡ ok (some cfg)
            → cfg.is_active ≡ true
            → look_up_provider P r channel cfg.provider ≡ some p
            → get_provider P getenv r t channel found ≡ ok (p, cfg))
  unfolding get_provider
  get_provider-IsChoice getenv r t channel found = (
    own_first_lem r t channel found (get_default P getenv r t channel)
        (get_default_lem getenv r t channel found),
    λ cfg p f active there. rw (f, active, there) refl,
  )
