-- ===== src/Onboarding/Isolation.antt =====
-- core/services/whatsapp_onboarding_service.go: a phone number that another tenant has linked.
use spur_messaging.Prelude.{
  String, Bool, not, true, false, ◌≡◌, refl, ◌⊎◌, inl, inr, is_empty, trim_space, Bool-cases,
  Option, none, some, List, [], ◌∷◌, arith,
}
use spur_messaging.Domain.Errors.{
  GoError, sentinel, credentials_expired, validation_error, not_found, is_error,
}
use spur_messaging.Domain.Message.{Uuid, Time}
use spur_messaging.Calls.{Result, ok, err, Op, pure, ◌>>=◌, call, draw, guard, bind_cases}
use spur_messaging.Registry.Lookup.{ProviderConfig}
use spur_messaging.Onboarding.Env.{
  WhatsappAccount, WhatsappPhone, PhoneInfo, OnboardingCall, OnboardingHistory, OnboardingEnv,
  asked_phone_owner, asked_channel, asked_phones, asked_account_by_id, read_clock, created_phone,
  synced_phone, updated_config,
}
use spur_messaging.Onboarding.Accounts.{ensure_phone, ensure_waba, sync_waba}
use spur_messaging.Onboarding.Sync.{
  sync_one, sync_each, unless_no_id, sync_phone_numbers, is_usable_phone, first_usable, configure,
  finish_sync, finalize, access_token, sync_whatsapp_account,
}

-- The configuration that has the number is the tenant's own, or there is none.
abbrev pub MayUse : Uuid → Result ProviderConfig → Type 0
MayUse t (ok cfg) = cfg.tenant_id ≡ t
MayUse t (err e) = is_error e not_found ≡ true

-- Some call asked who has the number, and the answer lets the tenant use it.
abbrev pub Cleared : Uuid → String → OnboardingHistory → Type 0
Cleared t id [] = ⊥
Cleared t id (asked_phone_owner j r ∷ h) = ((j ≡ id) × MayUse t r) ⊎ Cleared t id h
Cleared t id (c ∷ h) = Cleared t id h

-- The configuration that was just found had the number already.
abbrev pub IsKept : String → OnboardingHistory → Type 0
IsKept id (asked_channel t (ok (some old)) ∷ h) = old.phone_number_id ≡ id
IsKept id h = ⊥

-- Every phone row written is the tenant's, and its number, like the number that a configuration is
-- newly given, was cleared before.
abbrev pub Screened : Uuid → OnboardingHistory → Type 0
Screened t [] = Unit
Screened t (created_phone p r ∷ h) =
    (p.tenant_id ≡ t) × Cleared t p.phone_number_id h × Screened t h
Screened t (synced_phone p r ∷ h) = (p.tenant_id ≡ t) × Cleared t p.phone_number_id h × Screened t h
Screened t (updated_config cfg r ∷ h) =
    (Cleared t cfg.phone_number_id h ⊎ IsKept cfg.phone_number_id h) × Screened t h
Screened t (c ∷ h) = Screened t h

-- A phone that was found has an ID.
abbrev pub HasId : Option WhatsappPhone → Type 0
HasId none = Unit
HasId (some p) = is_empty (trim_space p.phone_number_id) ≡ false

-- The operation leaves a screened history screened.
pub record KeepsScreened (t : Uuid) {A : Type 0} (m : Op OnboardingCall A) : Type 0 where
  pub keeps : (h : OnboardingHistory) → Screened t h → Screened t (m h).1

pub then-KeepsScreened :
    {A B : Type 0} (t : Uuid) (m : Op OnboardingCall A) (f : A → Op OnboardingCall B)
    → KeepsScreened t m
    → ((a : A) → KeepsScreened t (f a))
    → KeepsScreened t (m >>= f)
then-KeepsScreened t m f first next = record {
  keeps = λ h s.
      bind_cases m f h (λ out. Screened t out.1) (λ e p. first.keeps h s)
        (λ a p. (next a).keeps (m h).1 (first.keeps h s));
}

pub guard-KeepsScreened : (t : Uuid) (b : Bool) (e : GoError) → KeepsScreened t (guard b e)
guard-KeepsScreened t true e = record { keeps = λ h s. s }
guard-KeepsScreened t false e = record { keeps = λ h s. s }

pub pure-KeepsScreened : {A : Type 0} (t : Uuid) (a : A) → KeepsScreened t (pure a)
pure-KeepsScreened t a = record { keeps = λ h s. s }

module _ (env : OnboardingEnv) (t : Uuid) where
  sync_one-Screened :
      (now : Time) (waba_id : String) (info : PhoneInfo) (h : OnboardingHistory)
      → (is_empty (trim_space info.id) ≡ false)
      → Screened t h
      → Screened t (sync_one env t now waba_id info h).1
  unfolding sync_one ensure_phone
  sync_one-Screened now waba_id info h full s = ground arith

  unless_no_id-KeepsScreened :
      (one : Op OnboardingCall WhatsappPhone) (rest : Op OnboardingCall (List WhatsappPhone))
      (b : Bool)
      → (b ≡ false → KeepsScreened t one)
      → KeepsScreened t rest
      → KeepsScreened t (unless_no_id env t one rest b)
  unless_no_id-KeepsScreened one rest true first next = next
  unless_no_id-KeepsScreened one rest false first next =
      then-KeepsScreened t one _ (first refl) (λ phone.
        then-KeepsScreened t rest _ next (λ phones. pure-KeepsScreened t (phone ∷ phones)))

  sync_each-KeepsScreened :
      (now : Time) (waba_id : String) (infos : List PhoneInfo)
      → KeepsScreened t (sync_each env t now waba_id infos)
  unfolding sync_each
  sync_each-KeepsScreened now waba_id [] = record { keeps = λ h s. s }
  sync_each-KeepsScreened now waba_id (info ∷ infos) =
      unless_no_id-KeepsScreened (sync_one env t now waba_id info)
        (sync_each env t now waba_id infos) (is_empty (trim_space info.id))
        (λ full. record { keeps = λ h s. sync_one-Screened now waba_id info h full s })
        (sync_each-KeepsScreened now waba_id infos)

  list_phones-KeepsScreened :
      (token waba_id : String)
      → KeepsScreened t (call (λ h. env.list_phone_numbers h token waba_id) (asked_phones waba_id))
  list_phones-KeepsScreened token waba_id = record { keeps = λ h s. s }

  clock-KeepsScreened : KeepsScreened t (draw env.clock read_clock)
  clock-KeepsScreened = record { keeps = λ h s. s }

  account-KeepsScreened :
      (id : Uuid)
      → KeepsScreened t (call (λ h. env.get_account_by_id h t id) (asked_account_by_id t id))
  account-KeepsScreened id = record { keeps = λ h s. s }

  pub sync_phone_numbers-KeepsScreened :
      (token raw : String) → KeepsScreened t (sync_phone_numbers env t token raw)
  unfolding sync_phone_numbers
  sync_phone_numbers-KeepsScreened token raw =
      then-KeepsScreened t _ _
        (guard-KeepsScreened t (not (is_empty (trim_space raw)))
          (validation_error "waba_id" "WABA ID is required"))
        (λ u.
          then-KeepsScreened t _ _
            (guard-KeepsScreened t (not (is_empty (trim_space token)))
              (sentinel credentials_expired))
            (λ v.
              then-KeepsScreened t _ _ (list_phones-KeepsScreened token (trim_space raw)) (λ infos.
                then-KeepsScreened t _ _ clock-KeepsScreened
                  (λ now. sync_each-KeepsScreened now (trim_space raw) infos))))

  pub sync_waba-KeepsScreened :
      (token raw : String) (config_id : Option Uuid)
      → KeepsScreened t (sync_waba env t token raw config_id)
  unfolding sync_waba ensure_waba
  sync_waba-KeepsScreened token raw config_id = record { keeps = λ h s. ground arith }

  pub access_token-KeepsScreened :
      (account : WhatsappAccount) → KeepsScreened t (access_token env t account)
  unfolding access_token
  access_token-KeepsScreened account = record { keeps = λ h s. ground arith }

  first_usable-HasId : (ps : List WhatsappPhone) → HasId (first_usable ps)
  unfolding first_usable is_usable_phone
  first_usable-HasId [] = tt
  first_usable-HasId (p ∷ ps) =
      let rest = first_usable-HasId ps in
      elim (Bool-cases (is_usable_phone p)) [
        | inl fit ↦ rw fit (ground arith)
        | inr unfit ↦ rw unfit rest
      ]

  finish_sync-KeepsScreened :
      (account : WhatsappAccount) (p : Option WhatsappPhone)
      → HasId p
      → KeepsScreened t (finish_sync env t account p)
  unfolding ensure_phone configure
  finish_sync-KeepsScreened account none full = record { keeps = λ h s. s }
  finish_sync-KeepsScreened account (some p) full = record { keeps = λ h s. ground arith }

  pub finalize-KeepsScreened :
      (account : WhatsappAccount) (phones : List WhatsappPhone)
      → KeepsScreened t (finalize env t account phones)
  unfolding finalize
  finalize-KeepsScreened account phones =
      finish_sync-KeepsScreened account (first_usable phones) (first_usable-HasId phones)

  pub sync_whatsapp_account-KeepsScreened :
      (id : Uuid) → KeepsScreened t (sync_whatsapp_account env t id)
  unfolding sync_whatsapp_account
  sync_whatsapp_account-KeepsScreened id =
      then-KeepsScreened t _ _ (account-KeepsScreened id) (λ account.
        then-KeepsScreened t _ _ (access_token-KeepsScreened account) (λ token.
          then-KeepsScreened t _ _
            (sync_waba-KeepsScreened token account.waba_id account.provider_config_id)
            (λ synced.
              then-KeepsScreened t _ _ (sync_phone_numbers-KeepsScreened token synced.waba_id)
                (λ phones.
                  then-KeepsScreened t _ _ (finalize-KeepsScreened synced phones)
                    (λ done. pure-KeepsScreened t (done, phones))))))
