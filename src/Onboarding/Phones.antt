-- ===== src/Onboarding/Phones.antt =====
-- core/services/whatsapp_onboarding_service.go: one number synchronised, one account disconnected.
use spur_messaging.Prelude.{String, not, is_empty, trim_space, Option, none, some, List, arith}
use spur_messaging.Domain.Errors.{validation_error}
use spur_messaging.Domain.Message.{Uuid}
use spur_messaging.Calls.{Op, attempt}
use spur_messaging.Onboarding.Env.{WhatsappAccount, WhatsappPhone, OnboardingCall, OnboardingEnv}
use spur_messaging.Onboarding.Sessions.{disconnect}
use spur_messaging.Onboarding.Commands.{
  phone_by_id, account_of_waba, answer_phone, find_phone, sync_whatsapp_phone_number,
  disconnect_waba,
}
use spur_messaging.Onboarding.Isolation.{
  KeepsScreened, then-KeepsScreened, guard-KeepsScreened, pure-KeepsScreened,
  sync_phone_numbers-KeepsScreened, finalize-KeepsScreened, access_token-KeepsScreened,
}

module _ (env : OnboardingEnv) (t : Uuid) where
  -- An outcome that is dropped.
  attempt-KeepsScreened :
      {A : Type 0} (m : Op OnboardingCall A) → KeepsScreened t m → KeepsScreened t (attempt m)
  attempt-KeepsScreened m k = record { keeps = λ h s. k.keeps h s }

  phone-KeepsScreened : (id : Uuid) → KeepsScreened t (phone_by_id env t id)
  phone-KeepsScreened id = record { keeps = λ h s. s }

  waba-KeepsScreened : (waba_id : String) → KeepsScreened t (account_of_waba env t waba_id)
  waba-KeepsScreened waba_id = record { keeps = λ h s. ground arith }

  answer-KeepsScreened :
      (id : Uuid) (account : WhatsappAccount) (phones : List WhatsappPhone)
      (found : Option WhatsappPhone)
      → KeepsScreened t (answer_phone env t id account phones found)
  answer-KeepsScreened id account phones none = phone-KeepsScreened id
  answer-KeepsScreened id account phones (some p) =
      then-KeepsScreened t _ _
        (attempt-KeepsScreened _ (finalize-KeepsScreened env t account phones))
        (λ finalized. pure-KeepsScreened t p)

  pub sync_phone-KeepsScreened : (id : Uuid) → KeepsScreened t (sync_whatsapp_phone_number env t id)
  unfolding sync_whatsapp_phone_number
  sync_phone-KeepsScreened id = then-KeepsScreened t _ _ (phone-KeepsScreened id) (λ phone.
      then-KeepsScreened t _ _ (waba-KeepsScreened phone.waba_id) (λ account.
        then-KeepsScreened t _ _ (access_token-KeepsScreened env t account) (λ token.
          then-KeepsScreened t _ _ (sync_phone_numbers-KeepsScreened env t token account.waba_id)
            (λ phones. answer-KeepsScreened id account phones (find_phone phone phones)))))

  pub disconnect-KeepsScreened :
      (account : WhatsappAccount) → KeepsScreened t (disconnect env t account)
  disconnect-KeepsScreened account = record { keeps = λ h s. ground arith }

  pub disconnect_waba-KeepsScreened : (raw : String) → KeepsScreened t (disconnect_waba env t raw)
  unfolding disconnect_waba
  disconnect_waba-KeepsScreened raw =
      then-KeepsScreened t _ _
        (guard-KeepsScreened t (not (is_empty (trim_space raw)))
          (validation_error "waba_id" "WABA ID is required"))
        (λ u.
          then-KeepsScreened t _ _ (waba-KeepsScreened (trim_space raw))
            (λ account. disconnect-KeepsScreened account))
