-- ===== src/Sender/Delivery.antt =====
-- worker/sender.go: `HandleMessage`, with its retries.
use spur_messaging.Prelude.{
  ℕ, zero, suc, Bool, false, ◌||◌, Option, none, some, List, [], ◌∷◌, if◌then◌else◌,
}
use spur_messaging.Domain.Errors.{
  GoError, other, is_error, rate_limit_exceeded, unauthorized, forbidden, credentials_expired,
}
use spur_messaging.Domain.Message.{Uuid, Time, seconds, failed, Message}
use spur_messaging.Calls.{Result, ok, err, Op, pure, fail, ◌>>=◌, ◌>>◌, call, draw, attempt}
use spur_messaging.Message.Env.{QueueMessage}
use spur_messaging.Sender.Env.{
  ProviderSetup, SenderCall, SenderEnv, asked_message, backed_off, slept, updated_active,
  asked_campaign, updated_stats,
}
use spur_messaging.Sender.Attempt.{find_setup, put_status, send_with_cfg}

-- 5s, 30s and 120s: the waits before the second, the third and the fourth attempt.
abbrev pub backoffs : List Time
backoffs = seconds 5 ∷ seconds 30 ∷ seconds 120 ∷ []

abbrev pub is_credentials_error : GoError → Bool
is_credentials_error e =
    is_error e unauthorized || is_error e forbidden || is_error e credentials_expired

-- How the loop ends: an attempt went through or was given up for good, or the last error of a
-- message that used up its attempts. `out_of_fuel` is no end of the source.
pub data LoopEnd : Type 0 where
  finished : LoopEnd
  exhausted : GoError → LoopEnd
  out_of_fuel : LoopEnd

module _ (env : SenderEnv) where
  -- A provider that refuses the credentials is switched off, and the message fails.
  unfoldable pub give_up : Message → ProviderSetup → Op SenderCall LoopEnd
  give_up msg cfg = do
    off ← attempt (
        call (λ h. env.update_is_active h msg.tenant_id cfg.config_id false)
          (updated_active msg.tenant_id cfg.config_id false))
    written ← attempt (put_status env msg failed "")
    pure finished

  -- The wait before an attempt, where one is due; it fails when the context is done.
  abbrev pub wait_before : Option Time → Op SenderCall (Unit {0})
  wait_before none = pure tt
  wait_before (some t) = call (λ h. env.back_off h t) (backed_off t)

  abbrev pub next_attempt :
      (Option Time → List Time → Op SenderCall LoopEnd)
      → List Time
      → GoError
      → Op SenderCall LoopEnd
  next_attempt rest [] e = pure (exhausted e)
  next_attempt rest (t ∷ later) e = rest (some t) later

  -- What an attempt's outcome leads to. A 429 sleeps for a minute and keeps the counter: the loop
  -- goes on with the same wait.
  abbrev pub after_attempt :
      Message
      → ProviderSetup
      → Option Time
      → List Time
      → (Option Time → List Time → Op SenderCall LoopEnd)
      → Result (Unit {0})
      → Op SenderCall LoopEnd
  after_attempt msg cfg wait later rest (ok u) = pure finished
  after_attempt msg cfg wait later rest (err e) =
      if is_error e rate_limit_exceeded
      then draw (λ h. seconds 60) slept >>= (λ t. rest wait later)
      else if is_credentials_error e
      then give_up msg cfg
      else next_attempt rest later e

  abbrev pub attempt_once :
      Message
      → ProviderSetup
      → Option Time
      → List Time
      → (Option Time → List Time → Op SenderCall LoopEnd)
      → Op SenderCall LoopEnd
  attempt_once msg cfg wait later rest = do
    outcome ← attempt (send_with_cfg env msg cfg)
    after_attempt msg cfg wait later rest outcome

  -- The loop, at the wait that is due now and those after it. Fuel bounds its turns.
  unfoldable pub retry_loop :
      ℕ → Message → ProviderSetup → Option Time → List Time → Op SenderCall LoopEnd
  unfolding give_up send_with_cfg
  retry_loop zero msg cfg wait later = pure out_of_fuel
  retry_loop (suc fuel) msg cfg wait later = do
    wait_before wait
    attempt_once msg cfg wait later (retry_loop fuel msg cfg)

  -- The campaign's counter of failed messages.
  unfoldable pub count_failure : Message → Option Uuid → Op SenderCall (Unit {0})
  count_failure msg none = pure tt
  count_failure msg (some campaign_id) = do
    found ← attempt (
        call (λ h. env.get_campaign h msg.tenant_id campaign_id)
          (asked_campaign msg.tenant_id campaign_id))
    elim found [
      | err e ↦ pure tt
      | ok (id, stats) ↦ do
        let counted = record stats { failed = suc stats.failed }
        written ← attempt (
            call (λ h. env.update_stats h msg.tenant_id id counted)
              (updated_stats msg.tenant_id id counted))
        pure tt
    ]

  unfoldable pub finish : Message → LoopEnd → Op SenderCall (Unit {0})
  unfolding count_failure
  finish msg finished = pure tt
  finish msg out_of_fuel = fail (other "out of fuel")
  finish msg (exhausted e) = do
    written ← attempt (put_status env msg failed "")
    count_failure msg msg.campaign_id
    elim written [ ok u ↦ pure tt | err x ↦ fail x ]

  -- `HandleMessage`.
  unfoldable pub handle_message : ℕ → QueueMessage → Op SenderCall (Unit {0})
  unfolding retry_loop finish give_up
  handle_message fuel q = do
    msg ←
        call (λ h. env.get_message h q.tenant_id q.message_id)
          (asked_message q.tenant_id q.message_id)
    cfg ← find_setup env msg
    end ← retry_loop fuel msg cfg none backoffs
    finish msg end
