-- ===== src/Http/Callbacks.antt =====
-- adapters/http/webhook_handler.go, the callbacks that are mounted beside the routes of tenants, and the
-- unsubscribe link of adapters/http/unsubscribe_handler.go.
use spur_messaging.Prelude.{
  ℕ, String, false, ◌&&◌, Option, none, some, List, ◌∷◌, str_eq, is_empty, ◌≡◌, if◌then◌else◌,
  arith,
}
use spur_messaging.Domain.Errors.{other}
use spur_messaging.Calls.{Result, ok, err}
use spur_messaging.Http.Env.{Request}
use spur_messaging.Http.Steps.{Outcome, done, refused, invalid, Success, status_word}

-- A response without an envelope.
pub record Plain : Type 0 where
  pub status : ℕ
  pub text : String

pub data CallbackCall : Type 0 where
  handed_whatsapp : (body : String) → Result (Unit {0}) → CallbackCall

-- `io.ReadAll` of the body, the configured token, and `WebhookService`.
pub record CallbackEnv : Type 0 where
  pub verify_token : String
  pub read_body : Request → Option String
  pub handle_webhook : List CallbackCall → (body : String) → Result (Unit {0})

-- The callbacks that are mounted.
pub data Callback : Type 0 where
  verifies meta_calls sms_calls sendgrid_calls mailgun_calls postmark_calls link_clicked : Callback

abbrev pub empty_ok : Plain
empty_ok = record { status = 200; text = "" }

module _ (env : CallbackEnv) (req : Request) where
  -- `Verify`.
  unfoldable pub verify : Plain
  verify =
      if str_eq (req.query "hub.mode") "subscribe"
        && str_eq (req.query "hub.verify_token") env.verify_token
      then record { status = 200; text = req.query "hub.challenge" }
      else record { status = 403; text = "" }

  -- `HandleWhatsApp`, once the body is read.
  abbrev hand_on : Option String → List CallbackCall → Plain × List CallbackCall
  hand_on none h = (empty_ok, h)
  hand_on (some body) h = (empty_ok, handed_whatsapp body (env.handle_webhook h body) ∷ h)

  -- `HandleWhatsApp`.
  unfoldable pub handle_whatsapp : List CallbackCall → Plain × List CallbackCall
  handle_whatsapp h = hand_on (env.read_body req) h

  -- The callback's handler. Those of SMS, of the email providers and of the unsubscribe link only say
  -- that all is well.
  unfoldable pub call_back : Callback → List CallbackCall → Plain × List CallbackCall
  unfolding verify handle_whatsapp
  call_back verifies h = (verify, h)
  call_back meta_calls h = handle_whatsapp h
  call_back sms_calls h = (empty_ok, h)
  call_back sendgrid_calls h = (empty_ok, h)
  call_back mailgun_calls h = (empty_ok, h)
  call_back postmark_calls h = (empty_ok, h)
  call_back link_clicked h = (empty_ok, h)

-- `UnsubscribeService.HandleUnsubscribeLink`.
unfoldable pub follow_unsubscribe_link : String → Result (Unit {0})
follow_unsubscribe_link token = err (other "not implemented")

abbrev answer_link : Result (Unit {0}) → Outcome Success
answer_link (ok u) =
    done (record { status = 200; payload = status_word "unsubscribed"; pagination = none })
answer_link (err e) = refused e

-- `UnsubscribeHandler.HandleUnsubscribeLink`, which no route leads to.
unfoldable pub handle_unsubscribe_link : Request → Outcome Success
unfolding follow_unsubscribe_link
handle_unsubscribe_link req =
    if is_empty (req.path "token")
    then invalid "token" "token is required"
    else answer_link (follow_unsubscribe_link (req.path "token"))

-- Meta is answered with 200, whatever the body holds and whatever becomes of it.
pub call_back_ok :
    (env : CallbackEnv) (req : Request) (h : List CallbackCall)
    → (call_back env req meta_calls h).0 ≡ empty_ok
unfolding call_back handle_whatsapp
call_back_ok env req h = ground arith

-- The challenge is told only to who knows the token.
pub verify_refused :
    (env : CallbackEnv) (req : Request)
    → str_eq (req.query "hub.verify_token") env.verify_token ≡ false
    → (verify env req).status ≡ 403
unfolding verify
verify_refused env req unknown = ground arith
