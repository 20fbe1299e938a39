-- ===== src/Deliveries/Attempt.antt =====
-- core/services/tenant_webhook_service.go: one attempt to deliver an event, and when the next is due.
use spur_messaging.Prelude.{
  false, true, not, ℕ, suc, ◌+◌, ◌-◌, ◌*◌, ◌^◌, ◌/◌, String, Bool, ◌&&◌, none, some, leb, ltb,
  if◌then◌else◌, append,
}
use spur_messaging.Domain.Errors.{error_text}
use spur_messaging.Domain.Message.{Time, seconds}
use spur_messaging.Calls.{Result, ok, err, Op, pure, ◌>>=◌, ◌>>◌, call, draw, attempt}
use spur_messaging.Deliveries.Env.{
  WebhookEndpoint, succeeded, retrying, gave_up, WebhookDelivery, WebhookPost, WebhookAnswer,
  DeliveryCall, DeliveryEnv, read_clock, posted, updated_delivery, sign_webhook_payload,
}

abbrev pub max_webhook_attempts : ℕ
max_webhook_attempts = 5

abbrev pub minutes : ℕ → Time
minutes n = seconds (60 * n)

-- `setNextWebhookAttempt`, with the clock read where it is needed.
unfoldable pub set_next_webhook_attempt : Time → WebhookDelivery → WebhookDelivery
set_next_webhook_attempt now d =
    if leb max_webhook_attempts d.attempt_count
    then record d { status = gave_up; next_attempt_at = none }
    else record d {
      status = retrying;
      next_attempt_at = some (now + minutes (2 ^ (d.attempt_count - 1)));
    }

-- What every attempt notes before the request goes out.
abbrev pub count_attempt : Time → String → WebhookDelivery → WebhookDelivery
count_attempt now signature d = record d {
  attempt_count = suc d.attempt_count;
  last_attempt_at = some now;
  signature = signature;
}

abbrev pub is_success : ℕ → Bool
is_success code = leb 200 code && ltb code 300

module _ (env : DeliveryEnv) where
  -- The delivery after the request has come to an answer or an error.
  unfoldable pub note_answer : Result WebhookAnswer → Time → WebhookDelivery → WebhookDelivery
  unfolding set_next_webhook_attempt error_text append
  note_answer (err e) now d = set_next_webhook_attempt now (record d {
    error_message = some (error_text e);
    response_status = none;
    response_body = none;
  })
  note_answer (ok answer) now d =
      let answered = record d {
        response_status = some answer.code;
        response_body = some answer.body;
        error_message = none;
      } in
      if is_success answer.code
      then record answered { status = succeeded; next_attempt_at = none }
      else set_next_webhook_attempt now (record answered {
        error_message = some (append "webhook endpoint returned HTTP " (env.show_int answer.code));
      })

  abbrev pub post_of : WebhookEndpoint → WebhookDelivery → Time → String → WebhookPost
  post_of endpoint d now signature = record {
    url = endpoint.url;
    payload = d.payload;
    event_id = d.event_id;
    event_type = d.event_type;
    timestamp = now / 1_000_000_000;
    signature = signature;
  }

  -- Whether the outcome calls for another attempt, for which the clock is read again.
  abbrev pub has_failed : Result WebhookAnswer → Bool
  has_failed (err e) = true
  has_failed (ok answer) = not (is_success answer.code)

  abbrev pub read_later : Bool → Time → Op DeliveryCall Time
  read_later true now = draw env.clock read_clock
  read_later false now = pure now

  -- The rest of `attemptDelivery`, once the request has come to an outcome.
  abbrev pub store_answer :
      Time → WebhookDelivery → Result WebhookAnswer → Op DeliveryCall WebhookDelivery
  store_answer now counted outcome = do
    later ← read_later (has_failed outcome) now
    let noted = note_answer outcome later counted
    call (λ h. env.update_delivery h noted) (updated_delivery noted)

  abbrev pub build_request : WebhookEndpoint → Op DeliveryCall (Unit {0})
  build_request endpoint h = (env.new_request endpoint.url, h)

  abbrev pub post_and_store :
      WebhookEndpoint → WebhookDelivery → Time → Op DeliveryCall WebhookDelivery
  post_and_store endpoint d now = do
    let signature = sign_webhook_payload env endpoint.secret now d.payload
    let request = post_of endpoint d now signature
    outcome ← attempt (call (λ h. env.post h request) (posted request))
    store_answer now (count_attempt now signature d) outcome

  -- `attemptDelivery`: the stored delivery.
  unfoldable pub attempt_delivery :
      WebhookEndpoint → WebhookDelivery → Op DeliveryCall WebhookDelivery
  unfolding note_answer sign_webhook_payload
  attempt_delivery endpoint d = do
    now ← draw env.clock read_clock
    build_request endpoint
    post_and_store endpoint d now
