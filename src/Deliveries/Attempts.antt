-- ===== src/Deliveries/Attempts.antt =====
-- core/services/tenant_webhook_service.go: how an attempt leaves a delivery.
use spur_messaging.Prelude.{zero, ℕ, suc, ◌+◌, ◌≤◌, ◌<◌, ◌≡◌, Option, none, some, ◌∷◌}
use spur_messaging.Domain.Message.{Time}
use spur_messaging.Calls.{Result, ok, err}
use spur_messaging.Deliveries.Env.{
  posted, read_clock, DeliveryStatus, succeeded, retrying, gave_up, WebhookDelivery, WebhookAnswer,
  DeliveryHistory, updated_delivery,
}
use spur_messaging.Deliveries.Attempt.{max_webhook_attempts, minutes}

-- After how many minutes the next attempt is due, by the attempts counted.
abbrev pub delay : ℕ → ℕ
delay (suc zero) = 1
delay (suc (suc zero)) = 2
delay (suc (suc (suc zero))) = 4
delay (suc (suc (suc (suc zero)))) = 8
delay n = 0

-- After a failure another attempt is due, by the delay, while fewer than five are counted; at the
-- fifth the delivery is given up.
abbrev pub IsPutOff : Time → DeliveryStatus → ℕ → Option Time → Type 0
IsPutOff now retrying count (some t) =
    (count < max_webhook_attempts) × (t ≡ now + minutes (delay count))
IsPutOff now gave_up count none = max_webhook_attempts ≤ count
IsPutOff now status count next = ⊥

-- An answer with a code from 200 to 299.
abbrev pub IsDelivered : Result WebhookAnswer → Type 0
IsDelivered (ok a) = (200 ≤ a.code) × (a.code < 300)
IsDelivered (err e) = ⊥

-- One attempt more is counted, and the rest is as it was.
abbrev pub IsCounted : WebhookDelivery → WebhookDelivery → Type 0
IsCounted d n =
    (n.attempt_count ≡ suc d.attempt_count)
    × (n.id ≡ d.id)
    × (n.tenant_id ≡ d.tenant_id)
    × (n.payload ≡ d.payload)

-- What a failure makes of a delivery that has counted its attempt.
abbrev IsAfter : Time → WebhookDelivery → WebhookDelivery → Type 0
IsAfter now d n =
    IsPutOff now n.status n.attempt_count n.next_attempt_at
    × (n.attempt_count ≡ d.attempt_count)
    × (n.id ≡ d.id)
    × (n.tenant_id ≡ d.tenant_id)
    × (n.payload ≡ d.payload)

-- The last call stored the delivery with one attempt more. After an answer from 200 to 299 it
-- succeeded; after any other outcome it is put off from the time that was read then.
abbrev pub IsNoted : WebhookDelivery → DeliveryHistory → Type 0
IsNoted d (updated_delivery n r ∷ read_clock now ∷ posted p outcome ∷ h) =
    IsCounted d n
    × (IsDelivered outcome → ⊥)
    × IsPutOff now n.status n.attempt_count n.next_attempt_at
IsNoted d (updated_delivery n r ∷ posted p outcome ∷ h) =
    IsCounted d n × IsDelivered outcome × (n.status ≡ succeeded) × (n.next_attempt_at ≡ none)
IsNoted d _ = ⊥
