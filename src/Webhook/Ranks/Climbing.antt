-- ===== src/Webhook/Ranks/Climbing.antt =====
-- core/services/webhook_service.go: histories in which statuses rise.
use spur_messaging.Prelude.{
  String, Option, none, some, [], ◌∷◌, ◌⊎◌, ◌≡◌, str_eq, if◌then◌else◌, arith,
}
use spur_messaging.Prelude.Int.{◌<ℤ◌, ◌≤ℤ◌}
use spur_messaging.Domain.Message.{MessageStatus, message_status_rank, Message}
use spur_messaging.Calls.{Result, ok, err, Op, ◌>>=◌, ◌>>◌, bind_cases}
use spur_messaging.Webhook.Env.{
  WebhookCall, WebhookHistory, WebhookEnv, updated_status, asked_provider_id,
}

-- The status that was last written for a provider's message ID.
abbrev pub last_status : String → WebhookHistory → Option MessageStatus
last_status id [] = none
last_status id (updated_status id' s t (ok u) ∷ h) =
    let earlier = last_status id h in if str_eq id' id then some s else earlier
last_status id (_ ∷ h) = last_status id h

abbrev pub IsAbove : Option MessageStatus → MessageStatus → Type 0
IsAbove none s = Unit
IsAbove (some p) s = message_status_rank p <ℤ message_status_rank s

-- Every status that was written ranks above the one written before it for the same message.
abbrev pub IsClimbing : WebhookHistory → Type 0
IsClimbing [] = Unit
IsClimbing (updated_status id s t (ok u) ∷ h) = IsAbove (last_status id h) s × IsClimbing h
IsClimbing (_ ∷ h) = IsClimbing h

-- The lookup of the message failed just before.
abbrev pub IsBlind : String → WebhookHistory → Type 0
IsBlind id (asked_provider_id id' (err e) ∷ h) = id' ≡ id
IsBlind id _ = ⊥

-- Every status that was written ranks above the one written before it for the same message, unless
-- the lookup of the message failed just before the write.
abbrev pub IsNearlyClimbing : WebhookHistory → Type 0
IsNearlyClimbing [] = Unit
IsNearlyClimbing (updated_status id s t (ok u) ∷ h) =
    (IsAbove (last_status id h) s ⊎ IsBlind id h) × IsNearlyClimbing h
IsNearlyClimbing (_ ∷ h) = IsNearlyClimbing h

abbrev pub CanRead : Option MessageStatus → Result Message → Type 0
CanRead (some p) (ok m) = message_status_rank p ≤ℤ message_status_rank m.status
CanRead _ r = Unit

-- Where the messages table finds a message that was written to, it has no lower status.
pub record ReadsStatus (env : WebhookEnv) : Type 0 where
  pub reads :
      (h : WebhookHistory) (id : String) → CanRead (last_status id h) (env.get_by_provider_id h id)

-- The operation keeps a property of histories.
pub record Keeping (W : WebhookHistory → Type 0) {A : Type 0} (m : Op WebhookCall A) : Type 0 where
  pub climbs : (h : WebhookHistory) → W h → W (m h).1

module _ {W : WebhookHistory → Type 0} {A B : Type 0} (m : Op WebhookCall A)
    (f : A → Op WebhookCall B) where
  bind-Keeping : Keeping W m → ((a : A) → Keeping W (f a)) → Keeping W (m >>= f)
  bind-Keeping k l = record {
    climbs = λ h w.
        bind_cases m f h (λ out. W out.1) (λ e p. k.climbs h w)
          (λ a p. (l a).climbs (m h).1 (k.climbs h w));
  }

pub then-Keeping :
    {W : WebhookHistory → Type 0} {B : Type 0} (m : Op WebhookCall (Unit {0}))
    (k : Op WebhookCall B)
    → Keeping W m
    → Keeping W k
    → Keeping W (m >> k)
then-Keeping m k first second = bind-Keeping m (λ _. k) first (λ _. second)

pub above :
    (last : Option MessageStatus) (m : Message) (s : MessageStatus)
    → message_status_rank m.status <ℤ message_status_rank s
    → CanRead last (ok m)
    → IsAbove last s
above none m s high read = tt
above (some p) m s high read = omega arith
