-- ===== src/Campaigns/Vetted/Growth.antt =====
-- core/services/campaign_service.go: recipients whom a history has vetted, and histories that grow.
use spur_messaging.Prelude.{String, true, false, ◌&&◌, ◌≡◌, List, [], ◌∷◌, ◌++◌, is_empty, Any}
use spur_messaging.Domain.Message.{Uuid, Channel, is_email}
use spur_messaging.Domain.Contact.{Contact, is_opted_in_on}
use spur_messaging.Calls.{Result, ok, err}
use spur_messaging.Message.Env.{QueueMessage}
use spur_messaging.Campaigns.Env.{
  CampaignCall, CampaignHistory, CampaignEnv, asked_contact, resolved_segment, asked_suppressed,
  asked_unsubscribed, enqueued_bulk,
}
use spur_messaging.Campaigns.Service.{fan_out_recipient}

-- A call in which the tenant's contact was found.
abbrev pub ShowsContact : Uuid → Contact → CampaignCall → Type 0
ShowsContact t x (resolved_segment u segment (ok xs)) = (u ≡ t) × Any (λ y. y ≡ x) xs
ShowsContact t x (asked_contact u id (ok y)) = (u ≡ t) × (y ≡ x)
ShowsContact t x c = ⊥

abbrev pub Found : Uuid → CampaignHistory → Contact → Type 0
Found t h x = Any (ShowsContact t x) h

-- What holds of an answer that is no error.
abbrev pub OnOk : {A : Type 0} → (A → Type 0) → Result A → Type 0
OnOk Q (ok a) = Q a
OnOk Q (err e) = Unit

-- The contacts that the calls of a history found, in the order in which they did.
abbrev pub found_of : CampaignHistory → List Contact
found_of [] = []
found_of (resolved_segment t segment (ok xs) ∷ h) = found_of h ++ xs
found_of (asked_contact t id (ok x) ∷ h) = found_of h ++ (x ∷ [])
found_of (c ∷ h) = found_of h

-- Messages for some of the contacts, in their order and one at most for each.
pub data Selects (P : Contact → QueueMessage → Type 0)
    : List Contact → List QueueMessage → Type 0 where
  nobody : Selects P [] []
  skips :
      {xs : List Contact} {qs : List QueueMessage} (x : Contact)
      → Selects P xs qs
      → Selects P (x ∷ xs) qs
  serves :
      {xs : List Contact} {qs : List QueueMessage} (x : Contact) (q : QueueMessage)
      → P x q
      → Selects P xs qs
      → Selects P (x ∷ xs) (q ∷ qs)

pub skip_all :
    {P : Contact → QueueMessage → Type 0} (ys : List Contact) {xs : List Contact}
    {qs : List QueueMessage}
    → Selects P xs qs
    → Selects P (ys ++ xs) qs
skip_all [] s = s
skip_all (y ∷ ys) s = skips y (skip_all ys s)

module _ (env : CampaignEnv) (tenant_id : Uuid) (channel : Channel) where
  -- What the lists answered about a recipient.
  abbrev pub Listed : String → CampaignHistory → Type 0
  Listed to h =
      (env.has_suppression ≡ true
        → Any (λ c. c ≡ asked_suppressed tenant_id channel to (ok false)) h)
      × (is_email channel && env.has_unsubscribe ≡ true
          → Any (λ c. c ≡ asked_unsubscribed tenant_id to (ok false)) h)

  -- The message is the tenant's, and its contact was found, has opted in on the channel, has an
  -- address, and is held by neither list.
  abbrev pub Vetted : CampaignHistory → Contact → QueueMessage → Type 0
  Vetted h x q =
      (q.tenant_id ≡ tenant_id)
      × (q.channel ≡ channel)
      × Found tenant_id h x
      × (is_opted_in_on channel x ≡ true)
      × (is_empty (fan_out_recipient channel x) ≡ false)
      × Listed (fan_out_recipient channel x) h

  abbrev pub BatchVetted : CampaignCall → CampaignHistory → Type 0
  BatchVetted (enqueued_bulk qs r) h = Selects (Vetted h) (found_of h) qs
  BatchVetted c h = Unit

  -- Every batch in the history was vetted by what came before it.
  abbrev pub AllVetted : CampaignHistory → Type 0
  AllVetted [] = Unit
  AllVetted (c ∷ h) = BatchVetted c h × AllVetted h

-- The second history has everything that the first one has.
abbrev pub Grows : CampaignHistory → CampaignHistory → Type 1
Grows h h' = (P : CampaignCall → Type 0) → Any P h → Any P h'

pub Vetted-Grows :
    (env : CampaignEnv) (tenant_id : Uuid) (channel : Channel) (h h' : CampaignHistory)
    → Grows h h'
    → (x : Contact) (q : QueueMessage) → Vetted env tenant_id channel h x q
    → Vetted env tenant_id channel h' x q
Vetted-Grows env tenant_id channel h h' g x q (t, c, found, opted, there, (supp, unsub)) =
    (t, c, g _ found, opted, there, (λ e. g _ (supp e), λ e. g _ (unsub e)))
