-- ===== src/Campaigns/Execute.antt =====
-- core/services/campaign_service.go: `Execute`.
use spur_messaging.Prelude.{
  String, Bool, true, false, not, ◌&&◌, ◌||◌, Option, none, some, List, [], ◌∷◌, length, is_empty,
}
use spur_messaging.Domain.Errors.{
  sentinel, not_found, validation_error, campaign_not_executable, template_not_approved,
  queue_unavailable,
}
use spur_messaging.Domain.Message.{Uuid, Channel, is_email, is_whatsapp}
use spur_messaging.Domain.Contact.{Contact, is_opted_in_on}
use spur_messaging.Domain.Template.{Template, is_approved}
use spur_messaging.Domain.Campaign.{Campaign, campaign_running, campaign_failed, is_executable}
use spur_messaging.Calls.{Result, ok, err, Op, pure, fail, ◌>>=◌, ◌>>◌, call, draw, attempt, guard}
use spur_messaging.Message.Env.{QueueMessage}
use spur_messaging.Campaigns.Env.{
  CampaignCall, CampaignEnv, drew_id, read_clock, set_stats, asked_template, resolved_segment,
  asked_contact, asked_suppressed, asked_unsubscribed, enqueued_bulk,
}
use spur_messaging.Campaigns.Service.{fan_out_recipient, add_message, passes, put_status, find}

abbrev pub is_nonempty : List Contact → Bool
is_nonempty [] = false
is_nonempty (x ∷ xs) = true

module _ (env : CampaignEnv) (tenant_id : Uuid) where
  -- A failure to look the template up, whatever its kind, is `ErrNotFound`.
  abbrev pub template_of : Result Template → Op CampaignCall Template
  template_of (ok t) = pure t
  template_of (err e) = fail (sentinel not_found)

  unfoldable pub check_campaign_template : Campaign → Op CampaignCall (Unit {0})
  check_campaign_template campaign = do
    found ← attempt (
        call (λ h. env.get_template h tenant_id campaign.template_id)
          (asked_template tenant_id campaign.template_id))
    template ← template_of found
    guard (not (is_whatsapp campaign.channel) || is_approved template.status)
        (sentinel template_not_approved)

  abbrev pub add_found : Result Contact → List Contact → List Contact
  add_found (ok x) xs = x ∷ xs
  add_found (err e) xs = xs

  -- The contacts of a list that are still there.
  unfoldable pub find_each : List Uuid → Op CampaignCall (List Contact)
  find_each [] = pure []
  find_each (id ∷ ids) = do
    found ← attempt (call (λ h. env.get_contact h tenant_id id) (asked_contact tenant_id id))
    others ← find_each ids
    pure (add_found found others)

  -- The segment's contacts, or those of the list.
  unfoldable pub find_contacts : Option Uuid → List Uuid → Op CampaignCall (List Contact)
  unfolding find_each
  find_contacts (some segment) ids =
      call (λ h. env.resolve_contacts h tenant_id segment) (resolved_segment tenant_id segment)
  find_contacts none ids = find_each ids

  -- Whether the suppression list lets the recipient through; an error does not.
  abbrev pub ask_suppressed : Bool → Channel → String → Op CampaignCall Bool
  ask_suppressed false channel to = pure true
  ask_suppressed true channel to = do
    answer ← attempt (
        call (λ h. env.is_suppressed h tenant_id channel to)
          (asked_suppressed tenant_id channel to))
    pure (passes answer)

  abbrev pub ask_unsubscribed : Bool → String → Op CampaignCall Bool
  ask_unsubscribed false to = pure true
  ask_unsubscribed true to = do
    answer ←
        attempt (call (λ h. env.is_unsubscribed h tenant_id to) (asked_unsubscribed tenant_id to))
    pure (passes answer)

  -- The message for the queue.
  abbrev pub queue_message : Campaign → Op CampaignCall (Option QueueMessage)
  queue_message campaign = do
    id ← draw env.new_uuid drew_id
    now ← draw env.clock read_clock
    pure (
        some (record {
          message_id = id;
          tenant_id = tenant_id;
          channel = campaign.channel;
          priority = 0;
        }))

  abbrev pub unless_unsubscribed : Campaign → Bool → Op CampaignCall (Option QueueMessage)
  unless_unsubscribed campaign false = pure none
  unless_unsubscribed campaign true = queue_message campaign

  abbrev pub unless_suppressed : Campaign → String → Bool → Op CampaignCall (Option QueueMessage)
  unless_suppressed campaign to false = pure none
  unless_suppressed campaign to true = do
    passed ← ask_unsubscribed (is_email campaign.channel && env.has_unsubscribe) to
    unless_unsubscribed campaign passed

  abbrev pub if_addressed : Campaign → String → Bool → Op CampaignCall (Option QueueMessage)
  if_addressed campaign to false = pure none
  if_addressed campaign to true = do
    passed ← ask_suppressed env.has_suppression campaign.channel to
    unless_suppressed campaign to passed

  -- One turn of the fan-out.
  unfoldable pub fan_out_one : Campaign → Contact → Op CampaignCall (Option QueueMessage)
  unfolding fan_out_recipient is_opted_in_on
  fan_out_one campaign x =
      let to = fan_out_recipient campaign.channel x in
      if_addressed campaign to (is_opted_in_on campaign.channel x && not (is_empty to))

  unfoldable pub fan_out : Campaign → List Contact → Op CampaignCall (List QueueMessage)
  unfolding fan_out_one
  fan_out campaign [] = pure []
  fan_out campaign (x ∷ xs) = do
    q ← fan_out_one campaign x
    qs ← fan_out campaign xs
    pure (add_message q qs)

  -- A queue that refuses fails the campaign.
  abbrev pub after_bulk : Uuid → Result (Unit {0}) → Op CampaignCall (Unit {0})
  after_bulk id (ok u) = pure tt
  after_bulk id (err e) = do
    written ← attempt (put_status env tenant_id id campaign_failed)
    fail (sentinel queue_unavailable)

  unfoldable pub put_all : Uuid → List QueueMessage → Op CampaignCall (Unit {0})
  put_all id [] = pure tt
  put_all id (q ∷ qs) = do
    outcome ← attempt (call (λ h. env.enqueue_bulk h (q ∷ qs)) (enqueued_bulk (q ∷ qs)))
    after_bulk id outcome

  -- The queue and the counters.
  abbrev pub publish : Campaign → Uuid → List QueueMessage → Op CampaignCall (Unit {0})
  publish campaign id qs = do
    put_all id qs
    let stats = record campaign.stats { total = length qs; queued = length qs }
    call (λ h. env.update_stats h tenant_id id stats) (set_stats tenant_id id stats)

  -- The fan-out and what follows it.
  abbrev pub spread : Campaign → Uuid → List Contact → Unit {0} → Op CampaignCall (Unit {0})
  spread campaign id contacts u = fan_out campaign contacts >>= publish campaign id

  -- The status, then the fan-out.
  unfoldable pub run : Campaign → Uuid → List Contact → Op CampaignCall (Unit {0})
  unfolding fan_out put_all
  run campaign id contacts = do
    now ← draw env.clock read_clock
    put_status env tenant_id id campaign_running >>= spread campaign id contacts

  -- From the contacts on.
  abbrev pub reach : Uuid → Campaign → List Contact → Op CampaignCall (Unit {0})
  reach id campaign contacts = do
    guard (is_nonempty contacts) (validation_error "segment" "segment has no contacts")
    run campaign id contacts

  -- From the template on.
  unfoldable pub reach_out : Uuid → Campaign → Op CampaignCall (Unit {0})
  unfolding find_contacts run
  reach_out id campaign =
      find_contacts campaign.segment_id campaign.contact_ids >>= reach id campaign

  -- `Execute`.
  unfoldable pub execute : Uuid → Op CampaignCall (Unit {0})
  unfolding is_executable check_campaign_template reach_out
  execute id = do
    campaign ← find env tenant_id id
    guard (is_executable campaign.status) (sentinel campaign_not_executable)
    check_campaign_template campaign
    reach_out id campaign
