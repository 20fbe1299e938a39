-- ===== src/Campaigns/Executor.antt =====
-- worker/campaign_executor.go: `ExecuteCampaign`.
use spur_messaging.Prelude.{
  ℕ, suc, String, Bool, true, false, ◌&&◌, Option, none, some, List, [], ◌∷◌, length, is_empty,
  deref,
}
use spur_messaging.Domain.Message.{
  Uuid, Channel, whatsapp, sms, email, other_channel, is_email, outbound, template, queued, Message,
}
use spur_messaging.Domain.Contact.{Contact}
use spur_messaging.Domain.Template.{Template, is_approved}
use spur_messaging.Domain.Campaign.{
  CampaignStatus, CampaignStats, Campaign, campaign_running, campaign_completed, campaign_failed,
}
use spur_messaging.Calls.{Result, ok, err, Op, pure, ◌>>=◌, ◌>>◌, call, draw, attempt}
use spur_messaging.Message.Env.{QueueMessage}
use spur_messaging.Campaigns.Env.{
  CampaignCall, CampaignEnv, drew_id, read_clock, set_stats, asked_template, resolved_segment,
  asked_contact, asked_suppressed, asked_unsubscribed, asked_exists, created_message, enqueued,
}
use spur_messaging.Campaigns.Service.{no_stats, put_status}

-- What one turn of the loop comes to.
pub data Fate : Type 0 where
  was_known was_skipped was_queued queue_was_down : Fate

-- The answer beside an error that is dropped is `false`.
abbrev pub said_yes : Result Bool → Bool
said_yes (ok b) = b
said_yes (err e) = false

abbrev pub is_usable : Result Template → Bool
is_usable (ok t) = is_approved t.status
is_usable (err e) = false

-- `getRecipient`.
unfoldable pub get_recipient : Channel → Contact → String
get_recipient email x = deref x.email_address
get_recipient whatsapp x = deref x.phone
get_recipient sms x = deref x.phone
get_recipient (other_channel s) x = ""

abbrev pub add_failure : CampaignStats → CampaignStats
add_failure stats = record stats { failed = suc stats.failed }

abbrev pub add_queued : CampaignStats → CampaignStats
add_queued stats = record stats { queued = suc stats.queued }

module _ (env : CampaignEnv) (campaign : Campaign) where
  -- A status, whose error is dropped.
  abbrev pub mark : CampaignStatus → Op CampaignCall (Unit {0})
  mark status = do written ← attempt (put_status env campaign.tenant_id campaign.id status); pure tt

  -- The contacts of the list, and how many are gone.
  abbrev pub sort_out : Result Contact → ℕ × List Contact → ℕ × List Contact
  sort_out (ok x) (gone, xs) = (gone, x ∷ xs)
  sort_out (err e) (gone, xs) = (suc gone, xs)

  unfoldable pub look_up : List Uuid → Op CampaignCall (ℕ × List Contact)
  look_up [] = pure (0, [])
  look_up (id ∷ ids) = do
    found ←
        attempt (
          call (λ h. env.get_contact h campaign.tenant_id id) (asked_contact campaign.tenant_id id))
    others ← look_up ids
    pure (sort_out found others)

  unfoldable pub resolve : Option Uuid → List Uuid → Op CampaignCall (ℕ × List Contact)
  unfolding look_up
  resolve (some segment) ids = do
    xs ←
        call (λ h. env.resolve_contacts h campaign.tenant_id segment)
          (resolved_segment campaign.tenant_id segment)
    pure (0, xs)
  resolve none ids = look_up ids

  abbrev pub is_on_list : Bool → String → Op CampaignCall Bool
  is_on_list false to = pure false
  is_on_list true to = do
    answer ← attempt (
        call (λ h. env.is_suppressed h campaign.tenant_id campaign.channel to)
          (asked_suppressed campaign.tenant_id campaign.channel to))
    pure (said_yes answer)

  abbrev pub has_left : Bool → String → Op CampaignCall Bool
  has_left false to = pure false
  has_left true to = do
    answer ← attempt (
        call (λ h. env.is_unsubscribed h campaign.tenant_id to)
          (asked_unsubscribed campaign.tenant_id to))
    pure (said_yes answer)

  abbrev pub after_enqueue : Result (Unit {0}) → Op CampaignCall Fate
  after_enqueue (ok u) = pure was_queued
  after_enqueue (err e) = pure queue_was_down

  abbrev pub after_create : Message → Result (Unit {0}) → Op CampaignCall Fate
  after_create msg (err e) = pure was_skipped
  after_create msg (ok u) = do
    let q : QueueMessage = record {
      message_id = msg.id;
      tenant_id = msg.tenant_id;
      channel = msg.channel;
      priority = 0;
    }
    outcome ← attempt (call (λ h. env.enqueue h q) (enqueued q))
    after_enqueue outcome

  -- The message, its row and its place in the queue.
  unfoldable pub queue_recipient : String → Op CampaignCall Fate
  queue_recipient to = do
    id ← draw env.new_uuid drew_id
    now ← draw env.clock read_clock
    let msg : Message = record {
      id = id;
      tenant_id = campaign.tenant_id;
      campaign_id = some campaign.id;
      conversation_id = none;
      channel = campaign.channel;
      direction = outbound;
      recipient = to;
      sender = "";
      message_type = template;
      template_id = some campaign.template_id;
      template_name = none;
      template_params = campaign.template_params;
      text_body = none;
      media_url = none;
      media_type = none;
      provider_message_id = "";
      idempotency_key = none;
      status = queued;
      error_code = none;
      error_message = none;
      sent_at = none;
      failed_at = none;
      created_at = now;
      metadata = [];
    }
    outcome ← attempt (call (λ h. env.create_message h msg) (created_message msg))
    after_create msg outcome

  abbrev pub unless_left : String → Bool → Op CampaignCall Fate
  unless_left to true = pure was_skipped
  unless_left to false = queue_recipient to

  abbrev pub unless_on_list : String → Bool → Op CampaignCall Fate
  unless_on_list to true = pure was_skipped
  unless_on_list to false =
      has_left (is_email campaign.channel && env.has_unsubscribe) to >>= unless_left to

  abbrev pub unless_there : String → Bool → Op CampaignCall Fate
  unless_there to true = pure was_known
  unless_there to false = is_on_list env.has_suppression to >>= unless_on_list to

  abbrev pub unless_blank : String → Bool → Op CampaignCall Fate
  unless_blank to true = pure was_skipped
  unless_blank to false = do
    answer ←
        attempt (call (λ h. env.exists_for_campaign h campaign.id to) (asked_exists campaign.id to))
    unless_there to (said_yes answer)

  -- One turn of the loop.
  unfoldable pub send_one : Contact → Op CampaignCall Fate
  unfolding get_recipient queue_recipient
  send_one x = let to = get_recipient campaign.channel x in unless_blank to (is_empty to)

  -- The loop ends early, with no counters, where the queue is down.
  abbrev pub go_on :
      CampaignStats
      → (CampaignStats → Op CampaignCall (Option CampaignStats))
      → Fate
      → Op CampaignCall (Option CampaignStats)
  go_on stats rest was_known = rest stats
  go_on stats rest was_skipped = rest (add_failure stats)
  go_on stats rest was_queued = rest (add_queued stats)
  go_on stats rest queue_was_down = pure none

  unfoldable pub send_all : List Contact → CampaignStats → Op CampaignCall (Option CampaignStats)
  unfolding send_one
  send_all [] stats = pure (some stats)
  send_all (x ∷ xs) stats = send_one x >>= go_on stats (send_all xs)

  -- The last writes.
  unfoldable pub conclude : Option CampaignStats → Op CampaignCall (Unit {0})
  conclude none = mark campaign_failed
  conclude (some stats) = do
    mark campaign_completed
    written ← attempt (
        call (λ h. env.update_stats h campaign.tenant_id campaign.id stats)
          (set_stats campaign.tenant_id campaign.id stats))
    pure tt

  -- From the contacts on.
  unfoldable pub send_to : Result (ℕ × List Contact) → Op CampaignCall (Unit {0})
  unfolding send_all conclude
  send_to (err e) = mark campaign_failed
  send_to (ok (gone, xs)) =
      send_all xs (record no_stats { failed = gone; total = length xs }) >>= conclude

  abbrev pub if_usable : Bool → Op CampaignCall (Unit {0})
  if_usable false = mark campaign_failed
  if_usable true = do
    mark campaign_running
    attempt (resolve campaign.segment_id campaign.contact_ids) >>= send_to

  -- `ExecuteCampaign`.
  unfoldable pub execute_campaign : Op CampaignCall (Unit {0})
  unfolding resolve send_to
  execute_campaign = do
    found ← attempt (
        call (λ h. env.get_template h campaign.tenant_id campaign.template_id)
          (asked_template campaign.tenant_id campaign.template_id))
    if_usable (is_usable found)
