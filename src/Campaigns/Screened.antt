-- ===== src/Campaigns/Screened.antt =====
-- worker/campaign_executor.go: to whom `ExecuteCampaign` sends.
use spur_messaging.Prelude.{
  String, Bool, true, false, ◌&&◌, ◌≡◌, Option, none, some, List, [], ◌∷◌, is_empty, arith, Any, ℕ,
  length,
}
use spur_messaging.Domain.Message.{Uuid, is_email}
use spur_messaging.Domain.Contact.{Contact}
use spur_messaging.Domain.Campaign.{CampaignStats, Campaign, campaign_running}
use spur_messaging.Calls.{Result, ok, err, bind_cases}
use spur_messaging.Campaigns.Env.{
  CampaignCall, CampaignHistory, CampaignEnv, asked_contact, asked_template, set_status, enqueued,
  created_message, asked_exists, asked_suppressed, asked_unsubscribed,
}
use spur_messaging.Campaigns.Service.{no_stats}
use spur_messaging.Campaigns.Executor.{
  Fate, was_known, was_skipped, was_queued, queue_was_down, add_failure, add_queued, look_up,
  resolve, send_one, go_on, send_all, conclude, send_to, if_usable, is_usable, execute_campaign,
}

-- No yes, but perhaps an error.
abbrev pub IsNoYes : Result Bool → Type 0
IsNoYes (ok true) = ⊥
IsNoYes _ = Unit

module _ (env : CampaignEnv) (c : Campaign) where
  abbrev pub ShowsNew : String → CampaignCall → Type 0
  ShowsNew to (asked_exists i r answer) = (i ≡ c.id) × (r ≡ to) × IsNoYes answer
  ShowsNew to x = ⊥

  abbrev pub ShowsUnlisted : String → CampaignCall → Type 0
  ShowsUnlisted to (asked_suppressed t ch r answer) =
      (t ≡ c.tenant_id) × (ch ≡ c.channel) × (r ≡ to) × IsNoYes answer
  ShowsUnlisted to x = ⊥

  abbrev pub ShowsSubscribed : String → CampaignCall → Type 0
  ShowsSubscribed to (asked_unsubscribed t r answer) = (t ≡ c.tenant_id) × (r ≡ to) × IsNoYes answer
  ShowsSubscribed to x = ⊥

  -- A row is written only after the questions about its recipient, and what is queued is the row
  -- that the call before stored.
  abbrev pub CallScreened : CampaignCall → CampaignHistory → Type 0
  CallScreened (created_message m r) h =
      (m.tenant_id ≡ c.tenant_id)
      × (m.campaign_id ≡ some c.id)
      × (is_empty m.recipient ≡ false)
      × Any (ShowsNew m.recipient) h
      × (env.has_suppression ≡ true → Any (ShowsUnlisted m.recipient) h)
      × (is_email c.channel && env.has_unsubscribe ≡ true → Any (ShowsSubscribed m.recipient) h)
  CallScreened (enqueued q r) (created_message m (ok u) ∷ h) =
      (q.message_id ≡ m.id) × (q.tenant_id ≡ m.tenant_id) × (q.channel ≡ m.channel)
  CallScreened (enqueued q r) h = ⊥
  CallScreened x h = Unit

  abbrev pub AllScreened : CampaignHistory → Type 0
  AllScreened [] = Unit
  AllScreened (x ∷ h) = CallScreened x h × AllScreened h

  send_one_screened :
      (x : Contact) (h : CampaignHistory) → AllScreened h → AllScreened (send_one env c x h).1
  unfolding send_one
  send_one_screened x h a = ground arith

  go_on_screened :
      (xs : List Contact) (s : CampaignStats) (f : Fate) (h : CampaignHistory)
      → ((t : CampaignStats) → AllScreened (send_all env c xs t h).1)
      → AllScreened h
      → AllScreened (go_on env c s (send_all env c xs) f h).1
  go_on_screened xs s was_known h ih a = ih s
  go_on_screened xs s was_skipped h ih a = ih (add_failure s)
  go_on_screened xs s was_queued h ih a = ih (add_queued s)
  go_on_screened xs s queue_was_down h ih a = a

  send_all_screened :
      (xs : List Contact) (s : CampaignStats) (h : CampaignHistory)
      → AllScreened h
      → AllScreened (send_all env c xs s h).1
  unfolding send_all
  send_all_screened [] s h a = a
  send_all_screened (x ∷ xs) s h a =
      let h1 = (send_one env c x h).1 in
      let first = send_one_screened x h a in
      bind_cases (send_one env c x) (go_on env c s (send_all env c xs)) h (λ out. AllScreened out.1)
        (λ e p. first)
        (λ f p. go_on_screened xs s f h1 (λ t. send_all_screened xs t h1 first) first)

  look_up_screened :
      (ids : List Uuid) (h : CampaignHistory) → AllScreened h → AllScreened (look_up env c ids h).1
  unfolding look_up
  look_up_screened [] h a = a
  look_up_screened (id ∷ ids) h a =
      let later =
        look_up_screened ids (asked_contact c.tenant_id id (env.get_contact h c.tenant_id id) ∷ h)
          (tt, a) in
      ground arith

  resolve_screened :
      (segment : Option Uuid) (ids : List Uuid) (h : CampaignHistory)
      → AllScreened h
      → AllScreened (resolve env c segment ids h).1
  unfolding resolve
  resolve_screened (some segment) ids h a = ground arith
  resolve_screened none ids h a = look_up_screened ids h a

  send_to_screened :
      (r : Result (ℕ × List Contact)) (h : CampaignHistory)
      → AllScreened h
      → AllScreened (send_to env c r h).1
  unfolding send_to conclude
  send_to_screened (err e) h a = (tt, a)
  send_to_screened (ok (gone, xs)) h a =
      let s : CampaignStats = record no_stats { failed = gone; total = length xs } in
      let sent = send_all_screened xs s h a in ground arith

  if_usable_screened :
      (b : Bool) (h : CampaignHistory) → AllScreened h → AllScreened (if_usable env c b h).1
  if_usable_screened false h a = (tt, a)
  if_usable_screened true h a =
      let h1 =
        set_status c.tenant_id c.id campaign_running
          (env.update_status h c.tenant_id c.id campaign_running)
        ∷ h in
      let out = resolve env c c.segment_id c.contact_ids h1 in
      send_to_screened out.0 out.1 (resolve_screened c.segment_id c.contact_ids h1 (tt, a))

  -- In the whole run of `ExecuteCampaign`, every message that it stores is its tenant's and its
  -- campaign's and has a recipient; an earlier call did not find a message of the campaign to that
  -- recipient, and the suppression list and, for email, the unsubscribe list, where these services
  -- exist, were asked about the recipient and did not say yes. Whatever it queues is the message
  -- that the call before has stored.
  pub execute_campaign_screened : AllScreened (execute_campaign env c []).1
  unfolding execute_campaign
  execute_campaign_screened =
      let r = env.get_template [] c.tenant_id c.template_id in
      if_usable_screened (is_usable r) (asked_template c.tenant_id c.template_id r ∷ []) (tt, tt)
