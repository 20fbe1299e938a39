-- ===== src/Campaigns/Progress.antt =====
-- worker/campaign_executor.go: the counters that `ExecuteCampaign` reports.
use mathlib.Core.Path.{subst}
use spur_messaging.Prelude.{
  ℕ, suc, ◌+◌, ◌≤◌, ◌≡◌, refl, Bool, true, false, Option, none, some, List, [], ◌∷◌, length, arith,
}
use spur_messaging.Domain.Message.{Uuid}
use spur_messaging.Domain.Contact.{Contact}
use spur_messaging.Domain.Campaign.{
  CampaignStats, Campaign, campaign_running, campaign_completed, campaign_failed,
}
use spur_messaging.Calls.{Result, ok, err, bind_cases}
use spur_messaging.Campaigns.Env.{
  CampaignHistory, CampaignEnv, asked_contact, asked_template, resolved_segment, set_stats,
  set_status, enqueued,
}
use spur_messaging.Campaigns.Service.{no_stats}
use spur_messaging.Campaigns.Executor.{
  Fate, was_known, was_skipped, was_queued, queue_was_down, add_failure, add_queued, look_up,
  resolve, send_one, go_on, send_all, conclude, send_to, if_usable, is_usable, execute_campaign,
}

-- The messages that the queue accepted.
abbrev pub accepted : CampaignHistory → ℕ
accepted [] = 0
accepted (enqueued q (ok u) ∷ h) = suc (accepted h)
accepted (c ∷ h) = accepted h

-- The contacts that were looked up and not found.
abbrev pub misses : CampaignHistory → ℕ
misses [] = 0
misses (asked_contact t id (err e) ∷ h) = suc (misses h)
misses (c ∷ h) = misses h

-- The contacts that were found, by a segment or one by one.
abbrev pub finds : CampaignHistory → ℕ
finds [] = 0
finds (resolved_segment t id (ok xs) ∷ h) = length xs + finds h
finds (asked_contact t id (ok x) ∷ h) = suc (finds h)
finds (c ∷ h) = finds h

-- The run ends with the failed status, or with the completed one and these counters: the contacts
-- found, what the queue accepted, and no more queued and failed together than contacts found and missed.
abbrev pub IsReported : Campaign → CampaignHistory → Type 0
IsReported c (set_stats t id s r ∷ set_status u j campaign_completed x ∷ h) =
    (t ≡ c.tenant_id)
    × (id ≡ c.id)
    × (u ≡ c.tenant_id)
    × (j ≡ c.id)
    × (s.total ≡ finds h)
    × (s.queued ≡ accepted h)
    × (s.queued + s.failed ≤ s.total + misses h)
    × (misses h ≤ s.failed)
IsReported c (set_status t id campaign_failed r ∷ h) = (t ≡ c.tenant_id) × (id ≡ c.id)
IsReported c h = ⊥

abbrev Turned : Result Fate → CampaignHistory → CampaignHistory → Type 0
Turned (ok was_queued) h h' =
    (accepted h' ≡ suc (accepted h)) × (misses h' ≡ misses h) × (finds h' ≡ finds h)
Turned (ok f) h h' = (accepted h' ≡ accepted h) × (misses h' ≡ misses h) × (finds h' ≡ finds h)
Turned (err e) h h' = ⊥

abbrev Tallied :
    ℕ → CampaignStats → CampaignHistory → Result (Option CampaignStats) × CampaignHistory → Type 0
Tallied n s h (ok (some s'), h') =
    (s'.total ≡ s.total)
    × (s'.queued + accepted h ≡ s.queued + accepted h')
    × (s'.queued + s'.failed ≤ s.queued + s.failed + n)
    × (s.failed ≤ s'.failed)
    × (misses h' ≡ misses h)
    × (finds h' ≡ finds h)
Tallied n s h (ok none, h') = Unit
Tallied n s h (err e, h') = ⊥

abbrev Resolved : CampaignHistory → Result (ℕ × List Contact) × CampaignHistory → Type 0
Resolved h (ok (gone, xs), h') =
    (misses h' ≡ gone + misses h) × (accepted h' ≡ accepted h) × (finds h' ≡ length xs + finds h)
Resolved h (err e, h') = Unit

module _ (env : CampaignEnv) (c : Campaign) where
  send_one_lem :
      (x : Contact) (h : CampaignHistory) → let (r, h') = send_one env c x h in Turned r h h'
  unfolding send_one
  send_one_lem x h = ground arith

  go_on_lem :
      (xs : List Contact) (s : CampaignStats) (f : Fate) (h h1 : CampaignHistory)
      → ((t : CampaignStats) → Tallied (length xs) t h1 (send_all env c xs t h1))
      → Turned (ok f) h h1
      → Tallied (suc (length xs)) s h (go_on env c s (send_all env c xs) f h1)
  go_on_lem xs s was_known h h1 ih t = let later = ih s in ground arith
  go_on_lem xs s was_skipped h h1 ih t = let later = ih (add_failure s) in ground arith
  go_on_lem xs s was_queued h h1 ih t = let later = ih (add_queued s) in ground arith
  go_on_lem xs s queue_was_down h h1 ih t = tt

  send_all_lem :
      (xs : List Contact) (s : CampaignStats) (h : CampaignHistory)
      → Tallied (length xs) s h (send_all env c xs s h)
  unfolding send_all
  send_all_lem [] s h = ground arith
  send_all_lem (x ∷ xs) s h =
      let h1 = (send_one env c x h).1 in
      bind_cases (send_one env c x) (go_on env c s (send_all env c xs)) h
        (Tallied (suc (length xs)) s h) (λ e p. subst (λ r. Turned r h h1) p (send_one_lem x h))
        (λ f p.
          go_on_lem xs s f h h1 (λ t. send_all_lem xs t h1)
            (subst (λ r. Turned r h h1) p (send_one_lem x h)))

  look_up_lem : (ids : List Uuid) (h : CampaignHistory) → Resolved h (look_up env c ids h)
  unfolding look_up
  look_up_lem [] h = (omega arith, refl, omega arith)
  look_up_lem (id ∷ ids) h =
      let later =
        look_up_lem ids (asked_contact c.tenant_id id (env.get_contact h c.tenant_id id) ∷ h) in
      ground arith

  resolve_lem :
      (segment : Option Uuid) (ids : List Uuid) (h : CampaignHistory)
      → Resolved h (resolve env c segment ids h)
  unfolding resolve
  resolve_lem (some segment) ids h = ground arith
  resolve_lem none ids h = look_up_lem ids h

  -- What holds before the contacts are looked up.
  abbrev IsFresh : CampaignHistory → Type 0
  IsFresh h = (misses h ≡ 0) × (accepted h ≡ 0) × (finds h ≡ 0)

  send_to_lem :
      (r : Result (ℕ × List Contact)) (h0 h : CampaignHistory)
      → IsFresh h0
      → Resolved h0 (r, h)
      → IsReported c (send_to env c r h).1
  unfolding send_to conclude
  send_to_lem (err e) h0 h f g = (refl, refl)
  send_to_lem (ok (gone, xs)) h0 h f g =
      let s : CampaignStats = record no_stats { failed = gone; total = length xs } in
      let sent = send_all_lem xs s h in ground arith

  if_usable_lem :
      (b : Bool) (h : CampaignHistory) → IsFresh h → IsReported c (if_usable env c b h).1
  if_usable_lem false h f = (refl, refl)
  if_usable_lem true h f =
      let h1 =
        set_status c.tenant_id c.id campaign_running
          (env.update_status h c.tenant_id c.id campaign_running)
        ∷ h in
      let out = resolve env c c.segment_id c.contact_ids h1 in
      send_to_lem out.0 h1 out.1 f (resolve_lem c.segment_id c.contact_ids h1)

  -- `ExecuteCampaign`, from the start of its run, ends by marking its campaign failed, or by marking
  -- it completed and storing its counters. Then `total` is the number of contacts found, `queued` is the number of messages that the queue
  -- accepted, every contact that was not found counts as failed, and the messages queued and failed
  -- are together at most the contacts found and those not found. So it does whichever calls fail.
  pub execute_campaign-IsReported : IsReported c (execute_campaign env c []).1
  unfolding execute_campaign
  execute_campaign-IsReported =
      let r = env.get_template [] c.tenant_id c.template_id in
      if_usable_lem (is_usable r) (asked_template c.tenant_id c.template_id r ∷ [])
        (refl, refl, refl)
