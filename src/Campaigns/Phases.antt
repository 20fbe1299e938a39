-- ===== src/Campaigns/Phases.antt =====
-- core/services/campaign_service.go: what the phases of `Execute` do to the status and the queue.
use spur_messaging.Prelude.{
  Option, none, some, suc, ◌≤◌, true, ◌≡◌, refl, ◌⊎◌, inl, List, [], ◌∷◌, arith,
}
use spur_messaging.Domain.Message.{Uuid}
use spur_messaging.Domain.Campaign.{
  CampaignStatus, Campaign, campaign_running, campaign_failed, is_executable,
}
use spur_messaging.Calls.{ok, bind_cases, bind_cases}
use spur_messaging.Message.Env.{QueueMessage}
use spur_messaging.Domain.Contact.{Contact}
use spur_messaging.Campaigns.Env.{
  CampaignHistory, CampaignEnv, asked_campaign, set_status, read_clock, asked_contact,
}
use spur_messaging.Campaigns.Execute.{
  execute, reach, reach_out, check_campaign_template, find_contacts, find_each, fan_out_one, run,
  fan_out, put_all,
}
use spur_messaging.Campaigns.Machine.{status_after, batches}

-- The phases of `Execute` that write no status and queue nothing.
module _ (env : CampaignEnv) (tenant_id : Uuid) (s : CampaignStatus) where
  abbrev pub Still : CampaignHistory → CampaignHistory → Type 0
  Still h h' = (status_after s h' ≡ status_after s h) × (batches h' ≡ batches h)

  check_campaign_template-Still :
      (c : Campaign) (h : CampaignHistory) → Still h (check_campaign_template env tenant_id c h).1
  unfolding check_campaign_template
  check_campaign_template-Still c h = ground arith

  find_each-Still :
      (ids : List Uuid) (h : CampaignHistory) → Still h (find_each env tenant_id ids h).1
  unfolding find_each
  find_each-Still [] h = (refl, refl)
  find_each-Still (id ∷ ids) h =
      let later =
        find_each-Still ids (asked_contact tenant_id id (env.get_contact h tenant_id id) ∷ h) in
      ground arith

  find_contacts-Still :
      (segment : Option Uuid) (ids : List Uuid) (h : CampaignHistory)
      → Still h (find_contacts env tenant_id segment ids h).1
  unfolding find_contacts
  find_contacts-Still (some segment) ids h = (refl, refl)
  find_contacts-Still none ids h = find_each-Still ids h

  fan_out_one-Still :
      (c : Campaign) (x : Contact) (h : CampaignHistory)
      → Still h (fan_out_one env tenant_id c x h).1
  unfolding fan_out_one
  fan_out_one-Still c x h = ground arith

  fan_out-Still :
      (c : Campaign) (xs : List Contact) (h : CampaignHistory)
      → Still h (fan_out env tenant_id c xs h).1
  unfolding fan_out
  fan_out-Still c [] h = (refl, refl)
  fan_out-Still c (x ∷ xs) h =
      let first = fan_out_one-Still c x h in
      let later = fan_out-Still c xs (fan_out_one env tenant_id c x h).1 in ground arith

  -- One batch at most goes out, and a row whose batch the queue refuses fails.
  put_all_lem :
      (id : Uuid) (qs : List QueueMessage) (h : CampaignHistory)
      → let h' = (put_all env tenant_id id qs h).1 in
        (batches h' ≤ suc (batches h))
        × ((status_after s h' ≡ status_after s h) ⊎ (status_after s h' ≡ campaign_failed))
  unfolding put_all
  put_all_lem id [] h = ground arith
  put_all_lem id (q ∷ qs) h = ground arith

  -- Nothing changes, or the row is running or failed and one batch at most went out.
  abbrev pub Moves : CampaignHistory → CampaignHistory → Type 0
  Moves h h' =
      Still h h'
      ⊎ ((batches h' ≤ suc (batches h))
          × ((status_after s h' ≡ campaign_running) ⊎ (status_after s h' ≡ campaign_failed)))

  run_lem :
      (c : Campaign) (id : Uuid) (xs : List Contact) (h : CampaignHistory)
      → Moves h (run env tenant_id c id xs h).1
  unfolding run
  run_lem c id xs h =
      let h1 = read_clock (env.clock h) ∷ h in
      let h2 =
        set_status tenant_id id campaign_running
          (env.update_status h1 tenant_id id campaign_running)
        ∷ h1 in
      let fanned = fan_out-Still c xs h2 in grind (arith, put_all_lem)

  Moves-after : (h h1 h2 : CampaignHistory) → Still h h1 → Moves h1 h2 → Moves h h2
  Moves-after h h1 h2 a b = ground arith

  reach_lem :
      (c : Campaign) (id : Uuid) (xs : List Contact) (h : CampaignHistory)
      → Moves h (reach env tenant_id id c xs h).1
  reach_lem c id [] h = inl (refl, refl)
  reach_lem c id (x ∷ xs) h = run_lem c id (x ∷ xs) h

  reach_out_lem :
      (c : Campaign) (id : Uuid) (h : CampaignHistory) → Moves h (reach_out env tenant_id id c h).1
  unfolding reach_out
  reach_out_lem c id h =
      let find = find_contacts env tenant_id c.segment_id c.contact_ids in
      let resolved = find_contacts-Still c.segment_id c.contact_ids h in
      bind_cases find (reach env tenant_id id c) h (λ out. Moves h out.1) (λ e p. inl resolved)
        (λ xs p.
          Moves-after h (find h).1 (reach env tenant_id id c xs (find h).1).1 resolved
            (reach_lem c id xs (find h).1))

  pub execute_lem :
      (id : Uuid) {c : Campaign} (h : CampaignHistory)
      → env.get_campaign h tenant_id id ≡ ok c
      → is_executable c.status ≡ true
      → Moves h (execute env tenant_id id h).1
  unfolding execute
  execute_lem id {c} h found may =
      let h1 = asked_campaign tenant_id id (ok c) ∷ h in
      let checked = check_campaign_template-Still c h1 in
      let moved = reach_out_lem c id (check_campaign_template env tenant_id c h1).1 in ground arith
