-- ===== src/Campaigns/Safety.antt =====
-- core/services/campaign_service.go: what `Execute` guarantees of the batch that it queues.
use mathlib.Core.Path.{subst}
use spur_messaging.Prelude.{◌≡◌, sym, ◌∙◌, inr, List, [], ◌∷◌, ◌++◌, All, All-map, arith}
use spur_messaging.Domain.Message.{Uuid}
use spur_messaging.Domain.Contact.{Contact}
use spur_messaging.Domain.Campaign.{Campaign, campaign_running, is_executable}
use spur_messaging.Calls.{ok, Op, bind_cases, ◌>>=◌}
use spur_messaging.Message.Env.{QueueMessage}
use spur_messaging.Campaigns.Env.{
  CampaignCall, CampaignHistory, CampaignEnv, asked_campaign, read_clock,
}
use spur_messaging.Campaigns.Service.{put_status}
use spur_messaging.Campaigns.Execute.{
  execute, reach, reach_out, check_campaign_template, find_contacts, fan_out, run, publish, spread,
}
use spur_messaging.Campaigns.Vetted.{
  OnOk, Found, found_of, Selects, skip_all, find_contacts-found_of, fan_out-found_of, AllVetted,
  Vetted, check_template_vetted, find_contacts-Found, find_contacts-Fine, fan_out-Vetted,
  fan_out-Fine, put_all-Fine,
}

module _ (env : CampaignEnv) (tenant_id : Uuid) (c : Campaign) where
  abbrev Fine : CampaignHistory → Type 0
  Fine = AllVetted env tenant_id c.channel

  bind-Fine :
      {A B : Type 0} (m : Op CampaignCall A) (f : A → Op CampaignCall B) (h : CampaignHistory)
      → Fine (m h).1
      → ((a : A) → (m h).0 ≡ ok a → Fine (f a (m h).1).1)
      → Fine ((m >>= f) h).1
  bind-Fine m f h v k = bind_cases m f h (λ out. Fine out.1) (λ e p. v) k

  publish-Fine :
      (id : Uuid) (qs : List QueueMessage) (h : CampaignHistory)
      → Fine h
      → Selects (Vetted env tenant_id c.channel h) (found_of h) qs
      → Fine (publish env tenant_id c id qs h).1
  publish-Fine id qs h v a =
      let put = put_all-Fine env tenant_id c.channel id qs h v a in ground arith

  spread-Fine :
      (id : Uuid) (xs ys : List Contact) (u : Unit {0}) (h : CampaignHistory)
      → Fine h
      → All (Found tenant_id h) xs
      → found_of h ≡ ys ++ xs
      → Fine (spread env tenant_id c id xs u h).1
  spread-Fine id xs ys u h v f found =
      let m = fan_out env tenant_id c xs in
      let fine = fan_out-Fine env tenant_id c.channel c xs h v in
      bind-Fine m (publish env tenant_id c id) h fine (λ qs p. publish-Fine id qs (m h).1 fine (
        subst (λ zs. Selects (Vetted env tenant_id c.channel (m h).1) zs qs)
          (sym (fan_out-found_of env tenant_id c xs h ∙ found))
          (skip_all ys (
            subst (OnOk (Selects (Vetted env tenant_id c.channel (m h).1) xs)) p
              (fan_out-Vetted env tenant_id c xs h f)))))

  reach-Fine :
      (id : Uuid) (xs ys : List Contact) (h : CampaignHistory)
      → Fine h
      → All (Found tenant_id h) xs
      → found_of h ≡ ys ++ xs
      → Fine (reach env tenant_id id c xs h).1
  unfolding run
  reach-Fine id [] ys h v f found = v
  reach-Fine id (x ∷ xs) ys h v f found =
      let h1 = read_clock (env.clock h) ∷ h in
      bind-Fine (put_status env tenant_id id campaign_running) (spread env tenant_id c id (x ∷ xs))
        h1 (tt, (tt, v))
        (λ u p.
          spread-Fine id (x ∷ xs) ys u (put_status env tenant_id id campaign_running h1).1
            (tt, (tt, v)) (All-map (λ y m. inr (inr m)) (x ∷ xs) f) found)

  reach_out-Fine :
      (id : Uuid) (h : CampaignHistory) → Fine h → Fine (reach_out env tenant_id id c h).1
  unfolding reach_out
  reach_out-Fine id h v =
      let m = find_contacts env tenant_id c.segment_id c.contact_ids in
      let fine = find_contacts-Fine env tenant_id c.channel c.segment_id c.contact_ids h v in
      bind-Fine m (reach env tenant_id id c) h fine (λ xs p.
        reach-Fine id xs (found_of h) (m h).1 fine
          (subst (OnOk (All (Found tenant_id (m h).1))) p
            (find_contacts-Found env tenant_id c.segment_id c.contact_ids h))
          (subst (OnOk (λ ys. found_of (m h).1 ≡ found_of h ++ ys)) p
            (find_contacts-found_of env tenant_id c.segment_id c.contact_ids h)))

  -- Let `GetByID` answer a campaign, and every batch before be vetted. Then so is every batch after
  -- `Execute`: its messages belong to contacts that calls before it found, in the order in which they
  -- were found, and each contact that was found has one message at most. The message is the tenant's and
  -- on the campaign's channel; its own contact is the tenant's, has opted in on the channel and has a
  -- recipient text that is not empty, of which the suppression list and, for email, the unsubscribe
  -- list, where these services exist, answered that they do not hold it. Errors of the calls change
  -- nothing.
  pub execute_vetted :
      (id : Uuid) (h : CampaignHistory)
      → env.get_campaign h tenant_id id ≡ ok c
      → AllVetted env tenant_id c.channel h
      → AllVetted env tenant_id c.channel (execute env tenant_id id h).1
  unfolding execute is_executable
  execute_vetted id h found v =
      let h1 = asked_campaign tenant_id id (ok c) ∷ h in
      let checked = check_template_vetted env tenant_id c.channel c h1 (tt, v) in
      let done = reach_out-Fine id (check_campaign_template env tenant_id c h1).1 checked in
      ground arith
