-- ===== src/Campaigns/Vetted.antt =====
-- core/services/campaign_service.go: to whom `Execute` sends.
pub mod Growth
pub use spur_messaging.Campaigns.Vetted.Growth.{
  ShowsContact, Found, found_of, Selects, nobody, skips, serves, skip_all, OnOk, Grows,
  Vetted-Grows, Listed, Vetted, AllVetted,
}
use mathlib.Core.Path.{subst}
use mathlib.Core.List.{append-nil, append_assoc}
use spur_messaging.Prelude.{
  String, true, false, ◌&&◌, ◌≡◌, refl, sym, ◌∙◌, ap, inl, inr, Option, none, some, List, [], ◌∷◌,
  ◌++◌, is_empty, arith, All, Any, All-map, All-members,
}
use spur_messaging.Domain.Message.{Uuid, Channel, is_email}
use spur_messaging.Domain.Contact.{Contact, is_opted_in_on}
use spur_messaging.Domain.Campaign.{Campaign}
use spur_messaging.Calls.{Result, ok, err, Op, bind_cases, ◌>>=◌, pure}
use spur_messaging.Message.Env.{QueueMessage}
use spur_messaging.Campaigns.Env.{
  CampaignCall, CampaignHistory, CampaignEnv, asked_contact, resolved_segment, asked_suppressed,
  asked_unsubscribed, enqueued_bulk,
}
use spur_messaging.Campaigns.Service.{fan_out_recipient, add_message}
use spur_messaging.Campaigns.Execute.{
  check_campaign_template, find_contacts, find_each, add_found, fan_out_one, fan_out, put_all,
}

module _ (env : CampaignEnv) (tenant_id : Uuid) where
  pub check_template_vetted :
      (channel : Channel) (c : Campaign) (h : CampaignHistory)
      → AllVetted env tenant_id channel h
      → AllVetted env tenant_id channel (check_campaign_template env tenant_id c h).1
  unfolding check_campaign_template
  check_template_vetted channel c h v = ground arith

  find_each_keeps :
      (ids : List Uuid) (P : CampaignCall → Type 0) (h : CampaignHistory)
      → Any P h
      → Any P (find_each env tenant_id ids h).1
  unfolding find_each
  find_each_keeps [] P h a = a
  find_each_keeps (id ∷ ids) P h a =
      let later =
        find_each_keeps ids P (asked_contact tenant_id id (env.get_contact h tenant_id id) ∷ h)
          (inr a) in
      ground arith

  add_found_lem :
      (id : Uuid) (r : Result Contact) (ids : List Uuid) (h : CampaignHistory)
      → let out = find_each env tenant_id ids (asked_contact tenant_id id r ∷ h) in
        OnOk (All (Found tenant_id out.1)) out.0
        → OnOk (λ xs. All (Found tenant_id out.1) (add_found env tenant_id r xs)) out.0
  add_found_lem id (ok y) ids h f =
      let first =
        find_each_keeps ids (ShowsContact tenant_id y) (asked_contact tenant_id id (ok y) ∷ h)
          (inl (refl, refl)) in
      ground arith
  add_found_lem id (err e) ids h f = f

  -- Every contact that is resolved was found.
  find_each-Found :
      (ids : List Uuid) (h : CampaignHistory)
      → let (r, h') = find_each env tenant_id ids h in OnOk (All (Found tenant_id h')) r
  unfolding find_each
  find_each-Found [] h = tt
  find_each-Found (id ∷ ids) h =
      let r = env.get_contact h tenant_id id in
      let later =
        add_found_lem id r ids h (find_each-Found ids (asked_contact tenant_id id r ∷ h)) in
      ground arith

  resolved_lem :
      (segment : Uuid) (r : Result (List Contact)) (h : CampaignHistory)
      → OnOk (All (Found tenant_id (resolved_segment tenant_id segment r ∷ h))) r
  resolved_lem segment (ok xs) h = All-map (λ x m. inl (refl, m)) xs (All-members xs)
  resolved_lem segment (err e) h = tt

  pub find_contacts-Found :
      (segment : Option Uuid) (ids : List Uuid) (h : CampaignHistory)
      → let (r, h') = find_contacts env tenant_id segment ids h in OnOk (All (Found tenant_id h')) r
  unfolding find_contacts
  find_contacts-Found (some segment) ids h =
      resolved_lem segment (env.resolve_contacts h tenant_id segment) h
  find_contacts-Found none ids h = find_each-Found ids h

  add_found-found_of :
      (id : Uuid) (r : Result Contact) (o : Result (List Contact)) (h h' : CampaignHistory)
      → OnOk (λ xs. found_of h' ≡ found_of (asked_contact tenant_id id r ∷ h) ++ xs) o
      → OnOk (λ xs. found_of h' ≡ found_of h ++ add_found env tenant_id r xs) o
  add_found-found_of id (ok x) (ok xs) h h' e = e ∙ append_assoc (found_of h) (x ∷ []) xs
  add_found-found_of id (err x) (ok xs) h h' e = e
  add_found-found_of id r (err x) h h' e = tt

  find_each-found_of :
      (ids : List Uuid) (h : CampaignHistory)
      → let (r, h') = find_each env tenant_id ids h in OnOk (λ xs. found_of h' ≡ found_of h ++ xs) r
  unfolding find_each
  find_each-found_of [] h = sym (append-nil (found_of h))
  find_each-found_of (id ∷ ids) h =
      let r = env.get_contact h tenant_id id in
      let out = find_each env tenant_id ids (asked_contact tenant_id id r ∷ h) in
      let later =
        add_found-found_of id r out.0 h out.1
          (find_each-found_of ids (asked_contact tenant_id id r ∷ h)) in
      ground arith

  segment-found_of :
      (segment : Uuid) (r : Result (List Contact)) (h : CampaignHistory)
      → OnOk (λ xs. found_of (resolved_segment tenant_id segment r ∷ h) ≡ found_of h ++ xs) r
  segment-found_of segment (ok xs) h = refl
  segment-found_of segment (err e) h = tt

  pub find_contacts-found_of :
      (segment : Option Uuid) (ids : List Uuid) (h : CampaignHistory)
      → let (r, h') = find_contacts env tenant_id segment ids h in
        OnOk (λ xs. found_of h' ≡ found_of h ++ xs) r
  unfolding find_contacts
  find_contacts-found_of (some segment) ids h =
      segment-found_of segment (env.resolve_contacts h tenant_id segment) h
  find_contacts-found_of none ids h = find_each-found_of ids h

  fan_out_one-found_of :
      (c : Campaign) (x : Contact) (h : CampaignHistory)
      → found_of (fan_out_one env tenant_id c x h).1 ≡ found_of h
  unfolding fan_out_one
  fan_out_one-found_of c x h = ground arith

  pub fan_out-found_of :
      (c : Campaign) (xs : List Contact) (h : CampaignHistory)
      → found_of (fan_out env tenant_id c xs h).1 ≡ found_of h
  unfolding fan_out
  fan_out-found_of c [] h = refl
  fan_out-found_of c (x ∷ xs) h =
      let first = fan_out_one-found_of c x h in
      let later = fan_out-found_of c xs (fan_out_one env tenant_id c x h).1 in ground arith

  fan_out_one_keeps :
      (c : Campaign) (x : Contact) (P : CampaignCall → Type 0) (h : CampaignHistory)
      → Any P h
      → Any P (fan_out_one env tenant_id c x h).1
  unfolding fan_out_one
  fan_out_one_keeps c x P h a = ground arith

  fan_out_one_lem :
      (c : Campaign) (x : Contact) (h : CampaignHistory) {q : QueueMessage}
      → let (r, h') = fan_out_one env tenant_id c x h in
        r ≡ ok (some q)
        → (q.tenant_id ≡ tenant_id)
          × (q.channel ≡ c.channel)
          × (is_opted_in_on c.channel x ≡ true)
          × (is_empty (fan_out_recipient c.channel x) ≡ false)
          × Listed env tenant_id c.channel (fan_out_recipient c.channel x) h'
  unfolding fan_out_one
  fan_out_one_lem c x h e = ground arith

  fan_out_keeps :
      (c : Campaign) (xs : List Contact) (h : CampaignHistory)
      → Grows h (fan_out env tenant_id c xs h).1
  unfolding fan_out
  fan_out_keeps c [] h P a = a
  fan_out_keeps c (x ∷ xs) h P a =
      let first = fan_out_one_keeps c x P h a in
      let later = fan_out_keeps c xs (fan_out_one env tenant_id c x h).1 P first in ground arith

  add_message_lem :
      (P : CampaignHistory → Contact → QueueMessage → Type 0) (x : Contact) (xs : List Contact)
      (m : Op CampaignCall (List QueueMessage)) (o : Option QueueMessage) (h : CampaignHistory)
      → ((q : QueueMessage) → o ≡ some q → P (m h).1 x q)
      → OnOk (Selects (P (m h).1) xs) (m h).0
      → let out = (m >>= (λ qs. pure (add_message o qs))) h in
        OnOk (Selects (P out.1) (x ∷ xs)) out.0
  add_message_lem P x xs m o h v later =
      bind_cases m (λ qs. pure (add_message o qs)) h
        (λ out. OnOk (Selects (P out.1) (x ∷ xs)) out.0) (λ e p. tt)
        (λ qs p. added o v qs (subst (OnOk (Selects (P (m h).1) xs)) p later))
    where
      added :
          (o : Option QueueMessage)
          → ((q : QueueMessage) → o ≡ some q → P (m h).1 x q)
          → (qs : List QueueMessage) → Selects (P (m h).1) xs qs
          → Selects (P (m h).1) (x ∷ xs) (add_message o qs)
      added none v qs a = skips x a
      added (some q) v qs a = serves x q (v q refl) a

  -- Whoever is among the contacts found gets a message only after being vetted.
  pub fan_out-Vetted :
      (c : Campaign) (xs : List Contact) (h : CampaignHistory)
      → All (Found tenant_id h) xs
      → let (r, h') = fan_out env tenant_id c xs h in
        OnOk (Selects (Vetted env tenant_id c.channel h') xs) r
  unfolding fan_out
  fan_out-Vetted c [] h f = nobody
  fan_out-Vetted c (x ∷ xs) h (f, fs) =
      let m = fan_out_one env tenant_id c x in
      let h1 = (m h).1 in
      let keep = λ (y : Contact). fan_out_one_keeps c x (ShowsContact tenant_id y) h in
      let later = fan_out-Vetted c xs h1 (All-map keep xs fs) in
      bind_cases m (λ q. fan_out env tenant_id c xs >>= (λ qs. pure (add_message q qs))) h
        (λ out. OnOk (Selects (Vetted env tenant_id c.channel out.1) (x ∷ xs)) out.0) (λ e p. tt)
        (λ o p.
          add_message_lem (Vetted env tenant_id c.channel) x xs (fan_out env tenant_id c xs) o h1
            (λ q e.
              let (t, ch, opted, there, listed) = fan_out_one_lem c x h (p ∙ ap ok e) in
              Vetted-Grows env tenant_id c.channel h1 (fan_out env tenant_id c xs h1).1
                (fan_out_keeps c xs h1) x q (t, ch, keep x f, opted, there, listed))
            later)

  abbrev Fine : Channel → CampaignHistory → Type 0
  Fine channel = AllVetted env tenant_id channel

  find_each-Fine :
      (channel : Channel) (ids : List Uuid) (h : CampaignHistory)
      → Fine channel h
      → Fine channel (find_each env tenant_id ids h).1
  unfolding find_each
  find_each-Fine channel [] h v = v
  find_each-Fine channel (id ∷ ids) h v =
      let later =
        find_each-Fine channel ids (asked_contact tenant_id id (env.get_contact h tenant_id id) ∷ h)
          (tt, v) in
      ground arith

  pub find_contacts-Fine :
      (channel : Channel) (segment : Option Uuid) (ids : List Uuid) (h : CampaignHistory)
      → Fine channel h
      → Fine channel (find_contacts env tenant_id segment ids h).1
  unfolding find_contacts
  find_contacts-Fine channel (some segment) ids h v = (tt, v)
  find_contacts-Fine channel none ids h v = find_each-Fine channel ids h v

  fan_out_one-Fine :
      (channel : Channel) (c : Campaign) (x : Contact) (h : CampaignHistory)
      → Fine channel h
      → Fine channel (fan_out_one env tenant_id c x h).1
  unfolding fan_out_one
  fan_out_one-Fine channel c x h v = ground arith

  pub fan_out-Fine :
      (channel : Channel) (c : Campaign) (xs : List Contact) (h : CampaignHistory)
      → Fine channel h
      → Fine channel (fan_out env tenant_id c xs h).1
  unfolding fan_out
  fan_out-Fine channel c [] h v = v
  fan_out-Fine channel c (x ∷ xs) h v =
      let first = fan_out_one-Fine channel c x h v in
      let later = fan_out-Fine channel c xs (fan_out_one env tenant_id c x h).1 first in
      ground arith

  pub put_all-Fine :
      (channel : Channel) (id : Uuid) (qs : List QueueMessage) (h : CampaignHistory)
      → Fine channel h
      → Selects (Vetted env tenant_id channel h) (found_of h) qs
      → Fine channel (put_all env tenant_id id qs h).1
  unfolding put_all
  put_all-Fine channel id [] h v a = v
  put_all-Fine channel id (q ∷ qs) h v a = ground arith
