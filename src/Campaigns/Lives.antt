-- ===== src/Campaigns/Lives.antt =====
-- core/services/campaign_service.go: a campaign under a sequence of commands.
use mathlib.Core.Path.{subst, sym}
use spur_messaging.Prelude.{
  ℕ, ◌+◌, ◌≤◌, true, false, ◌≡◌, refl, ◌⊎◌, inl, inr, List, [], ◌∷◌, arith, Bool-cases,
}
use spur_messaging.Domain.Message.{Uuid}
use spur_messaging.Domain.Campaign.{
  CampaignStatus, Campaign, campaign_running, campaign_paused, campaign_failed, is_executable,
}
use spur_messaging.Calls.{ok}
use spur_messaging.Campaigns.Env.{CampaignHistory, CampaignEnv}
use spur_messaging.Campaigns.Service.{update, delete, pause, resume}
use spur_messaging.Campaigns.Machine.{
  Command, asks_update, asks_delete, asks_execute, asks_pause, asks_resume, obey, starts, breaks,
  halts, continues, Reach, here, there, Reach-trans, status_after, batches, obey_refused,
}
use spur_messaging.Campaigns.Phases.{execute_lem}

-- The changes that a command can bring about, by the two statuses.
abbrev Change : CampaignStatus → CampaignStatus → Type 0
Change s t =
    (t ≡ s)
    ⊎ ((is_executable s ≡ true) × ((t ≡ campaign_running) ⊎ (t ≡ campaign_failed)))
    ⊎ ((s ≡ campaign_running) × (t ≡ campaign_paused))
    ⊎ ((s ≡ campaign_paused) × (t ≡ campaign_running))

Change→Reach : {s t : CampaignStatus} → Change s t → Reach s t
Change→Reach {s} {t} c = elim c [
  | inl e ↦ subst (λ x. Reach s x) (sym e) here
  | inr (inl (may, inl e)) ↦ subst (λ x. Reach s x) (sym e) (there (starts may) here)
  | inr (inl (may, inr e)) ↦ subst (λ x. Reach s x) (sym e) (there (starts may) (there breaks here))
  | inr (inr (inl (e, f))) ↦
      subst (λ x. Reach x t) (sym e)
        (subst (λ x. Reach campaign_running x) (sym f) (there halts here))
  | inr (inr (inr (e, f))) ↦
      subst (λ x. Reach x t) (sym e)
        (subst (λ x. Reach campaign_paused x) (sym f) (there continues here))
]

-- A change that the machine allows, and a batch only where the campaign could be executed and
-- cannot be any more.
abbrev pub Outcome : CampaignStatus → CampaignHistory → Type 0
Outcome s h =
    Change s (status_after s h)
    × ((batches h ≡ 0)
        ⊎ ((batches h ≤ 1) × (is_executable s ≡ true) × (is_executable (status_after s h) ≡ false)))

module _ (env : CampaignEnv) (tenant_id id : Uuid) where
  obey_lem :
      (cmd : Command) (c : Campaign)
      → env.get_campaign [] tenant_id id ≡ ok c
      → Outcome c.status (obey env tenant_id id cmd []).1
  unfolding obey update delete pause resume is_executable
  obey_lem (asks_update req) c found = ground arith
  obey_lem asks_delete c found = ground arith
  obey_lem asks_pause c found = ground arith
  obey_lem asks_resume c found = ground arith
  obey_lem asks_execute c found = elim (Bool-cases (is_executable c.status)) [
    | inl may ↦ let moved = execute_lem env tenant_id c.status id [] found may in ground arith
    | inr not_so ↦
        let refused = obey_refused env tenant_id id asks_execute [] found not_so in
        subst (λ out. Outcome c.status out.1) (sym refused) (inl refl, inl refl)
  ]

-- A command, what the row holds besides its status, and the world that answers the other calls.
pub record Turn : Type 0 where
  pub command : Command
  pub campaign : Campaign
  pub world : CampaignEnv

-- The world of a turn, where the row's status is the one that was written last.
abbrev pub reads : CampaignStatus → Turn → CampaignEnv
reads s x = record x.world { get_campaign = λ h t i. ok (record x.campaign { status = s }) }

module _ (tenant_id id : Uuid) where
  abbrev turn : CampaignStatus → Turn → CampaignHistory
  turn s x = (obey (reads s x) tenant_id id x.command []).1

  -- The status after a sequence of commands.
  unfoldable pub live : List Turn → CampaignStatus → CampaignStatus
  live [] s = s
  live (x ∷ xs) s = live xs (status_after s (turn s x))

  -- How many batches a sequence of commands hands to the queue.
  unfoldable pub live_batches : List Turn → CampaignStatus → ℕ
  live_batches [] s = 0
  live_batches (x ∷ xs) s = batches (turn s x) + live_batches xs (status_after s (turn s x))

  turn_lem : (s : CampaignStatus) (x : Turn) → Outcome s (turn s x)
  turn_lem s x = obey_lem (reads s x) tenant_id id x.command (record x.campaign { status = s }) refl

  -- Whatever commands are given one after another, with whatever failures of the calls, the
  -- campaign's status goes only the ways of the step relation.
  pub live-Reach : (xs : List Turn) (s : CampaignStatus) → Reach s (live xs s)
  unfolding live
  live-Reach [] s = here
  live-Reach (x ∷ xs) s =
      Reach-trans (Change→Reach (turn_lem s x).0) (live-Reach xs (status_after s (turn s x)))

  -- Whatever commands are given one after another, a campaign hands a batch to the queue at most
  -- once, and never where it is neither a draft nor scheduled at first.
  pub live_batches_bound :
      (xs : List Turn) (s : CampaignStatus)
      → (live_batches xs s ≤ 1)
        × (is_executable s ≡ false → live_batches xs s ≡ 0)
        × (is_executable s ≡ false → is_executable (live xs s) ≡ false)
  unfolding live live_batches is_executable
  live_batches_bound [] s = (omega arith, λ e. refl, λ e. e)
  live_batches_bound (x ∷ xs) s =
      let now = turn_lem s x in
      let later = live_batches_bound xs (status_after s (turn s x)) in ground arith
