-- ===== src/Http/Billing.antt =====
-- adapters/http/billing_handler.go and adapters/http/analytics_handler.go.
use spur_messaging.Prelude.{
  String, Bool, true, false, not, ◌==◌, none, some, is_empty, if◌then◌else◌,
}
use spur_messaging.Prelude.Int.{pos, ltb_ℤ}
use spur_messaging.Domain.Message.{Time}
use spur_messaging.Http.Steps.{
  Handling, Success, pure, ◌>>=◌, ◌>>◌, call, require, need, decode, ask, permitted, by_id, path_id,
  parse_pagination, with_total_pages, read_now, service_value, status_word, under_key, respond_ok,
  respond_created, respond_list, channel_of, time_or_zero, fixed_word,
}
use spur_messaging.Identity.Permissions.{billing_read, billing_manage, analytics_read}
use spur_messaging.Http.Env.{
  Request, MoneyBody, Operation, HttpEnv, created_rate_card, get_balance, list_ledger,
  credit_wallet, adjust_wallet, estimate_cost, get_overview, get_bounces, get_engagement,
  get_campaign_report, get_reputation, get_top_links,
}

module _ (env : HttpEnv) (req : Request) where
  -- `WalletBalance`.
  unfoldable pub handle_balance : Handling Success
  handle_balance = permitted req billing_read (λ t. do
    answer ← ask env t (get_balance (req.query "currency"))
    respond_ok (service_value answer))

  -- `Ledger`, and `Usage`.
  unfoldable pub handle_ledger : Handling Success
  unfolding parse_pagination
  handle_ledger = permitted req billing_read (λ t. do
    let pages = parse_pagination env req
    answer ← ask env t (list_ledger (req.query "currency") pages.0 pages.1)
    respond_list answer (with_total_pages pages.0 pages.1 answer.total))

  abbrev by_money : (MoneyBody → Operation) → Handling Success
  by_money op = permitted req billing_manage (λ t. do
    body ← decode (env.decode_money req.body)
    answer ← ask env t (op body)
    respond_created (service_value answer))

  -- `CreditWallet`.
  unfoldable pub handle_credit_wallet : Handling Success
  handle_credit_wallet = by_money credit_wallet

  -- `AdjustWallet`.
  unfoldable pub handle_adjust_wallet : Handling Success
  handle_adjust_wallet = by_money adjust_wallet

  -- The time that a rate card is to take effect, or the zero time.
  abbrev effective_from : String → Bool → Handling Time
  effective_from s true = pure 0
  effective_from s false = need (env.parse_time s) "effective_from" "effective_from must be RFC3339"

  -- `CreateRateCard`.
  unfoldable pub handle_create_rate_card : Handling Success
  handle_create_rate_card = permitted req billing_manage (λ t. do
    body ← decode (env.decode_rate req.body)
    from ← effective_from body.effective_from (is_empty body.effective_from)
    let owner = if body.platform_wide then none else some t
    answer ← call (λ h. env.create_rate_card h owner body from) (created_rate_card owner body from)
    respond_created (service_value answer))

  -- `EstimateMessageCost`; the answer stands beside what was asked for.
  unfoldable pub handle_estimate : Handling Success
  handle_estimate = permitted req billing_read (λ t. do
    require (not (is_empty (req.query "channel"))) "channel" "channel is required"
    answer ← ask env t (
        estimate_cost (channel_of (req.query "channel")) (req.query "category")
          (req.query "country") (req.query "currency"))
    respond_ok (under_key "amount" answer))

  -- `MessageAnalytics`, which answers with a fixed word.
  unfoldable pub handle_message_analytics : Handling Success
  handle_message_analytics =
      permitted req analytics_read (λ t. respond_ok (status_word "analytics data"))

  -- `DashboardOverview`, likewise.
  unfoldable pub handle_dashboard : Handling Success
  handle_dashboard = permitted req analytics_read (λ t. respond_ok (fixed_word "overview" "data"))

  -- The end of the period: now, where the query gives none.
  abbrev until : Time → Bool → Handling Time
  until to true = read_now env
  until to false = pure to

  abbrev by_period : (Time → Time → Operation) → Handling Success
  by_period op = permitted req analytics_read (λ t. do
    let last = time_or_zero (env.parse_time (req.query "to"))
    to ← until last (last == 0)
    answer ← ask env t (op (time_or_zero (env.parse_time (req.query "from"))) to)
    respond_ok (service_value answer))

  -- `EmailOverviewStats`.
  unfoldable pub handle_overview : Handling Success
  handle_overview = by_period get_overview

  -- `EmailCampaignReport`.
  unfoldable pub handle_campaign_report : Handling Success
  handle_campaign_report = by_id env req analytics_read get_campaign_report service_value

  -- `BounceReport`.
  unfoldable pub handle_bounces : Handling Success
  handle_bounces = by_period get_bounces

  -- `DomainReputation`.
  unfoldable pub handle_reputation : Handling Success
  handle_reputation =
      permitted req analytics_read
        (λ t. do answer ← ask env t get_reputation; respond_ok (service_value answer))

  -- `TopLinksReport`.
  unfoldable pub handle_top_links : Handling Success
  handle_top_links = permitted req analytics_read (λ t. do
    id ← path_id env req "id" "id"
    let limit = env.atoi (req.query "limit")
    answer ← ask env t (get_top_links id (if ltb_ℤ limit (pos 1) then pos 10 else limit))
    respond_ok (service_value answer))

  -- `EngagementByHour`.
  unfoldable pub handle_engagement : Handling Success
  handle_engagement = by_period get_engagement
