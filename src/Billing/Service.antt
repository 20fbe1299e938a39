-- ===== src/Billing/Service.antt =====
-- core/services/billing_service.go: the operations.
use spur_messaging.Prelude.{
  String, Bool, true, false, not, ◌==◌, Option, none, some, [], ◌∷◌, Metadata, is_empty, trim_space,
  set_key, if◌then◌else◌,
}
use spur_messaging.Domain.Errors.{sentinel, not_found, validation_error}
use spur_messaging.Domain.Message.{Uuid, Time, Channel, other_channel}
use spur_messaging.Calls.{Result, ok, err, Op, pure, fail, ◌>>=◌, ◌>>◌, call, draw, attempt, guard}
use spur_messaging.Sender.Env.{Cost, UsageCharge}
use spur_messaging.Billing.Env.{
  LedgerEntryType, LedgerEntry, RateCard, BillingCall, BillingEnv, drew_id, read_clock,
  asked_reference, asked_rate, created_entry, created_rate, is_credit, is_debit, is_adjustment,
  is_zero, is_below_zero, is_above_zero, is_at_most_zero,
}

abbrev or_default : String → String → String
or_default d s = if is_empty s then d else s

abbrev pub is_known_channel : Channel → Bool
is_known_channel (other_channel s) = false
is_known_channel c = true

-- An entry as the operations give it to `createEntry`, with neither ID nor time.
abbrev pub new_entry : Uuid → LedgerEntryType → Cost → String → String → Metadata → LedgerEntry
new_entry tenant_id type amount currency description metadata = record {
  id = 0;
  tenant_id = tenant_id;
  entry_type = type;
  amount = amount;
  currency = currency;
  channel = none;
  category = "";
  reference_type = "";
  reference_id = none;
  description = description;
  metadata = metadata;
  created_at = 0;
}

module _ (env : BillingEnv) where
  -- `normalizeCurrency`, `normalizeCountry` and `normalizeBillingCategory`.
  unfoldable pub normalize_currency : String → String
  unfolding trim_space
  normalize_currency s = or_default "INR" (env.to_upper (trim_space s))

  unfoldable pub normalize_country : String → String
  unfolding trim_space
  normalize_country s = or_default "IN" (env.to_upper (trim_space s))

  unfoldable pub normalize_billing_category : String → String
  unfolding trim_space
  normalize_billing_category s = or_default "service" (env.to_lower (trim_space s))

  -- `createEntry`, for an entry without a time.
  unfoldable pub create_entry : LedgerEntry → Op BillingCall LedgerEntry
  unfolding normalize_currency
  create_entry entry = do
    id ← draw env.new_uuid drew_id
    now ← draw env.clock read_clock
    let row = record entry {
      id = id;
      currency = normalize_currency entry.currency;
      created_at = now;
    }
    call (λ h. env.create_entry h row) (created_entry row)
    pure row

  -- `CreditWallet`.
  unfoldable pub credit_wallet :
      Uuid → Cost → String → String → Metadata → Op BillingCall LedgerEntry
  unfolding create_entry normalize_currency is_at_most_zero
  credit_wallet tenant_id amount currency description metadata = do
    guard (not (is_at_most_zero amount))
        (validation_error "amount" "amount must be greater than zero")
    create_entry
        (new_entry tenant_id is_credit amount (normalize_currency currency) description metadata)

  -- `AdjustWallet`.
  unfoldable pub adjust_wallet :
      Uuid → Cost → String → String → Metadata → Op BillingCall LedgerEntry
  unfolding create_entry normalize_currency is_zero
  adjust_wallet tenant_id amount currency description metadata = do
    guard (not (is_zero amount)) (validation_error "amount" "adjustment amount must not be zero")
    create_entry (
        new_entry tenant_id is_adjustment amount (normalize_currency currency) description metadata)

  -- Only the sentinel itself, unwrapped, stands for "no rate", which is free of charge.
  abbrev pub price_of : Result RateCard → Op BillingCall Cost
  price_of (ok rate) = pure rate.unit_price
  price_of (err (sentinel not_found)) = pure 0
  price_of (err e) = fail e

  -- `EstimateMessageCost`.
  unfoldable pub estimate_message_cost :
      Uuid → Channel → (category country currency : String) → Op BillingCall Cost
  unfolding normalize_currency normalize_country normalize_billing_category
  estimate_message_cost tenant_id channel category country currency = do
    now ← draw env.clock read_clock
    let kind = normalize_billing_category category
    let place = normalize_country country
    let money = normalize_currency currency
    found ← attempt (
        call (λ h. env.active_rate h tenant_id channel kind place money now)
          (asked_rate tenant_id channel kind place money))
    price_of found

  abbrev pub provider_cost : Option Cost → Option Cost
  provider_cost none = none
  provider_cost (some x) = if is_above_zero x then some x else none

  abbrev pub charge_amount : UsageCharge → Option Cost → Op BillingCall Cost
  charge_amount charge (some x) = pure x
  charge_amount charge none =
      estimate_message_cost charge.tenant_id charge.channel charge.category charge.country
        (normalize_currency charge.currency)

  abbrev pub with_campaign : Option Uuid → Metadata → Metadata
  with_campaign none m = m
  with_campaign (some id) m = set_key "campaign_id" (env.uuid_string id) m

  abbrev pub with_provider : String → Metadata → Metadata
  with_provider s m = if is_empty s then m else set_key "provider" s m

  -- The debit of a charge.
  unfoldable pub debit_of : UsageCharge → Cost → LedgerEntry
  unfolding normalize_currency normalize_country normalize_billing_category set_key
  debit_of charge amount = record {
    id = 0;
    tenant_id = charge.tenant_id;
    entry_type = is_debit;
    amount = amount;
    currency = normalize_currency charge.currency;
    channel = some charge.channel;
    category = normalize_billing_category charge.category;
    reference_type = "message";
    reference_id = some charge.message_id;
    description = or_default "Message usage charge" charge.description;
    metadata =
        with_provider charge.provider
          (with_campaign charge.campaign_id (("country", normalize_country charge.country) ∷ []));
    created_at = 0;
  }

  abbrev pub keep : LedgerEntry → Op BillingCall (Option LedgerEntry)
  keep row = pure (some row)

  -- An amount that is not positive is not charged.
  abbrev pub unless_free : UsageCharge → Cost → Bool → Op BillingCall (Option LedgerEntry)
  unless_free charge amount true = pure none
  unless_free charge amount false = create_entry (debit_of charge amount) >>= keep

  abbrev pub charge_for : UsageCharge → Cost → Op BillingCall (Option LedgerEntry)
  charge_for charge amount = unless_free charge amount (is_at_most_zero amount)

  -- A message that has a debit is not charged again.
  unfoldable pub unless_charged : UsageCharge → Bool → Op BillingCall (Option LedgerEntry)
  unfolding estimate_message_cost create_entry debit_of is_above_zero is_at_most_zero
      normalize_currency
  unless_charged charge true = pure none
  unless_charged charge false =
      charge_amount charge (provider_cost charge.provider_cost) >>= charge_for charge

  -- `RecordMessageCharge`; `none` is the answer `nil, nil`.
  unfoldable pub record_message_charge : UsageCharge → Op BillingCall (Option LedgerEntry)
  unfolding unless_charged
  record_message_charge charge = do
    guard (not (charge.message_id == 0)) (validation_error "message_id" "message ID is required")
    exists ←
        call (λ h. env.reference_exists h charge.tenant_id "message" charge.message_id is_debit)
          (asked_reference charge.tenant_id "message" charge.message_id is_debit)
    unless_charged charge exists

  abbrev pub start_time : Time → Op BillingCall Time
  start_time t = elim (t == 0) [ true ↦ draw env.clock read_clock | false ↦ pure t ]

  -- `CreateRateCard`; the zero time is 0.
  unfoldable pub create_rate_card :
      Option Uuid
      → Channel
      → (category country currency : String) → Cost
      → Time
      → Op BillingCall RateCard
  unfolding normalize_currency normalize_country normalize_billing_category is_below_zero
  create_rate_card tenant_id channel category country currency unit_price effective_from = do
    guard (not (is_below_zero unit_price))
        (validation_error "unit_price" "unit price must not be negative")
    guard (is_known_channel channel)
        (validation_error "channel" "channel must be whatsapp, sms, or email")
    from ← start_time effective_from
    id ← draw env.new_uuid drew_id
    let rate : RateCard = record {
      id = id;
      tenant_id = tenant_id;
      channel = channel;
      category = normalize_billing_category category;
      country = normalize_country country;
      currency = normalize_currency currency;
      unit_price = unit_price;
      effective_from = from;
    }
    call (λ h. env.create_rate h rate) (created_rate rate)
    pure rate
