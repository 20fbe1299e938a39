-- ===== src/Billing/Tests.antt =====
-- core/services/billing_service.go on one environment, whose ledger is the history.
use spur_messaging.Prelude.{refl, none, some, [], ◌∷◌, leb}
use spur_messaging.Domain.Message.{sms}
use spur_messaging.Calls.{ok}
use spur_messaging.Sender.Env.{UsageCharge}
use spur_messaging.Billing.Env.{
  RateCard, LedgerEntry, BillingEnv, is_debit, is_zero, is_below_zero, is_above_zero,
  is_at_most_zero,
}
use spur_messaging.Billing.Service.{
  record_message_charge, unless_charged, create_entry, debit_of, estimate_message_cost,
  normalize_currency, normalize_country, normalize_billing_category,
}
use spur_messaging.Billing.Charges.{IsCharged, debits, record_message_charge-IsCharged}

-- 0.5 as a float64.
abbrev rate : RateCard
rate = record {
  id = 3;
  tenant_id = none;
  channel = sms;
  category = "service";
  country = "IN";
  currency = "INR";
  unit_price = 0x3fe0000000000000;
  effective_from = 0;
}

abbrev env : BillingEnv
env = record {
  to_upper = λ s. s;
  to_lower = λ s. s;
  uuid_string = λ u. "id";
  new_uuid = λ h. 9;
  clock = λ h. 1000;
  reference_exists = λ h t type id entry_type. ok (leb 1 (debits t id h));
  active_rate = λ h t c kind place money now. ok rate;
  create_entry = λ h e. ok tt;
  create_rate = λ h r. ok tt;
}

abbrev charge : UsageCharge
charge = record {
  tenant_id = 7;
  message_id = 4;
  campaign_id = none;
  channel = sms;
  category = "";
  country = "";
  currency = "";
  provider_cost = none;
  provider = "msg91";
  description = "";
  occurred_at = 0;
}

abbrev entry : LedgerEntry
entry = record {
  id = 9;
  tenant_id = 7;
  entry_type = is_debit;
  amount = 0x3fe0000000000000;
  currency = "INR";
  channel = some sms;
  category = "service";
  reference_type = "message";
  reference_id = some 4;
  description = "Message usage charge";
  metadata = ("country", "IN") ∷ ("provider", "msg91") ∷ [];
  created_at = 1000;
}

record_message_charge-IsCharged_example :
    IsCharged env charge entry (record_message_charge env charge []).1
unfolding record_message_charge unless_charged create_entry debit_of estimate_message_cost
    normalize_currency normalize_country normalize_billing_category debits is_zero is_below_zero
    is_above_zero is_at_most_zero
record_message_charge-IsCharged_example =
    record_message_charge-IsCharged env charge [] {e = entry} refl
