-- ===== src/Billing/Env.antt =====
-- core/domain/billing.go: the ledger and the rate cards, and what `BillingService` calls.
use spur_messaging.Prelude.{
  ℕ, ◌/◌, ◌%◌, ◌^◌, String, Bool, not, ◌&&◌, ◌||◌, ◌==◌, ltb, Option, List, Metadata,
}
use spur_messaging.Domain.Message.{Uuid, Time, Channel}
use spur_messaging.Calls.{Result}
use spur_messaging.Sender.Env.{Cost}

-- A float64 is read from its 64 bits: the sign, and the magnitude, which lies above that of the
-- infinities just for NaN.
abbrev magnitude : Cost → ℕ
magnitude x = x % 2 ^ 63

abbrev is_nan : Cost → Bool
is_nan x = ltb 0x7ff0000000000000 (magnitude x)

abbrev is_negative_sign : Cost → Bool
is_negative_sign x = x / 2 ^ 63 % 2 == 1

-- `x == 0`, which both zeros satisfy.
unfoldable pub is_zero : Cost → Bool
is_zero x = magnitude x == 0

-- `x < 0`, `x > 0` and `x <= 0`; each is false of NaN.
unfoldable pub is_below_zero : Cost → Bool
unfolding is_zero
is_below_zero x = not (is_nan x) && not (is_zero x) && is_negative_sign x

unfoldable pub is_above_zero : Cost → Bool
unfolding is_zero
is_above_zero x = not (is_nan x) && not (is_zero x) && not (is_negative_sign x)

unfoldable pub is_at_most_zero : Cost → Bool
unfolding is_zero is_below_zero
is_at_most_zero x = is_zero x || is_below_zero x

pub data LedgerEntryType : Type 0 where
  is_credit is_debit is_hold is_release is_refund is_adjustment : LedgerEntryType

pub record LedgerEntry : Type 0 where
  pub id : Uuid
  pub tenant_id : Uuid
  pub entry_type : LedgerEntryType
  pub amount : Cost
  pub currency : String
  pub channel : Option Channel
  pub category : String
  pub reference_type : String
  pub reference_id : Option Uuid
  pub description : String
  pub metadata : Metadata
  pub created_at : Time

pub record RateCard : Type 0 where
  pub id : Uuid
  pub tenant_id : Option Uuid
  pub channel : Channel
  pub category : String
  pub country : String
  pub currency : String
  pub unit_price : Cost
  pub effective_from : Time

pub data BillingCall : Type 0 where
  drew_id : Uuid → BillingCall
  read_clock : Time → BillingCall
  asked_reference : Uuid → String → Uuid → LedgerEntryType → Result Bool → BillingCall
  asked_rate : Uuid → Channel → (category country currency : String) → Result RateCard → BillingCall
  created_entry : LedgerEntry → Result (Unit {0}) → BillingCall
  created_rate : RateCard → Result (Unit {0}) → BillingCall

abbrev pub BillingHistory : Type 0
BillingHistory = List BillingCall

-- `to_upper` and `to_lower` are of package strings.
pub record BillingEnv : Type 0 where
  pub to_upper : String → String
  pub to_lower : String → String
  pub uuid_string : Uuid → String
  pub new_uuid : BillingHistory → Uuid
  pub clock : BillingHistory → Time
  pub reference_exists : BillingHistory → Uuid → String → Uuid → LedgerEntryType → Result Bool
  pub active_rate :
      BillingHistory
      → Uuid
      → Channel
      → (category country currency : String) → Time
      → Result RateCard
  pub create_entry : BillingHistory → LedgerEntry → Result (Unit {0})
  pub create_rate : BillingHistory → RateCard → Result (Unit {0})
