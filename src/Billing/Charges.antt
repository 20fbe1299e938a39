-- ===== src/Billing/Charges.antt =====
-- core/services/billing_service.go: what the wallet is charged for a message.
use spur_messaging.Prelude.{
  ℕ, suc, ◌≤◌, Bool, true, false, ◌&&◌, ◌==◌, ◌≡◌, Option, none, some, List, [], ◌∷◌, str_eq,
  if◌then◌else◌, arith, ◌⊎◌,
}
use spur_messaging.Domain.Message.{Uuid}
use spur_messaging.Calls.{ok, Op, pure, ◌>>=◌, attempt}
use spur_messaging.Sender.Env.{UsageCharge}
use spur_messaging.Billing.Env.{
  LedgerEntryType, LedgerEntry, BillingCall, BillingHistory, BillingEnv, is_debit, created_entry,
  is_at_most_zero,
}
use spur_messaging.Billing.Service.{
  record_message_charge, unless_charged, create_entry, debit_of, estimate_message_cost,
}

abbrev is_debit_type : LedgerEntryType → Bool
is_debit_type is_debit = true
is_debit_type _ = false

abbrev is_id : Uuid → Option Uuid → Bool
is_id id none = false
is_id id (some j) = j == id

-- A debit of the tenant for the message.
abbrev pub is_debit_of : Uuid → Uuid → LedgerEntry → Bool
is_debit_of t id e =
    is_debit_type e.entry_type
    && (e.tenant_id == t)
    && str_eq e.reference_type "message"
    && is_id id e.reference_id

-- How many debits of the tenant for the message the ledger took.
unfoldable pub debits : Uuid → Uuid → BillingHistory → ℕ
debits t id [] = 0
debits t id (created_entry e (ok u) ∷ h) =
    let rest = debits t id h in if is_debit_of t id e then suc rest else rest
debits t id (c ∷ h) = debits t id h

-- The ledger finds a debit that it took.
abbrev pub Remembers : BillingEnv → Uuid → Uuid → Type 0
Remembers env t id =
    (h : BillingHistory)
    → 1 ≤ debits t id h
    → env.reference_exists h t "message" id is_debit ≡ ok true

module _ (env : BillingEnv) where
  -- One charge after another, whatever each of them comes to.
  unfoldable pub charge_all : List UsageCharge → Op BillingCall (Unit {0})
  charge_all [] = pure tt
  charge_all (c ∷ cs) = do outcome ← attempt (record_message_charge env c); charge_all cs

  module _ (t id : Uuid) where
    abbrev is_for : UsageCharge → Bool
    is_for c = (c.tenant_id == t) && (c.message_id == id)

    -- No debit more, or one more that is for this message.
    abbrev AtMostOne : UsageCharge → BillingHistory → BillingHistory → Type 0
    AtMostOne c h h' =
        (debits t id h' ≡ debits t id h)
        ⊎ ((is_for c ≡ true) × (debits t id h' ≡ suc (debits t id h)))

  -- The last call stored the entry: a debit of the charge's tenant for its message, of an amount
  -- that is not zero or less.
  abbrev pub IsCharged : UsageCharge → LedgerEntry → BillingHistory → Type 0
  IsCharged c e (created_entry row (ok u) ∷ h) =
      (row ≡ e)
      × (e.entry_type ≡ is_debit)
      × (e.tenant_id ≡ c.tenant_id)
      × (e.reference_type ≡ "message")
      × (e.reference_id ≡ some c.message_id)
      × (is_at_most_zero e.amount ≡ false)
  IsCharged c e h = ⊥

  -- Where `RecordMessageCharge` answers with an entry, the last call stored it, as a debit of the
  -- charge's tenant for its message, and its amount is not zero or less.
  pub record_message_charge-IsCharged :
      (c : UsageCharge) (h : BillingHistory) {e : LedgerEntry}
      → (record_message_charge env c h).0 ≡ ok (some e)
      → IsCharged c e (record_message_charge env c h).1
  unfolding record_message_charge unless_charged create_entry debit_of estimate_message_cost
  record_message_charge-IsCharged c h p = ground arith
