-- ===== src/Autonomous/Protocol.antt =====
-- The purchasing protocol as an abstract machine: which row may follow a ledger, and which ledgers
-- are reached so. The machine of src/autonomous/state-machine.ts refines it.
pub mod Append
pub mod Safety
use agent_commerce_lab.Prelude.{ℕ, ◌≡◌, Bool, true, false, Option, none, some, String}
use agent_commerce_lab.Autonomous.Types.{
  Draft, LedgerEntry, SettlementStatus, settled, pending, failed, unknown, ServiceResult,
}
use agent_commerce_lab.Autonomous.Ledger.{
  Ledger, record_row, can_issue_payment, nonce_used, last_payment_for,
}

abbrev pub ambiguous_status : Option SettlementStatus → Bool
ambiguous_status (some pending) = true
ambiguous_status (some unknown) = true
ambiguous_status _ = false

abbrev pub paid_status : Option SettlementStatus → Bool
paid_status (some settled) = true
paid_status _ = false

abbrev pub status_of : Option LedgerEntry → Option SettlementStatus
status_of none = none
status_of (some e) = e.settlement_status

-- The last payment event of a transaction waits for a verification, or is settled.
abbrev pub is_ambiguous : String → Ledger → Bool
is_ambiguous tx l = ambiguous_status (status_of (last_payment_for tx l))

abbrev pub is_paid : String → Ledger → Bool
is_paid tx l = paid_status (status_of (last_payment_for tx l))

-- The rows that may follow a ledger: a payment only where the guard allows one and under an unused
-- nonce, a verification only of an ambiguous payment, a service call only once the payment is
-- settled; any other row carries none of the three.
pub data Allowed (l : Ledger) (d : Draft) : Type 0 where
  quiet : d.nonce ≡ none → d.settlement_status ≡ none → d.service_result ≡ none → Allowed l d
  pay :
      (a : ℕ) (n : String) (s : SettlementStatus)
      → d.payment_attempt ≡ some a
      → d.nonce ≡ some n
      → d.settlement_status ≡ some s
      → d.service_result ≡ none
      → nonce_used n l ≡ false
      → (can_issue_payment d.tx_id l).ok ≡ true
      → Allowed l d
  verify :
      (a : ℕ) (s : SettlementStatus)
      → d.payment_attempt ≡ some a
      → d.nonce ≡ none
      → d.settlement_status ≡ some s
      → d.service_result ≡ none
      → is_ambiguous d.tx_id l ≡ true
      → Allowed l d
  serve :
      (r : ServiceResult)
      → d.payment_attempt ≡ none
      → d.nonce ≡ none
      → d.settlement_status ≡ none
      → d.service_result ≡ some r
      → is_paid d.tx_id l ≡ true
      → Allowed l d

-- The ledgers that the protocol reaches from `l`.
pub data Reaches (l : Ledger) : Ledger → Type 0 where
  here : Reaches l l
  next : {m : Ledger} {d : Draft} → Reaches l m → Allowed m d → Reaches l (record_row d m)

pub Reaches-trans : {l m n : Ledger} → Reaches l m → Reaches m n → Reaches l n
Reaches-trans r here = r
Reaches-trans r (next q a) = next (Reaches-trans r q) a

-- What the protocol keeps at every row it keeps along the way.
pub Reaches-keeps :
    (P : Ledger → Type 0)
    → ((m : Ledger) (d : Draft) → P m → Allowed m d → P (record_row d m))
    → {l n : Ledger} → Reaches l n
    → P l
    → P n
Reaches-keeps P keep here h = h
Reaches-keeps P keep (next {m} {d} q a) h = keep m d (Reaches-keeps P keep q h) a
