-- ===== src/Autonomous/Protocol/Safety.antt =====
-- What the purchasing protocol keeps: a transaction is settled once at most, a nonce is used once at
-- most, a service is called only for a settled transaction, and rows are only added.
use agent_commerce_lab.Prelude.{
  ℕ, ◌+◌, ◌≤◌, ◌≡◌, refl, ◌⊎◌, inl, Bool, true, false, ◌&&◌, ◌||◌, Option, String, arith, filter,
  length, is_some, if◌then◌else◌,
}
use agent_commerce_lab.Prelude.Text.{str_eq}
use agent_commerce_lab.Autonomous.Types.{Draft, LedgerEntry}
use agent_commerce_lab.Autonomous.Ledger.{
  Ledger, new_ledger, record_row, is_settled, has_nonce, nonce_used, can_issue_payment,
  last_payment_for, guard_of_last,
}
use agent_commerce_lab.Autonomous.Ledger.Laws.{
  stored, last_payment_for-record_row, length-filter-record_row, length-filter_of_none,
}
use agent_commerce_lab.Autonomous.Protocol.{
  Allowed, quiet, pay, verify, serve, is_paid, ambiguous_status, status_of,
}
use text.Mathlib.TextEquality.{eq_iff}

-- A row that records a settlement of the transaction.
abbrev pub is_settlement_of : String → LedgerEntry → Bool
is_settlement_of tx e = str_eq e.tx_id tx && is_settled e.settlement_status

unfoldable pub settled_count : String → Ledger → ℕ
settled_count tx l = length (filter (is_settlement_of tx) l.entries)

-- A row that records a call of the service.
abbrev pub is_service_call_of : String → LedgerEntry → Bool
is_service_call_of tx e = str_eq e.tx_id tx && is_some e.service_result

unfoldable pub call_count : String → Ledger → ℕ
call_count tx l = length (filter (is_service_call_of tx) l.entries)

unfoldable pub nonce_count : String → Ledger → ℕ
nonce_count n l = length (filter (has_nonce n) l.entries)

-- Whether the last payment event leaves room for a payment or a verification.
abbrev pub open_status : Option LedgerEntry → Bool
open_status last = (guard_of_last last).ok || ambiguous_status (status_of last)

abbrev pub is_open : String → Ledger → Bool
is_open tx l = open_status (last_payment_for tx l)

-- Each transaction has no settlement yet, or one and then nothing more to pay or verify; and no
-- call of a service without a settlement.
pub record IsSettledOnce (tx : String) (l : Ledger) : Type 0 where
  pub once : (settled_count tx l ≡ 0) ⊎ ((settled_count tx l ≡ 1) × (is_open tx l ≡ false))
  pub paid_once : is_paid tx l ≡ true → settled_count tx l ≡ 1
  pub served_after : settled_count tx l ≡ 0 → call_count tx l ≡ 0

settled_count-record_row :
    (tx : String) (d : Draft) (l : Ledger)
    → settled_count tx (record_row d l)
      ≡ settled_count tx l + (if is_settlement_of tx (stored d l) then 1 else 0)
unfolding settled_count
settled_count-record_row tx d l = length-filter-record_row (is_settlement_of tx) d l

call_count-record_row :
    (tx : String) (d : Draft) (l : Ledger)
    → call_count tx (record_row d l)
      ≡ call_count tx l + (if is_service_call_of tx (stored d l) then 1 else 0)
unfolding call_count
call_count-record_row tx d l = length-filter-record_row (is_service_call_of tx) d l

nonce_count-record_row :
    (n : String) (d : Draft) (l : Ledger)
    → nonce_count n (record_row d l) ≡ nonce_count n l + (if has_nonce n (stored d l) then 1 else 0)
unfolding nonce_count
nonce_count-record_row n d l = length-filter-record_row (has_nonce n) d l

-- Every row that the protocol allows keeps the transaction settled once at most.
pub Allowed-IsSettledOnce :
    (tx : String) (l : Ledger) (d : Draft)
    → IsSettledOnce tx l
    → Allowed l d
    → IsSettledOnce tx (record_row d l)
unfolding can_issue_payment
Allowed-IsSettledOnce tx l d h (quiet no_nonce no_status no_call) = ground (
  arith,
  last_payment_for-record_row tx d l,
  settled_count-record_row tx d l,
  call_count-record_row tx d l,
)
Allowed-IsSettledOnce tx l d h (pay a n st att non set no_call unused allowed) = ground (
  arith,
  last_payment_for-record_row tx d l,
  settled_count-record_row tx d l,
  call_count-record_row tx d l,
  eq_iff d.tx_id tx,
)
Allowed-IsSettledOnce tx l d h (verify a st att no_nonce set no_call waits) = ground (
  arith,
  last_payment_for-record_row tx d l,
  settled_count-record_row tx d l,
  call_count-record_row tx d l,
  eq_iff d.tx_id tx,
)
Allowed-IsSettledOnce tx l d h (serve r no_attempt no_nonce no_status call paid) = ground (
  arith,
  last_payment_for-record_row tx d l,
  settled_count-record_row tx d l,
  call_count-record_row tx d l,
  eq_iff d.tx_id tx,
)

nonce_count_of_unused : (n : String) (l : Ledger) → nonce_used n l ≡ false → nonce_count n l ≡ 0
unfolding nonce_count nonce_used
nonce_count_of_unused n l h = length-filter_of_none (has_nonce n) l.entries h

-- Every row that the protocol allows keeps each nonce used once at most.
pub Allowed-nonce_count :
    (n : String) (l : Ledger) (d : Draft)
    → nonce_count n l ≤ 1
    → Allowed l d
    → nonce_count n (record_row d l) ≤ 1
unfolding nonce_used
Allowed-nonce_count n l d h (quiet no_nonce no_status no_call) =
    ground (arith, nonce_count-record_row n d l)
Allowed-nonce_count n l d h (pay a m st att non set no_call unused allowed) =
    ground (arith, nonce_count-record_row n d l, eq_iff m n, nonce_count_of_unused m l unused)
Allowed-nonce_count n l d h (verify a st att no_nonce set no_call waits) =
    ground (arith, nonce_count-record_row n d l)
Allowed-nonce_count n l d h (serve r no_attempt no_nonce no_status call paid) =
    ground (arith, nonce_count-record_row n d l)

-- The ledger that a run starts from at first.
pub IsSettledOnce-new_ledger : (tx : String) → IsSettledOnce tx new_ledger
unfolding settled_count call_count last_payment_for
IsSettledOnce-new_ledger tx = record {
  once = inl refl;
  paid_once = λ h. cc;
  served_after = λ h. refl;
}
