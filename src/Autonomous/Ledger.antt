-- ===== src/Autonomous/Ledger.antt =====
-- src/autonomous/ledger.ts: the append-only transaction ledger. A method that pushes a row returns
-- the new ledger.
pub mod Laws
use agent_commerce_lab.Prelude.{
  ℕ, ◌+◌, Bool, true, false, ◌&&◌, Option, none, some, String, List, [], ◌∷◌, ◌++◌, filter, last?,
  any, is_some, or_else,
}
use agent_commerce_lab.Prelude.Int.{ℤ, sub_ℕ}
use agent_commerce_lab.Prelude.Text.{str_eq, str_leb, ◌<>◌}
use agent_commerce_lab.Autonomous.Types.{
  Draft, LedgerEntry, SettlementStatus, settled, failed, status_text,
}

pub record Ledger : Type 0 where
  pub next_entry_id : ℕ
  pub entries : List LedgerEntry

abbrev pub new_ledger : Ledger
new_ledger = record { next_entry_id = 1; entries = [] }

-- `record`: the row gets the next id and is pushed at the end.
unfoldable pub record_row : Draft → Ledger → Ledger
record_row d l = record {
  next_entry_id = l.next_entry_id + 1;
  entries = l.entries ++ record { entry_id = l.next_entry_id; draft = d } ∷ [];
}

abbrev pub is_settled : Option SettlementStatus → Bool
is_settled (some settled) = true
is_settled _ = false

abbrev pub in_window : String → String → LedgerEntry → Bool
in_window since until e =
    is_settled e.settlement_status && str_leb since e.timestamp && str_leb e.timestamp until

-- `reduce((sum, e) => sum + (e.quotedPriceCents ?? 0), 0)`, from the left.
abbrev pub sum_quoted : ℕ → List LedgerEntry → ℕ
sum_quoted sum [] = sum
sum_quoted sum (e ∷ es) = sum_quoted (sum + or_else e.quoted_price_cents 0) es

unfoldable pub settled_spend_cents : String → String → Ledger → ℕ
settled_spend_cents since until l = sum_quoted 0 (filter (in_window since until) l.entries)

abbrev pub is_payment_of : String → LedgerEntry → Bool
is_payment_of tx e = str_eq e.tx_id tx && is_some e.payment_attempt && is_some e.nonce

unfoldable pub payments_for : String → Ledger → List LedgerEntry
payments_for tx l = filter (is_payment_of tx) l.entries

abbrev pub is_payment_event : String → LedgerEntry → Bool
is_payment_event tx e = str_eq e.tx_id tx && is_some e.payment_attempt

unfoldable pub last_payment_for : String → Ledger → Option LedgerEntry
last_payment_for tx l = last? (filter (is_payment_event tx) l.entries)

-- `{ ok: boolean; reason?: string }`
pub record PaymentGuard : Type 0 where
  pub ok : Bool
  pub reason : Option String

abbrev pub nullable_status_text : Option SettlementStatus → String
nullable_status_text none = "null"
nullable_status_text (some s) = status_text s

abbrev pub guard_of_status : Option SettlementStatus → PaymentGuard
guard_of_status (some failed) = record { ok = true; reason = none }
guard_of_status (some settled) = record {
  ok = false;
  reason = some "already settled — never re-pay a settled transaction";
}
guard_of_status s = record {
  ok = false;
  reason = some (
      "prior payment status is "
      <> nullable_status_text s
      <> " — must verify settlement before any further payment (never re-purchase on unknown)");
}

abbrev pub guard_of_last : Option LedgerEntry → PaymentGuard
guard_of_last none = record { ok = true; reason = none }
guard_of_last (some last) = guard_of_status last.settlement_status

unfoldable pub can_issue_payment : String → Ledger → PaymentGuard
can_issue_payment tx l = guard_of_last (last_payment_for tx l)

abbrev pub has_nonce : String → LedgerEntry → Bool
has_nonce n e = elim e.nonce [ none ↦ false | some m ↦ str_eq m n ]

unfoldable pub nonce_used : String → Ledger → Bool
nonce_used n l = any (has_nonce n) l.entries

pub record Reconciliation : Type 0 where
  pub ledger_settled_cents : ℕ
  pub wallet_balance_cents : ℕ
  pub discrepancy_cents : ℤ

unfoldable pub reconcile : ℕ → String → String → Ledger → Reconciliation
reconcile balance since until l =
    let settled_cents = settled_spend_cents since until l in
    record {
      ledger_settled_cents = settled_cents;
      wallet_balance_cents = balance;
      discrepancy_cents = sub_ℕ settled_cents balance;
    }
