-- ===== src/Autonomous/Protocol/Append.antt =====
-- The ledger under the protocol is append-only, and its rows are numbered from 1.
use agent_commerce_lab.Prelude.{
  ℕ, suc, ◌+◌, ◌≡◌, sym, List, [], ◌∷◌, ◌++◌, arith, length, append_assoc, append-nil,
  length-append,
}
use agent_commerce_lab.Autonomous.Types.{Draft, LedgerEntry}
use agent_commerce_lab.Autonomous.Ledger.{Ledger, record_row}
use agent_commerce_lab.Autonomous.Protocol.{Reaches, here, next}

-- The ids of the rows are k, k + 1, and so on.
abbrev pub NumberedFrom : ℕ → List LedgerEntry → Type 0
NumberedFrom k [] = Unit
NumberedFrom k (e ∷ es) = (e.entry_id ≡ k) × NumberedFrom (suc k) es

pub record IsNumbered (l : Ledger) : Type 0 where
  pub rows : NumberedFrom 1 l.entries
  pub next_id : l.next_entry_id ≡ suc (length l.entries)

NumberedFrom-concat :
    (k : ℕ) (es : List LedgerEntry) (e : LedgerEntry)
    → NumberedFrom k es
    → e.entry_id ≡ k + length es
    → NumberedFrom k (es ++ e ∷ [])
NumberedFrom-concat k [] e h p = (omega (arith, p), tt)
NumberedFrom-concat k (x ∷ es) e h p =
    (h.0, NumberedFrom-concat (suc k) es e h.1 (omega (arith, p)))

-- A new row has the next number.
pub record_row-IsNumbered : (d : Draft) (l : Ledger) → IsNumbered l → IsNumbered (record_row d l)
unfolding record_row
record_row-IsNumbered d l h = record {
  rows = NumberedFrom-concat 1 l.entries _ h.rows (omega (arith, h.next_id));
  next_id = omega (
    arith,
    h.next_id,
    length-append l.entries (record { entry_id = l.next_entry_id; draft = d } ∷ []),
  );
}

pub Reaches-IsNumbered : {l m : Ledger} → Reaches l m → IsNumbered l → IsNumbered m
Reaches-IsNumbered here h = h
Reaches-IsNumbered (next {m} {d} r a) h = record_row-IsNumbered d m (Reaches-IsNumbered r h)

record_row-extends :
    (d : Draft) (l m : Ledger) (rows : List LedgerEntry)
    → m.entries ≡ l.entries ++ rows
    → (more : List LedgerEntry) × ((record_row d m).entries ≡ l.entries ++ more)
unfolding record_row
record_row-extends d l m rows e =
    let e' : LedgerEntry = record { entry_id = m.next_entry_id; draft = d } in
    (rows ++ e' ∷ [], rw e (append_assoc l.entries rows (e' ∷ [])))

-- The protocol keeps every row that was there, and adds rows behind them.
pub Reaches-extends :
    {l m : Ledger} → Reaches l m → (rows : List LedgerEntry) × (m.entries ≡ l.entries ++ rows)
Reaches-extends here = ([], sym (append-nil _))
Reaches-extends {l} (next {m} {d} r a) =
    let (rows, e) = Reaches-extends r in record_row-extends d l m rows e
