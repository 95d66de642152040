-- ===== src/Autonomous/Ledger/Laws.antt =====
-- What each query of the ledger answers after one more row (src/autonomous/ledger.ts).
use agent_commerce_lab.Prelude.{
  ℕ, ◌+◌, ◌≡◌, refl, inl, inr, Bool, false, ◌&&◌, ◌||◌, some, String, List, [], ◌∷◌, ◌++◌, arith,
  filter, any, length, is_some, or_else, if◌then◌else◌, Bool-cases, filter-append, any-append,
  last?-concat, append-nil, length-append,
}
use agent_commerce_lab.Prelude.Text.{str_eq, str_leb}
use agent_commerce_lab.Autonomous.Types.{Draft, LedgerEntry}
use agent_commerce_lab.Autonomous.Ledger.{
  Ledger, record_row, is_settled, in_window, sum_quoted, settled_spend_cents, is_payment_event,
  last_payment_for, has_nonce, nonce_used,
}

-- The row as the ledger stores it.
abbrev pub stored : Draft → Ledger → LedgerEntry
stored d l = record { entry_id = l.next_entry_id; draft = d }

pub last_payment_for-record_row :
    (tx : String) (d : Draft) (l : Ledger)
    → last_payment_for tx (record_row d l) ≡ (
        if str_eq d.tx_id tx && is_some d.payment_attempt
        then some (stored d l)
        else last_payment_for tx l)
unfolding last_payment_for record_row
last_payment_for-record_row tx d l =
    rw (filter-append (is_payment_event tx) l.entries (stored d l ∷ []))
      (elim (Bool-cases (str_eq d.tx_id tx && is_some d.payment_attempt)) [
        | inl e ↦ rw e (last?-concat (filter (is_payment_event tx) l.entries) (stored d l))
        | inr e ↦ rw (e, append-nil) refl
      ])

pub nonce_used-record_row :
    (n : String) (d : Draft) (l : Ledger)
    → nonce_used n (record_row d l) ≡ (nonce_used n l || has_nonce n (stored d l))
unfolding nonce_used record_row
nonce_used-record_row n d l =
    rw (any-append (has_nonce n) l.entries (stored d l ∷ [])) (ground arith)

sum_quoted-append :
    (a : ℕ) (xs ys : List LedgerEntry) → sum_quoted a (xs ++ ys) ≡ sum_quoted (sum_quoted a xs) ys
sum_quoted-append a [] ys = refl
sum_quoted-append a (x ∷ xs) ys = sum_quoted-append (a + or_else x.quoted_price_cents 0) xs ys

-- The spend that one row adds to a window.
abbrev pub spend_of : String → String → Draft → ℕ
spend_of since until d =
    if is_settled d.settlement_status && str_leb since d.timestamp && str_leb d.timestamp until
    then or_else d.quoted_price_cents 0
    else 0

pub settled_spend_cents-record_row :
    (since until : String) (d : Draft) (l : Ledger)
    → settled_spend_cents since until (record_row d l)
      ≡ settled_spend_cents since until l + spend_of since until d
unfolding settled_spend_cents record_row
settled_spend_cents-record_row since until d l =
    rw (filter-append (in_window since until) l.entries (stored d l ∷ [])) (
      rw (sum_quoted-append 0 (filter (in_window since until) l.entries) _)
        (elim (Bool-cases (in_window since until (stored d l))) [
          | inl e ↦ rw e refl
          | inr e ↦ rw e (omega arith)
        ]))

-- How many rows pass a test, after one more row.
pub length-filter-record_row :
    (p : LedgerEntry → Bool) (d : Draft) (l : Ledger)
    → length (filter p (record_row d l).entries)
      ≡ length (filter p l.entries) + (if p (stored d l) then 1 else 0)
unfolding record_row
length-filter-record_row p d l = rw (filter-append p l.entries (stored d l ∷ [])) (
    rw (length-append (filter p l.entries) _)
      (elim (Bool-cases (p (stored d l))) [ inl e ↦ rw e refl | inr e ↦ rw e refl ]))

pub length-filter_of_none {ℓ} :
    {A : Type ℓ} (p : A → Bool) (xs : List A) → any p xs ≡ false → length (filter p xs) ≡ 0
length-filter_of_none p [] h = refl
length-filter_of_none p (x ∷ xs) h = ground (arith, length-filter_of_none p xs)
