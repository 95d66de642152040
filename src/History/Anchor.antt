-- ===== src/History/Anchor.antt =====
-- The stored snapshot that src/history.ts compares with.
use agent_commerce_lab.Prelude.{
  Bool, true, false, Option, none, some, String, List, [], ◌∷◌, ◌≡◌, ◌≢◌, ◌⊎◌, refl, sym, ◌∙◌, inl,
  inr, filter, All, Bool-cases, if◌then◌else◌, arith,
}
use agent_commerce_lab.Prelude.Text.{str_leb, str_ltb}
use agent_commerce_lab.Prelude.TextOrder.{leb_trans, leb_refl, ltb→leb, not_ltb→leb}
use agent_commerce_lab.History.Types.{SnapshotRow}
use agent_commerce_lab.History.Compare.{
  later_row, latest_row, may_anchor, get_prior_complete_snapshot,
}

abbrev pub In : SnapshotRow → List SnapshotRow → Type 0
In row [] = ⊥
In row (r ∷ rows) = (row ≡ r) ⊎ In row rows

abbrev pub at_or_before : SnapshotRow → SnapshotRow → Bool
at_or_before r row = str_leb r.meta.scanned_at row.meta.scanned_at

-- The latest row of a table that passes a test, or `none` where no row passes it.
pub IsLatest : (SnapshotRow → Bool) → List SnapshotRow → Option SnapshotRow → Type 0
IsLatest p table none = All (λ r. p r ≡ false) table
IsLatest p table (some row) =
    (In row table × (p row ≡ true)) × All (λ r. p r ≡ true → at_or_before r row ≡ true) table

All-imp :
    (P Q : SnapshotRow → Type 0) (rows : List SnapshotRow)
    → ((r : SnapshotRow) → P r → Q r)
    → All P rows
    → All Q rows
All-imp P Q [] f h = tt
All-imp P Q (r ∷ rows) f h = (f r h.0, All-imp P Q rows f h.1)

false_is_not_true : false ≢ true
false_is_not_true h = ground arith

-- A row that fails the test changes nothing.
skip-IsLatest :
    (p : SnapshotRow → Bool) (r : SnapshotRow) (rows : List SnapshotRow) (o : Option SnapshotRow)
    → p r ≡ false
    → IsLatest p rows o
    → IsLatest p (r ∷ rows) o
unfolding IsLatest
skip-IsLatest p r rows none h l = (h, l)
skip-IsLatest p r rows (some row) h l =
    ((inr l.0.0, l.0.1), ((λ t. absurd (false_is_not_true (sym h ∙ t))), l.1))

choose-IsLatest :
    (p : SnapshotRow → Bool) (r : SnapshotRow) (rows : List SnapshotRow) (best : SnapshotRow)
    → p r ≡ true
    → IsLatest p rows (some best)
    → (b : Bool) → str_ltb r.meta.scanned_at best.meta.scanned_at ≡ b
    → IsLatest p (r ∷ rows) (some (if b then best else r))
unfolding IsLatest
choose-IsLatest p r rows best h l true e =
    ((inr l.0.0, l.0.1), ((λ t. ltb→leb r.meta.scanned_at best.meta.scanned_at e), l.1))
choose-IsLatest p r rows best h l false e = (
  (inl refl, h),
  (
    (λ t. leb_refl r.meta.scanned_at),
    All-imp _ _ rows
        (λ x f t.
          leb_trans x.meta.scanned_at best.meta.scanned_at r.meta.scanned_at (f t)
            (not_ltb→leb r.meta.scanned_at best.meta.scanned_at e))
        l.1,
  ),
)

take-IsLatest :
    (p : SnapshotRow → Bool) (r : SnapshotRow) (rows : List SnapshotRow) (o : Option SnapshotRow)
    → p r ≡ true
    → IsLatest p rows o
    → IsLatest p (r ∷ rows) (some (later_row r o))
unfolding IsLatest
take-IsLatest p r rows none h l = (
  (inl refl, h),
  (
    (λ t. leb_refl r.meta.scanned_at),
    All-imp _ _ rows (λ x f t. absurd (false_is_not_true (sym f ∙ t))) l,
  ),
)
take-IsLatest p r rows (some best) h l = choose-IsLatest p r rows best h l _ refl

latest_row-IsLatest :
    (p : SnapshotRow → Bool) (table : List SnapshotRow)
    → IsLatest p table (latest_row (filter p table))
unfolding IsLatest
latest_row-IsLatest p [] = tt
latest_row-IsLatest p (r ∷ rows) =
    let ih = latest_row-IsLatest p rows in
    elim (Bool-cases (p r)) [
      | inl passed ↦ rw passed (take-IsLatest p r rows (latest_row (filter p rows)) passed ih)
      | inr failed ↦ rw failed (skip-IsLatest p r rows (latest_row (filter p rows)) failed ih)
    ]

-- The anchor of a comparison is a stored row of the domain, complete and before the given time, and
-- no other such row is later; where none is given, no stored row is of that kind.
pub prior-IsLatest :
    (table : List SnapshotRow) (domain before : String)
    → IsLatest (may_anchor domain before) table (get_prior_complete_snapshot table domain before)
unfolding get_prior_complete_snapshot
prior-IsLatest table domain before = latest_row-IsLatest (may_anchor domain before) table
