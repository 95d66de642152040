-- ===== src/History/Effects.antt =====
-- What recording a snapshot in src/history.ts does to the store.
use agent_commerce_lab.Prelude.{
  ℕ, ◌+◌, Bool, false, Option, none, some, String, List, [], ◌∷◌, ◌++◌, ◌≡◌, refl, ap, ◌∙◌,
  if◌then◌else◌, filter, filter-append, append-nil, not, arith, length, length-append, Bool-cases,
  inl, inr,
}
use agent_commerce_lab.Prelude.Text.{str_ltb}
use agent_commerce_lab.Prelude.TextOrder.{ltb-not-leb, leb_refl}
use agent_commerce_lab.History.Types.{
  SecuritySnapshot, SnapshotVersionMeta, SnapshotRow, ChangeResponse,
}
use agent_commerce_lab.History.Compare.{
  compute_change, latest_row, may_anchor, get_prior_complete_snapshot,
}
use agent_commerce_lab.History.Record.{
  HistoryStore, snapshot_to_row, insert_snapshot_row, current_meta, compare_with,
  record_and_compare,
}

before_itself : (s : String) → str_ltb s s ≡ false
before_itself s = ltb-not-leb s s ∙ ap not (leb_refl s)

-- The row that has just been stored is not before its own time, so it is never the anchor.
own_row_is_no_anchor :
    (id : ℕ) (domain : String) (snapshot : SecuritySnapshot)
    → may_anchor domain snapshot.timestamp (snapshot_to_row id domain snapshot) ≡ false
unfolding snapshot_to_row
own_row_is_no_anchor id domain snapshot = rw (before_itself snapshot.timestamp) (ground arith)

get_prior-append :
    (table : List SnapshotRow) (row : SnapshotRow) (domain before : String)
    → may_anchor domain before row ≡ false
    → get_prior_complete_snapshot (table ++ row ∷ []) domain before
      ≡ get_prior_complete_snapshot table domain before
unfolding get_prior_complete_snapshot
get_prior-append table row domain before h = ap latest_row (
    filter-append (may_anchor domain before) table (row ∷ [])
    ∙ rw h (append-nil (filter (may_anchor domain before) table)))

abbrev response_comparable : ChangeResponse → Bool
response_comparable r = r.comparison.comparable

-- A snapshot is compared with the latest complete row that the table held before it was stored:
-- never with itself.
pub compares_with_older :
    (domain_key : String → String) (at : String) (snapshot : SecuritySnapshot)
    (store : HistoryStore)
    → let domain = domain_key snapshot.target in
      record_and_compare domain_key at snapshot store
      ≡ compare_with domain at snapshot
          (current_meta store.next_snapshot_id snapshot)
          (get_prior_complete_snapshot store.snapshots domain snapshot.timestamp)
          (insert_snapshot_row domain snapshot store)
unfolding record_and_compare
compares_with_older domain_key at snapshot store =
    let domain = domain_key snapshot.target in
    let row = snapshot_to_row store.next_snapshot_id domain snapshot in
    ap
      (λ o.
        compare_with domain at snapshot (current_meta store.next_snapshot_id snapshot) o
          (insert_snapshot_row domain snapshot store))
      (get_prior-append store.snapshots row domain snapshot.timestamp
        (own_row_is_no_anchor store.next_snapshot_id domain snapshot))

abbrev pub written : Bool → ℕ
written b = if b then 1 else 0

compare_with-writes :
    (domain at : String) (snapshot : SecuritySnapshot) (to : SnapshotVersionMeta)
    (o : Option SnapshotRow) (store : HistoryStore)
    → let (r, store') = compare_with domain at snapshot to o store in
      (store'.snapshots ≡ store.snapshots)
      × (length store'.changes ≡ length store.changes + written r.comparison.comparable)
compare_with-writes domain at snapshot to none store = (refl, omega arith)
compare_with-writes domain at snapshot to (some prior) store =
    elim (Bool-cases (compute_change prior.meta prior.raw_snapshot to snapshot).comparable) [
      | inl same ↦ rw same (refl, length-append store.changes _)
      | inr other ↦ rw other (refl, omega arith)
    ]

-- Recording a snapshot adds its row, and one change exactly if the response is comparable.
pub record_writes :
    (domain_key : String → String) (at : String) (snapshot : SecuritySnapshot)
    (store : HistoryStore)
    → let (r, store') = record_and_compare domain_key at snapshot store in
      (store'.snapshots
        ≡ store.snapshots
          ++ snapshot_to_row store.next_snapshot_id (domain_key snapshot.target) snapshot ∷ [])
      × (length store'.changes ≡ length store.changes + written r.comparison.comparable)
unfolding record_and_compare
record_writes domain_key at snapshot store =
    let domain = domain_key snapshot.target in
    let stored = insert_snapshot_row domain snapshot store in
    compare_with-writes domain at snapshot (current_meta store.next_snapshot_id snapshot)
      (get_prior_complete_snapshot stored.snapshots domain snapshot.timestamp) stored
