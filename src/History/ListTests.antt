-- ===== src/History/ListTests.antt =====
-- Pages of the lists of src/history.ts.
use agent_commerce_lab.Prelude.{◌≡◌, ◌⊎◌, inl, inr, refl, true, some, none, List, [], ◌∷◌, arith}
use agent_commerce_lab.History.Types.{SnapshotRow}
use agent_commerce_lab.History.Record.{snapshot_to_row}
use agent_commerce_lab.History.Lists.{
  page_of, next_before, list_snapshots, to_snapshot_summary, list_snapshot_history, scanned_at,
}
use agent_commerce_lab.History.Paging.{On, IsAhead, pages_lose_no_row}
use agent_commerce_lab.History.Tests.{site}

-- Two snapshots of one time.
abbrev twins : List SnapshotRow
twins =
    snapshot_to_row 1 "example.com" (site true 80)
    ∷ snapshot_to_row 2 "example.com" (site true 80)
    ∷ []

first_page_test :
    (list_snapshot_history twins "example.com" 1 none).next_before ≡ some "2026-08-20T10:00:00.000Z"
unfolding list_snapshot_history list_snapshots page_of next_before to_snapshot_summary
    snapshot_to_row
first_page_test = refl

-- The second of them is on no page.
second_page_test :
    (list_snapshot_history twins "example.com" 1 (some "2026-08-20T10:00:00.000Z")).items ≡ []
unfolding list_snapshot_history list_snapshots page_of next_before to_snapshot_summary
    snapshot_to_row
second_page_test = refl

pages_lose_no_row_example :
    let page = page_of scanned_at 1 none twins in
    let second = snapshot_to_row 2 "example.com" (site true 80) in
    On scanned_at second page ⊎ IsAhead scanned_at 1 page second
unfolding On
pages_lose_no_row_example =
    pages_lose_no_row scanned_at 1 none twins (snapshot_to_row 2 "example.com" (site true 80))
      (omega arith) (inr (inl refl))
