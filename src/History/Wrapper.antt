-- ===== src/History/Wrapper.antt =====
-- `runSnapshotWithHistory` of src/history.ts. Which of the three statements of `recordAndCompare` fails is
-- a parameter; what was written before stays written.
use agent_commerce_lab.Prelude.{Bool, false, ◌&&◌, none, String, if◌then◌else◌}
use agent_commerce_lab.History.Types.{SecuritySnapshot, ChangeResponse}
use agent_commerce_lab.History.Compare.{not_comparable}
use agent_commerce_lab.History.Record.{HistoryStore, insert_snapshot_row, record_and_compare}

pub record StorageFaults : Type 0 where
  pub insert_fails : Bool
  pub select_fails : Bool
  pub change_fails : Bool

abbrev pub no_faults : StorageFaults
no_faults = record { insert_fails = false; select_fails = false; change_fails = false }

abbrev pub storage_unavailable : String → ChangeResponse
storage_unavailable now = record {
  comparison = not_comparable "history storage unavailable";
  detected_at = now;
  change_id = none;
  from_meta = none;
  to_meta = none;
}

module _ (domain_key : String → String) where
  -- The change row is inserted only for a comparable change.
  abbrev pub after_insert :
      StorageFaults
      → String
      → HistoryStore
      → ChangeResponse × HistoryStore
      → ChangeResponse × HistoryStore
  after_insert faults now stored (change, written) =
      if faults.select_fails
      then (storage_unavailable now, stored)
      else if faults.change_fails && change.comparison.comparable
      then (storage_unavailable now, stored)
      else (change, written)

  unfoldable pub run_snapshot_with_history :
      StorageFaults → String → SecuritySnapshot → HistoryStore → ChangeResponse × HistoryStore
  run_snapshot_with_history faults now snapshot store =
      if faults.insert_fails
      then (storage_unavailable now, store)
      else after_insert faults now (insert_snapshot_row (domain_key snapshot.target) snapshot store)
          (record_and_compare domain_key now snapshot store)
