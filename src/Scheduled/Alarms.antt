-- ===== src/Scheduled/Alarms.antt =====
-- The alert of a scheduled scan of src/scheduled.ts, from the comparison of src/history.ts.
use agent_commerce_lab.Prelude.{
  ◌≡◌, refl, ◌↔◌, Bool, true, false, ◌&&◌, ◌||◌, Option, none, some, String, List, arith,
}
use agent_commerce_lab.History.Types.{
  Materiality, critical, material, informational, SecuritySnapshot, SnapshotRow, ChangeResponse,
}
use agent_commerce_lab.History.Compare.{
  compute_change, record_materiality, get_prior_complete_snapshot,
}
use agent_commerce_lab.History.Record.{
  HistoryStore, insert_snapshot_row, current_meta, record_and_compare,
}
use agent_commerce_lab.History.Wrapper.{no_faults, run_snapshot_with_history}
use agent_commerce_lab.History.Alarm.{transport_alarm, content_alarm}
use agent_commerce_lab.History.Gate.{same_versions, critical_change_iff}
use agent_commerce_lab.Batch.Pool.{snapshot_taken}
use agent_commerce_lab.Alerting.{
  AlertRowData, change_materiality, should_alert, record_alert_and_deliver,
}
use agent_commerce_lab.Scheduled.{ScheduledWorld, Stores, alert_on, scan_domain}

abbrev pub is_critical_tier? : Option Materiality → Bool
is_critical_tier? (some critical) = true
is_critical_tier? _ = false

abbrev pub is_critical_alert : Option AlertRowData → Bool
is_critical_alert none = false
is_critical_alert (some row) = is_critical_tier? row.materiality

module _ (w : ScheduledWorld) where
  alert_on-critical :
      (url : String) (snapshot : SecuritySnapshot) (change : ChangeResponse)
      (table : List AlertRowData)
      → is_critical_alert (alert_on w url snapshot change table).0
        ≡ is_critical_tier? (record_materiality change.comparison)
  unfolding record_alert_and_deliver should_alert change_materiality record_materiality
  alert_on-critical url snapshot change table = ground arith

  -- Without a fault of the history, the change of a snapshot with an anchor is that of the comparison.
  compared :
      (now : String) (snapshot : SecuritySnapshot) (store : HistoryStore) (prior : SnapshotRow)
      → get_prior_complete_snapshot
          (insert_snapshot_row (w.domain_key snapshot.target) snapshot store).snapshots
          (w.domain_key snapshot.target)
          snapshot.timestamp
        ≡ some prior
      → (run_snapshot_with_history w.domain_key no_faults now snapshot store).0.comparison
        ≡ compute_change prior.meta prior.raw_snapshot
            (current_meta store.next_snapshot_id snapshot)
            snapshot
  unfolding run_snapshot_with_history record_and_compare
  compared now snapshot store prior h = rw h refl

  is_critical_tier?-iff :
      (o : Option Materiality) → (is_critical_tier? o ≡ true) ↔ (o ≡ some critical)
  is_critical_tier?-iff none = (λ h. cc, λ h. cc)
  is_critical_tier?-iff (some critical) = (λ h. refl, λ h. refl)
  is_critical_tier?-iff (some material) = (λ h. cc, λ h. cc)
  is_critical_tier?-iff (some informational) = (λ h. cc, λ h. cc)

  -- If no statement of the history fails, a scheduled scan whose snapshot has an anchor in the history
  -- raises a critical alert exactly if the versions agree and HTTPS is lost, the verdict falls from PASS to
  -- FAIL, the cipher becomes weak, or the content has one of its critical changes.
  pub scan_domain_alarms :
      (url : String) (snapshot : SecuritySnapshot) (s : Stores) (prior : SnapshotRow)
      → w.faults url ≡ no_faults
      → get_prior_complete_snapshot
          (insert_snapshot_row (w.domain_key snapshot.target) snapshot s.history).snapshots
          (w.domain_key snapshot.target)
          snapshot.timestamp
        ≡ some prior
      → (is_critical_alert (scan_domain w url (snapshot_taken snapshot) s).0.alert ≡ true) ↔ (
          (same_versions prior.meta (current_meta s.history.next_snapshot_id snapshot)
            && (transport_alarm prior.raw_snapshot snapshot
                || content_alarm prior.raw_snapshot.content snapshot.content))
          ≡ true)
  unfolding scan_domain
  scan_domain_alarms url snapshot s prior healthy h =
      let current = current_meta s.history.next_snapshot_id snapshot in
      let change =
        (run_snapshot_with_history w.domain_key (w.faults url) (w.now url) snapshot s.history).0 in
      let same : change.comparison ≡ compute_change prior.meta prior.raw_snapshot current snapshot =
        rw healthy (compared (w.now url) snapshot s.history prior h) in
      rw (alert_on-critical url snapshot change s.alerts, same)
        ((
          λ critical.
              (critical_change_iff prior.meta prior.raw_snapshot current snapshot).0
                ((is_critical_tier?-iff _).0 critical),
          λ alarm.
              (is_critical_tier?-iff _).1
                ((critical_change_iff prior.meta prior.raw_snapshot current snapshot).1 alarm),
        ))
