-- ===== src/Scheduled.antt =====
-- src/scheduled.ts: the scan of the monitored domains, one after the other. The scan of a domain, the
-- faults of the storage and the webhook are parameters; an exception of the scan is a value.
pub mod Isolated
pub mod Alarms
mod Tests
use agent_commerce_lab.Prelude.{
  ℕ, Bool, true, false, ◌∷◌, not, Option, none, some, String, List, [], filter, map, leb, length,
  if◌then◌else◌,
}
use agent_commerce_lab.Prelude.Match.{codes, trim}
use agent_commerce_lab.SsrfGuard.{split}
use agent_commerce_lab.History.Types.{SecuritySnapshot, ChangeResponse}
use agent_commerce_lab.History.Record.{HistoryStore}
use agent_commerce_lab.History.Wrapper.{StorageFaults, run_snapshot_with_history}
use agent_commerce_lab.Batch.Pool.{Scanned, snapshot_taken, scan_threw}
use agent_commerce_lab.Alerting.{AlertRowData, Delivery, record_alert_and_deliver}

pub record ScheduledScanResult : Type 0 where
  pub domain : String
  pub ok : Bool
  pub error : Option String
  pub change : Option ChangeResponse
  pub alert : Option AlertRowData

-- `raw.split(",").map(trim).filter(non-empty)`, by code points; an unset variable is empty.
unfoldable pub parse_monitor_domains : Option String → List (List ℕ)
parse_monitor_domains none = []
parse_monitor_domains (some raw) = filter (λ s. leb 1 (length s)) (map trim (split 44 (codes raw)))

-- The two stores that the scans write.
pub record Stores : Type 0 where
  pub history : HistoryStore
  pub alerts : List AlertRowData

-- What the scheduled scans take from outside: the faults of the history and of the alert table, the time
-- and the scan, each by the domain.
pub record ScheduledWorld : Type 0 where
  pub domain_key : String → String
  pub scan : String → Scanned
  pub now : String → String
  pub faults : String → StorageFaults
  pub alert_fails : String → Bool
  pub webhook_url : Option String
  pub post : String → AlertRowData → Delivery

module _ (w : ScheduledWorld) where
  abbrev pub alert_on :
      String
      → SecuritySnapshot
      → ChangeResponse
      → List AlertRowData
      → Option AlertRowData × List AlertRowData
  alert_on url snapshot change table =
      if change.comparison.comparable
      then record_alert_and_deliver w.domain_key w.post (w.alert_fails url) w.webhook_url change
          snapshot.target table
      else (none, table)

  -- One round of the loop.
  unfoldable pub scan_domain : String → Scanned → Stores → ScheduledScanResult × Stores
  scan_domain url (scan_threw e) s =
      (record { domain = url; ok = false; error = some e; change = none; alert = none }, s)
  scan_domain url (snapshot_taken snapshot) s =
      let compared =
        run_snapshot_with_history w.domain_key (w.faults url) (w.now url) snapshot s.history in
      let alerted = alert_on url snapshot compared.0 s.alerts in
      (
        record {
          domain = snapshot.target;
          ok = true;
          error = none;
          change = some compared.0;
          alert = alerted.0;
        },
        record { history = compared.1; alerts = alerted.1 },
      )

  unfoldable pub run_scheduled_scans : List String → Stores → List ScheduledScanResult × Stores
  run_scheduled_scans [] s = ([], s)
  run_scheduled_scans (url ∷ urls) s =
      let first = scan_domain url (w.scan url) s in
      let rest = run_scheduled_scans urls first.1 in (first.0 ∷ rest.0, rest.1)
