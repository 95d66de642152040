-- ===== src/Scheduled/Tests.antt =====
-- Scheduled scans of src/scheduled.ts: a site that loses HTTPS, and an unreachable domain.
use agent_commerce_lab.Prelude.{
  ◌≡◌, refl, ◌↔◌, true, false, ◌&&◌, ◌||◌, some, [], ◌∷◌, ◌++◌, if◌then◌else◌,
}
use agent_commerce_lab.Prelude.Text.{str_eq}
use agent_commerce_lab.Prelude.Match.{codes, trim, trim_start, trim_end, is_space}
use agent_commerce_lab.SsrfGuard.{split}
use agent_commerce_lab.History.Types.{SnapshotRow}
use agent_commerce_lab.History.Compare.{get_prior_complete_snapshot, snapshot_status}
use agent_commerce_lab.History.Record.{snapshot_to_row, current_meta}
use agent_commerce_lab.History.Wrapper.{no_faults}
use agent_commerce_lab.History.Alarm.{transport_alarm, content_alarm}
use agent_commerce_lab.History.Gate.{same_versions}
use agent_commerce_lab.History.Tests.{site, later, store}
use agent_commerce_lab.Batch.Pool.{snapshot_taken, scan_threw}
use agent_commerce_lab.Alerting.{delivered_ok}
use agent_commerce_lab.Scheduled.{Stores, ScheduledWorld, scan_domain, parse_monitor_domains}
use agent_commerce_lab.Scheduled.Isolated.{
  failed_scan, results, stores_after, run_scheduled_scans_isolates,
}
use agent_commerce_lab.Scheduled.Alarms.{is_critical_alert, scan_domain_alarms}

abbrev world : ScheduledWorld
world = record {
  domain_key = λ url. "example.com";
  scan =
      λ url. if str_eq url "down.example" then scan_threw "unreachable" else snapshot_taken later;
  now = λ url. "2026-08-21T10:00:01.000Z";
  faults = λ url. no_faults;
  alert_fails = λ url. false;
  webhook_url = some "https://hook.example";
  post = λ url row. delivered_ok "2026-08-21T10:00:02.000Z";
}

abbrev stores : Stores
stores = record { history = store; alerts = [] }

abbrev before : SnapshotRow
before = snapshot_to_row 1 "example.com" (site true 80)

scan_domain_alarms_example :
    (is_critical_alert (scan_domain world "example.com" (snapshot_taken later) stores).0.alert
      ≡ true)
    ↔ ((same_versions before.meta (current_meta 2 later)
          && (transport_alarm before.raw_snapshot later
              || content_alarm before.raw_snapshot.content later.content))
        ≡ true)
unfolding get_prior_complete_snapshot snapshot_to_row snapshot_status
scan_domain_alarms_example = scan_domain_alarms world "example.com" later stores before refl refl

run_scheduled_scans_isolates_example :
    (stores_after world (("a.example" ∷ []) ++ "down.example" ∷ "b.example" ∷ []) stores
      ≡ stores_after world (("a.example" ∷ []) ++ "b.example" ∷ []) stores)
    × (results world (("a.example" ∷ []) ++ "down.example" ∷ "b.example" ∷ []) stores
        ≡ results world ("a.example" ∷ []) stores
          ++ failed_scan "down.example" "unreachable"
            ∷ results world ("b.example" ∷ []) (stores_after world ("a.example" ∷ []) stores))
    × (results world (("a.example" ∷ []) ++ "b.example" ∷ []) stores
        ≡ results world ("a.example" ∷ []) stores
          ++ results world ("b.example" ∷ []) (stores_after world ("a.example" ∷ []) stores))
run_scheduled_scans_isolates_example =
    run_scheduled_scans_isolates world ("a.example" ∷ []) "down.example" ("b.example" ∷ []) stores
      "unreachable" refl

domains_test : parse_monitor_domains (some " a.com, b.com ") ≡ codes "a.com" ∷ codes "b.com" ∷ []
unfolding parse_monitor_domains split trim trim_start trim_end is_space
domains_test = refl
