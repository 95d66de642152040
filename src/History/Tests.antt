-- ===== src/History/Tests.antt =====
-- The comparison of src/history.ts on a site that loses HTTPS.
use agent_commerce_lab.Prelude.{
  ℕ, ◌+◌, ◌++◌, length, ◌≡◌, refl, ◌↔◌, Bool, true, false, ◌&&◌, ◌||◌, some, none, String, List, [],
  ◌∷◌,
}
use agent_commerce_lab.ContentCheck.Types.{grade_a}
use agent_commerce_lab.Verdict
use agent_commerce_lab.History.Types.{SecuritySnapshot, SnapshotVersionMeta, SnapshotRow, critical}
use agent_commerce_lab.History.Diff.{add_if, concat, diff_guarded, diff_plain}
use agent_commerce_lab.History.Content.{diff_snapshots}
use agent_commerce_lab.History.Compare.{
  has_critical, compute_change, record_materiality, may_anchor, get_prior_complete_snapshot,
}
use agent_commerce_lab.History.Alarm.{transport_alarm, content_alarm}
use agent_commerce_lab.History.Same.{diff_snapshots_same}
use agent_commerce_lab.ContentCheck.CrawlTests.{nothing_read}
use agent_commerce_lab.History.Gate.{same_versions, critical_change_iff}
use agent_commerce_lab.History.Record.{
  HistoryStore, snapshot_to_row, insert_snapshot_row, record_and_compare,
}
use agent_commerce_lab.History.Effects.{written, record_writes}
use agent_commerce_lab.History.Anchor.{IsLatest, prior-IsLatest}

abbrev pub site : Bool → ℕ → SecuritySnapshot
site https score = record {
  target = "example.com";
  timestamp = "2026-08-20T10:00:00.000Z";
  http = record {
    status = some 200;
    ok = true;
    redirect_chain = [];
    final_url = none;
    error = none;
  };
  tls = record {
    used_https = https;
    protocol = none;
    cipher_suite = none;
    cipher_suite_id = none;
    weak_cipher = false;
    probe_error = none;
  };
  dns = record {
    has_a = true;
    has_aaaa = false;
    has_mx = false;
    has_txt = false;
    records = record { a = []; aaaa = []; mx = []; txt = [] };
    note = "";
  };
  security_headers = record {
    strict_transport_security = none;
    content_security_policy = none;
    x_frame_options = none;
    x_content_type_options = none;
    referrer_policy = none;
    permissions_policy = none;
  };
  header_score = record { score = score; grade = grade_a; issues = [] };
  tech_observations = record {
    server = none;
    powered_by = none;
    powered_by_cloudflare = false;
    cms_guess = none;
  };
  findings = [];
  verdict = record { status = Verdict.warn; score = score; summary = ""; top_issues = [] };
  content = none;
}

abbrev version : ℕ → String → SnapshotVersionMeta
version id time = record {
  id = id;
  scanned_at = time;
  scanner_version = "snapshot-v3";
  scoring_version = "scoring-v2";
}

abbrev first : SnapshotVersionMeta
first = version 1 "2026-08-19"

abbrev second : SnapshotVersionMeta
second = version 2 "2026-08-20"

abbrev pub empty_store : HistoryStore
empty_store = record { snapshots = []; next_snapshot_id = 1; changes = []; next_change_id = 1 }

abbrev pub store : HistoryStore
store = insert_snapshot_row "example.com" (site true 80) empty_store

abbrev table : List SnapshotRow
table =
    snapshot_to_row 1 "example.com" (site true 80)
    ∷ snapshot_to_row 2 "other.com" (site false 20)
    ∷ []

downgrade_test :
    record_materiality (compute_change first (site true 80) second (site false 20)) ≡ some critical
unfolding record_materiality compute_change has_critical diff_snapshots diff_guarded diff_plain
    add_if concat
downgrade_test = refl

critical_change_iff_example :
    record_materiality (compute_change first (site true 80) second (site false 20)) ≡ some critical
    ↔ (same_versions first second
        && (transport_alarm (site true 80) (site false 20) || content_alarm none none))
      ≡ true
critical_change_iff_example = critical_change_iff first (site true 80) second (site false 20)

prior-IsLatest_example :
    IsLatest
      (may_anchor "example.com" "2026-08-21")
      table
      (get_prior_complete_snapshot table "example.com" "2026-08-21")
prior-IsLatest_example = prior-IsLatest table "example.com" "2026-08-21"

abbrev pub later : SecuritySnapshot
later = record (site false 20) { timestamp = "2026-08-21T10:00:00.000Z" }

record_writes_example :
    let (r, store') = record_and_compare (λ t. t) "2026-08-21T10:00:01.000Z" later store in
    (store'.snapshots ≡ store.snapshots ++ snapshot_to_row 2 "example.com" later ∷ [])
    × (length store'.changes ≡ length store.changes + written r.comparison.comparable)
record_writes_example = record_writes (λ t. t) "2026-08-21T10:00:01.000Z" later store

-- A snapshot with a content check.
abbrev checked : SecuritySnapshot
checked = record (site true 80) { content = some nothing_read }

diff_snapshots_same_example : diff_snapshots checked checked ≡ []
diff_snapshots_same_example = diff_snapshots_same checked
