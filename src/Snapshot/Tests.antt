-- ===== src/Snapshot/Tests.antt =====
-- A scan of src/snapshot.ts on a site that does not answer.
use agent_commerce_lab.Prelude.{◌≡◌, refl, true, some, none, String, [], Bool-cases, inl, inr}
use agent_commerce_lab.Prelude.Text.{str_eq}
use agent_commerce_lab.ContentCheck.CrawlTests.{
  web, secret, secret_is_private, tools, rate, pages, input,
}
use agent_commerce_lab.ContentCheck.Run.{content_result}
use agent_commerce_lab.Verdict.{fail}
use agent_commerce_lab.Web.{Response, body_text}
use agent_commerce_lab.History.Tests.{site}
use agent_commerce_lab.DnsCheck.{dns_not_ok}
use agent_commerce_lab.TlsProbe.Probe.{sockets_unavailable}
use agent_commerce_lab.Snapshot.Assemble.{ScanWorld, SnapshotOptions}
use agent_commerce_lab.Snapshot.Scan.{run_security_snapshot, with_content}
use agent_commerce_lab.Snapshot.Guarded.{with_answers, run_security_snapshot-guarded}
use agent_commerce_lab.Snapshot.Content.{wrong_figure_fails_snapshot}
use agent_commerce_lab.Snapshot.Returns.{parses, ends_well, run_security_snapshot_returns}

abbrev scan_world : ScanWorld
scan_world = record {
  web = web;
  timestamp = "2026-08-20T10:00:00.000Z";
  today = "2026-08-20";
  dns = λ host kind. dns_not_ok;
  tls = record {
    random = [];
    public_key = [];
    encode = λ host. [];
    connect = λ host sent. sockets_unavailable;
  };
  generator = λ body. none;
  tools = tools;
  fuel = 3;
}

abbrev with_store : SnapshotOptions
with_store = record {
  content = true;
  ground_truth_db = some (record { fact_table = some []; pattern_table = none });
}

run_security_snapshot-guarded_example :
    run_security_snapshot scan_world with_store "https://example.com/"
    ≡ run_security_snapshot (with_answers scan_world secret) with_store "https://example.com/"
run_security_snapshot-guarded_example =
    run_security_snapshot-guarded scan_world secret secret_is_private with_store
      "https://example.com/"

-- Every text parses on this platform.
parse_any : (url : String) → parses web url ≡ true
parse_any url = elim (Bool-cases (str_eq url "https://127.0.0.1/")) [
  | inl here ↦ rw here refl
  | inr other ↦ rw other refl
]

run_security_snapshot_returns_example :
    ends_well true (run_security_snapshot scan_world with_store "https://example.com/") ≡ true
run_security_snapshot_returns_example =
    run_security_snapshot_returns scan_world with_store "https://example.com/"
      (λ url u e. parse_any u.href) (λ location base u e. parse_any u.href)

abbrev home : Response
home = record { status = 200; ok = true; header = λ name. none; body = body_text "VAT 16%" }

wrong_figure_fails_snapshot_example :
    (with_content scan_world home true "example.com"
      (site true 80)
      (content_result web tools 3 input 2 true [] pages)).verdict.status
    ≡ fail
wrong_figure_fails_snapshot_example =
    wrong_figure_fails_snapshot scan_world input rate 2 true [] pages home true "example.com"
      (site true 80) refl refl refl
