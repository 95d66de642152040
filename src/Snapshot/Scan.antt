-- ===== src/Snapshot/Scan.antt =====
-- `runSecuritySnapshot` of src/snapshot.ts: the base scan and the content scan on top of it.
use agent_commerce_lab.Prelude.{
  ℕ, Bool, ◌&&◌, ◌||◌, not, Option, none, some, String, List, [], ◌∷◌, ◌++◌, or_else, map, take,
  length, leb, ltb, if◌then◌else◌,
}
use agent_commerce_lab.Prelude.Text.{◌<>◌, decimal, str_eq, truthy}
use agent_commerce_lab.GroundTruth.{
  GroundTruthFact, FactPattern, load_active_facts, load_superseded_facts, load_fact_patterns,
}
use agent_commerce_lab.ContentCheck.Types.{ContentResult, ContentFinding}
use agent_commerce_lab.ContentCheck.Run.{Run, done, threw, endless, ◌>>=◌, run_content_check}
use agent_commerce_lab.Verdict.{
  HeaderScore, HeaderIssue, TlsProbeResult, ContentVerdictInput, build_verdict, nullable_text,
}
use agent_commerce_lab.HeaderScoring.Total.{score_security_headers}
use agent_commerce_lab.DnsCheck.{check_dns_records}
use agent_commerce_lab.TlsProbe.Probe.{probe_tls}
use agent_commerce_lab.History.Types.{SecuritySnapshot, SecurityHeaders}
use agent_commerce_lab.Web.{Url, Response}
use agent_commerce_lab.Snapshot.Chain.{
  ChainResult, ChainFetch, chain_fetched, chain_threw, fetch_with_chain,
}
use agent_commerce_lab.Snapshot.Assemble.{
  GroundTruthDb, ScanWorld, SnapshotOptions, header_input, no_tls, failed_snapshot, empty_snapshot,
  when, severity_text, content_severity_text, read_headers, observe_tech,
}
use text.Mathlib.Text.{starts_with}

abbrev pub header_findings : Bool → SecurityHeaders → List String
header_findings used_https h =
    when (not used_https) "Final URL is not served over HTTPS."
    ++ (when (used_https && not (truthy h.strict_transport_security))
          "Missing Strict-Transport-Security header."
        ++ (when (not (truthy h.content_security_policy)) "Missing Content-Security-Policy header."
            ++ (when (not (truthy h.x_frame_options))
                  "Missing X-Frame-Options header (clickjacking exposure)."
                ++ when (not (truthy h.x_content_type_options))
                    "Missing X-Content-Type-Options header.")))

abbrev pub tls_findings : Bool → TlsProbeResult → List String
tls_findings used_https tls =
    when (truthy tls.error && used_https) ("TLS probe: " <> or_else tls.error "")
    ++ when tls.weak (
        "TLS cipher suite is weak/legacy: "
        <> or_else tls.cipher_suite (nullable_text tls.cipher_suite_id)
        <> ".")

abbrev pub response_findings : List String → ℕ → List String
response_findings chain status =
    when (ltb 3 (length chain))
      ("Redirect chain is " <> decimal (length chain) <> " hops long — consider flattening.")
    ++ (when (leb 500 status) ("Origin returned a server error (" <> decimal status <> ").")
        ++ when (leb 400 status && ltb status 500)
            ("Origin returned a client error (" <> decimal status <> ")."))

abbrev pub issue_finding : HeaderIssue → String
issue_finding i = "[" <> severity_text i.severity <> "] " <> i.header <> ": " <> i.message

abbrev pub probe_if : Bool → TlsProbeResult → TlsProbeResult
probe_if used_https probed =
    if used_https then probed else no_tls (some "skipped — target is not served over HTTPS")

abbrev pub protocol_of : Bool → TlsProbeResult → Option String
protocol_of used_https tls = elim tls.version [
  | some v ↦ some v
  | none ↦ if used_https then some "unknown (TLS probe did not resolve a version)" else none
]

-- The input of the verdict of a scanned response.
abbrev pub verdict_input :
    Response
    → Bool
    → HeaderScore
    → TlsProbeResult
    → Option ContentVerdictInput
    → agent_commerce_lab.Verdict.VerdictInput
verdict_input res used_https header_score tls content = record {
  http_ok = res.ok;
  http_error = none;
  used_https = used_https;
  header_score = header_score;
  tls = tls;
  content = content;
}

module _ (w : ScanWorld) where
  unfoldable pub base_snapshot :
      String → List String → Option String → Response → Bool → String → SecuritySnapshot
  base_snapshot target chain final_url res used_https hostname =
      let headers = read_headers res in
      let tls = probe_if used_https (probe_tls w.tls hostname) in
      let header_score = score_security_headers (header_input used_https headers) in
      record {
        target = target;
        timestamp = w.timestamp;
        http = record {
          status = some res.status;
          ok = res.ok;
          redirect_chain = chain;
          final_url = final_url;
          error = none;
        };
        tls = record {
          used_https = used_https;
          protocol = protocol_of used_https tls;
          cipher_suite = tls.cipher_suite;
          cipher_suite_id = tls.cipher_suite_id;
          weak_cipher = tls.weak;
          probe_error = tls.error;
        };
        dns = check_dns_records w.dns hostname;
        security_headers = headers;
        header_score = header_score;
        tech_observations = observe_tech w.generator res;
        findings =
            header_findings used_https headers
            ++ (tls_findings used_https tls
                ++ (response_findings chain res.status ++ map issue_finding header_score.issues));
        verdict = build_verdict (verdict_input res used_https header_score tls none);
        content = none;
      }

  abbrev pub content_verdict_input : ContentResult → ContentVerdictInput
  content_verdict_input c = record {
    score = c.score;
    grade = c.grade;
    status = c.status;
    top_findings =
        map (λ (f : ContentFinding). "[" <> content_severity_text f.severity <> "] " <> f.message)
          (take 5 c.findings);
  }

  -- The snapshot with a content result and the verdict that takes it in.
  unfoldable pub with_content :
      Response → Bool → String → SecuritySnapshot → ContentResult → SecuritySnapshot
  with_content res used_https hostname s c = record s {
    content = some c;
    verdict = build_verdict (
        verdict_input res used_https s.header_score (probe_if used_https (probe_tls w.tls hostname))
          (some (content_verdict_input c)));
  }

  -- The `catch` of the content scan.
  abbrev pub content_skipped : SecuritySnapshot → SecuritySnapshot
  content_skipped s = record s {
    findings = s.findings ++ "Content scan skipped: ground-truth store unavailable." ∷ [];
  }

  abbrev pub on_content :
      Response → Bool → String → SecuritySnapshot → Run ContentResult → Run SecuritySnapshot
  on_content res used_https hostname s (done c) = done (with_content res used_https hostname s c)
  on_content res used_https hostname s threw = done (content_skipped s)
  on_content res used_https hostname s endless = endless

  -- The patterns of no fact are asked for without a query.
  abbrev pub load_patterns : Option (List FactPattern) → List String → Run (List FactPattern)
  load_patterns none [] = done []
  load_patterns none (k ∷ ks) = threw
  load_patterns (some table) ks = done (load_fact_patterns table ks)

  abbrev pub check_content :
      String
      → List GroundTruthFact
      → Run (List FactPattern)
      → List GroundTruthFact
      → Run ContentResult
  check_content origin_url facts patterns superseded = patterns >>= λ ps.
      run_content_check w.web w.tools w.fuel (record {
        origin_url = origin_url;
        facts = facts;
        superseded = superseded;
        patterns = ps;
        max_pages = none;
        as_of = w.today;
      })

  -- The `try` block of the content scan.
  abbrev pub scan_content :
      GroundTruthDb → Option (List GroundTruthFact) → String → Run ContentResult
  scan_content db none origin_url = threw
  scan_content db (some table) origin_url =
      let facts = load_active_facts table "ZA" w.today in
      check_content origin_url facts
        (load_patterns db.pattern_table (map (λ (f : GroundTruthFact). f.fact_key) facts))
        (load_superseded_facts table "ZA" w.today)

  abbrev pub add_content :
      SnapshotOptions
      → Option GroundTruthDb
      → Response
      → Bool
      → String
      → String
      → SecuritySnapshot
      → Run SecuritySnapshot
  add_content opts none res used_https hostname origin_url s = done s
  add_content opts (some db) res used_https hostname origin_url s =
      let scanned =
        on_content res used_https hostname s (scan_content db db.fact_table origin_url) in
      if opts.content then scanned else done s

  abbrev pub scan_host :
      SnapshotOptions
      → String
      → List String
      → Option String
      → Response
      → String
      → Option Url
      → Run SecuritySnapshot
  scan_host opts target chain final_url res final none = threw
  scan_host opts target chain final_url res final (some u) =
      let used_https = starts_with final "https:" in
      add_content opts opts.ground_truth_db res used_https u.hostname final
        (base_snapshot target chain final_url res used_https u.hostname)

  abbrev pub scan_failed : String → ChainResult → String → SecuritySnapshot
  scan_failed target r http_error =
      failed_snapshot target w.timestamp r.chain r.final_url http_error
        (("Request failed: " <> http_error) ∷ [])

  -- `if (error || !response)`
  abbrev pub scan_response :
      SnapshotOptions → String → ChainResult → Option Response → Run SecuritySnapshot
  scan_response opts target r none = done (scan_failed target r (or_else r.error "unknown error"))
  scan_response opts target r (some res) =
      let final = or_else r.final_url target in
      let scanned = scan_host opts target r.chain r.final_url res final (w.web.parse_url final) in
      if truthy r.error
      then done (scan_failed target r (or_else r.error "unknown error"))
      else scanned

  abbrev pub scan_chain : SnapshotOptions → String → ChainFetch → Run SecuritySnapshot
  scan_chain opts target chain_threw = threw
  scan_chain opts target (chain_fetched r) = scan_response opts target r r.response

  -- The snapshot over what `fetchWithChain` makes of a URL.
  abbrev pub scan_target :
      (String → ChainFetch) → SnapshotOptions → String → Option Url → Run SecuritySnapshot
  scan_target fetch_chain opts raw_url none =
      done (empty_snapshot raw_url w.timestamp "invalid URL")
  scan_target fetch_chain opts raw_url (some u) =
      let scanned = scan_chain opts u.href (fetch_chain u.href) in
      if not (str_eq u.protocol "http:" || str_eq u.protocol "https:")
      then done (empty_snapshot raw_url w.timestamp "invalid URL")
      else scanned

  unfoldable pub run_security_snapshot : SnapshotOptions → String → Run SecuritySnapshot
  run_security_snapshot opts raw_url =
      scan_target (λ url. fetch_with_chain w.web url) opts raw_url (w.web.parse_url raw_url)
