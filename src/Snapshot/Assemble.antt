-- ===== src/Snapshot/Assemble.antt =====
-- `runSecuritySnapshot` of src/snapshot.ts. What is not the platform's requests is in a record: the time,
-- the resolver, the TLS socket, the generator expression, and the ground-truth store.
use agent_commerce_lab.Prelude.{
  ℕ, Bool, false, ◌||◌, Option, none, some, String, List, [], ◌∷◌, or_else, if◌then◌else◌,
}
use agent_commerce_lab.Prelude.Text.{truthy, slice_to}
use agent_commerce_lab.Prelude.Match.{codes, contains_word}
use agent_commerce_lab.GroundTruth.{GroundTruthFact, FactPattern}
use agent_commerce_lab.ContentCheck.Types.{ContentSeverity}
use agent_commerce_lab.ContentCheck.Run.{TextTools}
use agent_commerce_lab.Verdict.{Severity, TlsProbeResult, build_verdict}
use agent_commerce_lab.HeaderScoring.Total.{HeaderInput, score_security_headers}
use agent_commerce_lab.DnsCheck.{DnsAnswer}
use agent_commerce_lab.TlsProbe.Probe.{TlsWorld}
use agent_commerce_lab.History.Types.{
  SecuritySnapshot, DnsCheckResult, SecurityHeaders, TechObservations,
}
use agent_commerce_lab.Web.{Web, Body, body_text, body_unreadable, Response}
use agent_commerce_lab.Snapshot.Chain.{guess_cms}

-- The ground-truth store: its two tables, `none` where a query of the table throws.
pub record GroundTruthDb : Type 0 where
  pub fact_table : Option (List GroundTruthFact)
  pub pattern_table : Option (List FactPattern)

pub record ScanWorld : Type 0 where
  pub web : Web
  pub timestamp : String
  pub today : String
  pub dns : String → String → DnsAnswer
  pub tls : TlsWorld
  pub generator : String → Option String
  pub tools : TextTools
  pub fuel : ℕ

pub record SnapshotOptions : Type 0 where
  pub content : Bool
  pub ground_truth_db : Option GroundTruthDb

abbrev pub empty_dns : DnsCheckResult
empty_dns = record {
  has_a = false;
  has_aaaa = false;
  has_mx = false;
  has_txt = false;
  records = record { a = []; aaaa = []; mx = []; txt = [] };
  note = "not evaluated";
}

abbrev pub empty_security_headers : SecurityHeaders
empty_security_headers = record {
  strict_transport_security = none;
  content_security_policy = none;
  x_frame_options = none;
  x_content_type_options = none;
  referrer_policy = none;
  permissions_policy = none;
}

abbrev pub header_input : Bool → SecurityHeaders → HeaderInput
header_input used_https h = record {
  used_https = used_https;
  strict_transport_security = h.strict_transport_security;
  content_security_policy = h.content_security_policy;
  x_frame_options = h.x_frame_options;
  x_content_type_options = h.x_content_type_options;
  referrer_policy = h.referrer_policy;
  permissions_policy = h.permissions_policy;
}

abbrev pub no_tls : Option String → TlsProbeResult
no_tls e = record {
  version = none;
  cipher_suite = none;
  cipher_suite_id = none;
  weak = false;
  error = e;
}

-- The snapshot of a target that gave no response: `emptySnapshot`, and the early return of the scan.
abbrev pub failed_snapshot :
    String → String → List String → Option String → String → List String → SecuritySnapshot
failed_snapshot target timestamp chain final_url error findings =
    let header_score = score_security_headers (header_input false empty_security_headers) in
    record {
      target = target;
      timestamp = timestamp;
      http = record {
        status = none;
        ok = false;
        redirect_chain = chain;
        final_url = final_url;
        error = some error;
      };
      tls = record {
        used_https = false;
        protocol = none;
        cipher_suite = none;
        cipher_suite_id = none;
        weak_cipher = false;
        probe_error = none;
      };
      dns = empty_dns;
      security_headers = empty_security_headers;
      header_score = header_score;
      tech_observations = record {
        server = none;
        powered_by = none;
        powered_by_cloudflare = false;
        cms_guess = none;
      };
      findings = findings;
      verdict = build_verdict (record {
        http_ok = false;
        http_error = some error;
        used_https = false;
        header_score = header_score;
        tls = no_tls none;
        content = none;
      });
      content = none;
    }

abbrev pub empty_snapshot : String → String → String → SecuritySnapshot
empty_snapshot target timestamp error = failed_snapshot target timestamp [] none error (error ∷ [])

-- `if (b) findings.push(text)`
abbrev pub when : Bool → String → List String
when b text = if b then text ∷ [] else []

abbrev pub severity_text : Severity → String
severity_text Severity.high = "high"
severity_text Severity.medium = "medium"
severity_text Severity.low = "low"

abbrev pub content_severity_text : ContentSeverity → String
content_severity_text ContentSeverity.critical = "critical"
content_severity_text ContentSeverity.material = "material"
content_severity_text ContentSeverity.informational = "informational"

abbrev pub read_headers : Response → SecurityHeaders
read_headers res = record {
  strict_transport_security = res.header "strict-transport-security";
  content_security_policy = res.header "content-security-policy";
  x_frame_options = res.header "x-frame-options";
  x_content_type_options = res.header "x-content-type-options";
  referrer_policy = res.header "referrer-policy";
  permissions_policy = res.header "permissions-policy";
}

abbrev pub cms_of : (String → Option String) → Response → Body → Option String
cms_of generator res (body_text text) =
    guess_cms generator (res.header "x-powered-by") (slice_to 20000 text)
cms_of generator res (body_unreadable e) = none

abbrev pub observe_tech : (String → Option String) → Response → TechObservations
observe_tech generator res = record {
  server = res.header "server";
  powered_by = res.header "x-powered-by";
  powered_by_cloudflare =
      truthy (res.header "cf-ray")
      || contains_word (codes "cloudflare") (codes (or_else (res.header "server") ""));
  cms_guess = cms_of generator res res.body;
}
