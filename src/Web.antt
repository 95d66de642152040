-- ===== src/Web.antt =====
-- The platform that src/snapshot.ts and src/content-check.ts call, as a record of what they take from it:
-- the URL parser, the text of a list of code points, and what a request comes to. `fetch hop url` is the
-- answer to the request of a redirect loop's round `hop`; a body that cannot be read is an error.
-- `url_error` is the message of the exception of the URL parser.
use agent_commerce_lab.Prelude.{ℕ, Bool, ◌||◌, ◌==◌, Option, none, some, String, List}
use agent_commerce_lab.Prelude.Text.{◌<>◌}
use agent_commerce_lab.Prelude.Match.{codes}
use agent_commerce_lab.SsrfGuard.Decision.{
  RecordType, Fetched, Reason, localhost_hostname, private_ipv4_literal, private_ipv6_literal,
  resolves_to_internal, HostCheckResult, check_hostname_allowed,
}

-- The parts of a parsed URL.
pub record Url : Type 0 where
  pub href : String
  pub protocol : String
  pub hostname : String
  pub pathname : String
  pub origin : String

pub data Body : Type 0 where
  body_text : String → Body
  body_unreadable : String → Body

pub record Response : Type 0 where
  pub status : ℕ
  pub ok : Bool
  pub header : String → Option String
  pub body : Body

pub data FetchOutcome : Type 0 where
  answered : Response → FetchOutcome
  fetch_threw : String → FetchOutcome

pub record Web : Type 0 where
  pub parse_url : String → Option Url
  pub resolve_url : String → String → Option Url
  pub url_error : String
  pub text_of : List ℕ → String
  pub number : List ℕ → Option ℕ
  pub doh : List ℕ → RecordType → Fetched
  pub fetch : ℕ → String → FetchOutcome

-- `[301, 302, 303, 307, 308].includes(res.status)`
abbrev pub is_redirect : ℕ → Bool
is_redirect status =
    status == 301 || status == 302 || status == 303 || status == 307 || status == 308

-- The guard on the host of a URL.
abbrev pub check_host : Web → String → HostCheckResult
check_host web hostname = check_hostname_allowed web.number web.doh (codes hostname)

abbrev pub reason_text : Web → Option Reason → String
reason_text web none = "null"
reason_text web (some (localhost_hostname h)) =
    "\"" <> web.text_of h <> "\" is a localhost hostname"
reason_text web (some (private_ipv4_literal h)) =
    "IP literal " <> web.text_of h <> " is in a private/internal range"
reason_text web (some (private_ipv6_literal h)) =
    "IPv6 literal " <> web.text_of h <> " is in a private/internal range"
reason_text web (some (resolves_to_internal h ip)) =
    "\"" <> web.text_of h <> "\" resolves to internal address " <> web.text_of ip

abbrev pub blocked_text : Web → HostCheckResult → String
blocked_text web check = "blocked by SSRF guard: " <> reason_text web check.reason
