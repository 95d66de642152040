-- ===== src/ContentCheck/CrawlTests.antt =====
-- The crawl, the extraction and the classification of src/content-check.ts on small pages.
use agent_commerce_lab.Prelude.{
  ℕ, zero, suc, ◌≤◌, ◌≡◌, refl, Bool, true, false, Option, none, some, String, List, [], ◌∷◌, any,
  arith, is_some, ◌⊎◌, Bool-cases, inl, inr, if◌then◌else◌,
}
use agent_commerce_lab.Prelude.Text.{str_eq}
use agent_commerce_lab.Prelude.Match.{codes, number_at}
use agent_commerce_lab.SsrfGuard.Addresses.{IsPrivateIpv4, loopback_bytes}
use agent_commerce_lab.SsrfGuard.{
  ipv4, parse_ipv4, is_private_ipv4, is_private_ipv6, is_private, in_blocked_range, split,
}
use agent_commerce_lab.SsrfGuard.Decision.{
  RecordType, Fetched, answers, not_ok, a_record, aaaa_record, is_localhost_name, resolve_via_doh,
  check_hostname_allowed,
}
use agent_commerce_lab.Web.{Web, Url, FetchOutcome, answered, fetch_threw, body_text}
use agent_commerce_lab.GroundTruth.{
  GroundTruthFact, FactPattern, money, value_pattern, keyword_pattern,
}
use agent_commerce_lab.ContentCheck.Types.{
  RawClaim, PageContent, ContentResult, value_claim, fail, grade_f,
}
use agent_commerce_lab.ContentCheck.Score.{score_content, content_score}
use agent_commerce_lab.ContentCheck.Classify.{classify_pages, findings_of}
use agent_commerce_lab.ContentCheck.Classify.Wrong.{critical_on}
use agent_commerce_lab.ContentCheck.Classify.Alarm.{wrong_figure_fails}
use agent_commerce_lab.ContentCheck.Classify.Right.{is_serious, right_figures_pass}
use agent_commerce_lab.ContentCheck.Extract.{RegExpMatch, extract_claims_from_text}
use agent_commerce_lab.ContentCheck.Extract.Ends.{IsMatch, IsEmptyMatch, extract_claims_end}
use agent_commerce_lab.ContentCheck.Run.{
  done, TextTools, ContentCheckInput, run_content_check, scanned_pages, content_result,
}
use agent_commerce_lab.ContentCheck.Fetch.{
  fetch_page_text, extract_internal_links, parse_sitemap_urls, canonical_page_key,
}
use agent_commerce_lab.ContentCheck.Run.Guarded.{IsPublicUrl}
use agent_commerce_lab.ContentCheck.Run.Scope.{IsBounded, run_content_check-IsBounded}

abbrev pub rate : GroundTruthFact
rate = record {
  fact_key = "vat_rate";
  label = "VAT rate";
  value = "15";
  unit = some "%";
  jurisdiction = "ZA";
  impact_class = money;
  applies_from = "2018-04-01";
  applies_until = none;
  source_tier = 1;
  source_ref = "act";
  approved_by = "a";
  approved_at = "2026-01-01";
  notes = none;
}

abbrev claim : String → RawClaim
claim v = record {
  fact_key = "vat_rate";
  raw = v;
  normalized = v;
  kind = value_claim;
  page_path = "/";
}

abbrev page : String → String → PageContent
page path v = record { page_path = path; text = "VAT"; claims = claim v ∷ [] }

abbrev matches : String → String → Option Bool
matches pattern text = some (str_eq pattern text)

abbrev topic : FactPattern
topic = record { fact_key = "vat_rate"; kind = keyword_pattern; pattern = "VAT"; priority = 1 }

-- One wrong page behind a right one of the same path.
abbrev pub pages : List PageContent
pages = page "/" "16" ∷ page "/" "15" ∷ []

wrong_figure_fails_example :
    let findings = (classify_pages matches pages (rate ∷ []) [] (topic ∷ []) "2026-08-20").0 in
    (any (critical_on rate) findings ≡ true)
    × ((score_content (rate ∷ []) findings).status ≡ fail)
    × ((score_content (rate ∷ []) findings).score ≤ 35)
wrong_figure_fails_example =
    wrong_figure_fails matches rate pages (rate ∷ []) [] (topic ∷ []) "2026-08-20" refl refl refl

right_figures_pass_example :
    any is_serious
      (classify_pages matches
        (page "/" "15" ∷ page "/tax" "15" ∷ [])
        (rate ∷ [])
        []
        (topic ∷ [])
        "2026-08-20").0
    ≡ false
right_figures_pass_example =
    right_figures_pass matches (page "/" "15" ∷ page "/tax" "15" ∷ []) (rate ∷ []) [] (topic ∷ [])
      "2026-08-20" refl

-- An expression that matches the first unit of a text.
abbrev first_unit : RegExpMatch
first_unit = record { index = 0; last_index = 1; whole = "1"; group = none }

abbrev exec : String → String → ℕ → Option RegExpMatch
exec pattern text zero = some first_unit
exec pattern text (suc n) = none

abbrev compiles : String → Bool
compiles pattern = true

abbrev value_of : String → Option String
value_of raw = some raw

first-IsMatch :
    (pattern : String) (start : ℕ) (m : RegExpMatch)
    → exec pattern "1" start ≡ some m
    → IsMatch compiles exec value_of value_of 1 start m
first-IsMatch pattern zero m h = let same : first_unit ≡ m = cc in rw same at at_first
  where
    at_first : IsMatch compiles exec value_of value_of 1 0 first_unit
    at_first = record { from_start = omega arith; forward = omega arith; in_text = omega arith }
first-IsMatch pattern (suc n) m h = cc

abbrev figure : FactPattern
figure = record { fact_key = "vat_rate"; kind = value_pattern; pattern = "1"; priority = 0 }

extract_claims_end_example :
    (is_some (
        extract_claims_from_text compiles exec value_of value_of 3 "1" "/"
          (rate ∷ [])
          (figure ∷ topic ∷ []))
      ≡ true)
    ⊎ IsEmptyMatch compiles exec value_of value_of (rate ∷ []) (figure ∷ topic ∷ []) "1"
extract_claims_end_example =
    extract_claims_end compiles exec value_of value_of "1" 1 first-IsMatch (rate ∷ [])
      (figure ∷ topic ∷ []) 3 "/" (omega arith)

-- A site of two URLs, one of them on the loopback interface.
abbrev url_of : String → String → String → Url
url_of href host path = record {
  href = href;
  protocol = "https:";
  hostname = host;
  pathname = path;
  origin = "https://example.com";
}

abbrev pub loopback : Url
loopback = url_of "https://127.0.0.1/" "127.0.0.1" "/"

abbrev pub parse_url : String → Option Url
parse_url s =
    if str_eq s "https://127.0.0.1/" then some loopback else some (url_of s "example.com" "/")

abbrev pub no_page : FetchOutcome
no_page = fetch_threw "no answer"

abbrev pub secret : ℕ → String → FetchOutcome
secret hop url =
    if str_eq url "https://127.0.0.1/"
    then answered
        (record { status = 200; ok = true; header = λ name. none; body = body_text "secret" })
    else no_page

abbrev resolver : List ℕ → RecordType → Fetched
resolver host a_record = answers (codes "93.184.216.34" ∷ [])
resolver host aaaa_record = not_ok

abbrev pub web : Web
web = record {
  parse_url = parse_url;
  resolve_url = λ location base. parse_url location;
  url_error = "Invalid URL";
  text_of = λ s. "";
  number = number_at;
  doh = resolver;
  fetch = λ hop url. no_page;
}

-- 127.0.0.1 is a private address.
loopback_is_private : IsPrivateIpv4 number_at (codes "127.0.0.1")
loopback_is_private = record {
  ip = ipv4 127 0 0 1;
  dotted = record {
    p = codes "127";
    q = codes "0";
    r = codes "0";
    s = codes "1";
    joined = refl;
    p_part = (refl, (refl, (refl, tt)));
    q_part = (refl, tt);
    r_part = (refl, tt);
    s_part = (refl, tt);
    a_value = refl;
    b_value = refl;
    c_value = refl;
    d_value = refl;
    bytes = record {
      a_byte = omega arith;
      b_byte = omega arith;
      c_byte = omega arith;
      d_byte = omega arith;
    };
  };
  private = loopback_bytes (ipv4 127 0 0 1) refl;
}

-- The two platforms differ only on the loopback address, which is not public.
pub secret_is_private :
    (hop : ℕ) (url : String) (u : Url)
    → parse_url url ≡ some u
    → IsPublicUrl web u
    → no_page ≡ secret hop url
secret_is_private hop url u e h = elim (Bool-cases (str_eq url "https://127.0.0.1/")) [
  | inr other ↦ rw other refl
  | inl private ↦
      let here : some loopback ≡ some u = rw private at e in
      let same : u ≡ loopback = cc in
      let public : IsPublicUrl web loopback = rw same at h in
      absurd (public.no_private_ipv4 loopback_is_private)
]

abbrev pub tools : TextTools
tools = record {
  html_to_text = λ html. html;
  has_loc = λ xml. false;
  loc_matches = λ xml. [];
  href_matches = λ html. "https://127.0.0.1/" ∷ [];
  matches = matches;
  compiles = compiles;
  exec = exec;
  normalize_money = value_of;
  normalize_month_day = value_of;
}

abbrev pub input : ContentCheckInput
input = record {
  origin_url = "https://example.com/";
  facts = rate ∷ [];
  superseded = [];
  patterns = topic ∷ [];
  max_pages = none;
  as_of = "2026-08-20";
}

-- No page of the site answers.
abbrev pub nothing_read : ContentResult
nothing_read = record {
  scope = record { pages_scanned = 0; pages_planned = 1; sitemap_found = false; truncated = false };
  facts = ("vat_rate", record { claims = []; pages = []; impact = money }) ∷ [];
  findings = [];
  score = 0;
  grade = grade_f;
  status = fail;
}

crawl_test : run_content_check web tools 3 input ≡ done nothing_read
unfolding run_content_check fetch_page_text extract_internal_links parse_sitemap_urls scanned_pages
    content_result classify_pages findings_of score_content content_score canonical_page_key
    check_hostname_allowed is_localhost_name parse_ipv4 split is_private_ipv4 is_private
    is_private_ipv6 in_blocked_range resolve_via_doh
crawl_test = refl

run_content_check-IsBounded_example :
    IsBounded web tools 3 input (run_content_check web tools 3 input)
run_content_check-IsBounded_example = run_content_check-IsBounded web tools 3 input
