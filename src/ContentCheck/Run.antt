-- ===== src/ContentCheck/Run.antt =====
-- `runContentCheck` of src/content-check.ts. The regular expressions and the normalizers are the fields
-- of a record; a run is done, throws, or is out of the fuel of the loop over the matches.
pub mod Guarded
pub mod Scope
use agent_commerce_lab.Prelude.{
  ℕ, ◌+◌, ◌-◌, Bool, true, false, ◌&&◌, not, Option, none, some, String, List, [], ◌∷◌, ◌++◌, any,
  filter, length, ltb, ◌==◌, min, take, is_some, if◌then◌else◌,
}
use agent_commerce_lab.Prelude.Text.{◌<>◌, str_eq}
use agent_commerce_lab.Prelude.Match.{same_text}
use agent_commerce_lab.Web.{Web, Url}
use agent_commerce_lab.GroundTruth.{GroundTruthFact, FactPattern}
use agent_commerce_lab.ContentCheck.Types.{
  RawClaim, PageContent, ContentResult, ContentFinding, ContentFactObservation, ContentStatus,
  Grade, fail, grade_f,
}
use agent_commerce_lab.ContentCheck.Score.{ContentScore, score_content}
use agent_commerce_lab.ContentCheck.Classify.{classify_pages}
use agent_commerce_lab.ContentCheck.Extract.{RegExpMatch, extract_claims_from_text}
use agent_commerce_lab.ContentCheck.Fetch.{
  PageFetch, page_fetched, page_threw, fetch_page_text, canonical_page_key, parse_sitemap_urls,
  extract_internal_links,
}

pub data Run {ℓ} (A : Type ℓ) : Type ℓ where
  done : A → Run A
  threw : Run A
  endless : Run A

infixl 5 ◌>>=◌ ◌>>◌
abbrev pub ◌>>=◌ {ℓ κ} : {A : Type ℓ} {B : Type κ} → Run A → (A → Run B) → Run B
done a >>= f = f a
threw >>= f = threw
endless >>= f = endless

abbrev pub ◌>>◌ {ℓ κ} : {A : Type ℓ} {B : Type κ} → Run A → Run B → Run B
m >> k = m >>= λ _. k

abbrev pub each {ℓ κ} : {A : Type ℓ} {B : Type κ} → (A → Run B) → List A → Run (List B)
each f [] = done []
each f (x ∷ xs) = do y ← f x; ys ← each f xs; done (y ∷ ys)

-- What the content check takes from regular expressions and normalizers.
pub record TextTools : Type 0 where
  pub html_to_text : String → String
  pub has_loc : String → Bool
  pub loc_matches : String → List String
  pub href_matches : String → List String
  pub matches : String → String → Option Bool
  pub compiles : String → Bool
  pub exec : String → String → ℕ → Option RegExpMatch
  pub normalize_money : String → Option String
  pub normalize_month_day : String → Option String

pub record FetchedPage : Type 0 where
  pub page_path : String
  pub html : String
  pub text : String
  pub ok : Bool
  pub final_url : Url

pub record ContentCheckInput : Type 0 where
  pub origin_url : String
  pub facts : List GroundTruthFact
  pub superseded : List GroundTruthFact
  pub patterns : List FactPattern
  pub max_pages : Option ℕ
  pub as_of : String

abbrev pub content_max_pages : ℕ
content_max_pages = 10

-- `input.maxPages ?? CONTENT_MAX_PAGES`
abbrev pub page_limit : Option ℕ → ℕ
page_limit none = content_max_pages
page_limit (some n) = n

-- `for (const p of pages) …`, with the keys seen so far.
abbrev pub has_seen : List ℕ → List (List ℕ) → Bool
has_seen key seen = any (same_text key) seen

abbrev pub dedupe : List (List ℕ) → List FetchedPage → List FetchedPage
dedupe seen [] = []
dedupe seen (p ∷ ps) =
    let key = canonical_page_key p.final_url in
    if has_seen key seen then dedupe seen ps else p ∷ dedupe (key ∷ seen) ps

module _ (web : Web) (tools : TextTools) (fuel : ℕ) where
  abbrev pub page_at : String → Option String → Option Url → Run FetchedPage
  page_at html error none = threw
  page_at html error (some u) = done (record {
    page_path = u.pathname;
    html = html;
    text = tools.html_to_text html;
    ok = not (is_some error);
    final_url = u;
  })

  abbrev pub page_of : PageFetch → Run FetchedPage
  page_of page_threw = threw
  page_of (page_fetched html final_url error) = page_at html error (web.parse_url final_url)

  -- `sitemapFound`, and the discovered URLs.
  abbrev pub discover : FetchedPage → PageFetch → Run (Bool × List String)
  discover target page_threw = threw
  discover target (page_fetched html final_url error) =
      if not (is_some error) && tools.has_loc html
      then done (true, parse_sitemap_urls web tools.loc_matches html target.final_url)
      else done (false, extract_internal_links web tools.href_matches target.html target.final_url)

  abbrev pub claims_found : Option (List RawClaim) → FetchedPage → Run PageContent
  claims_found none p = endless
  claims_found (some claims) p =
      done (record { page_path = p.page_path; text = p.text; claims = claims })

  abbrev pub content_of : List GroundTruthFact → List FactPattern → FetchedPage → Run PageContent
  content_of facts patterns p =
      claims_found
        (extract_claims_from_text tools.compiles tools.exec tools.normalize_money
          tools.normalize_month_day fuel p.text p.page_path facts patterns)
        p

  -- The score, and what a scan without a readable page reports.
  abbrev pub final_score : ℕ → ContentScore → ContentScore
  final_score scanned s =
      if scanned == 0 then record { score = 0; grade = grade_f; status = fail } else s

  unfoldable pub content_result :
      ContentCheckInput → ℕ → Bool → List String → List PageContent → ContentResult
  content_result input planned sitemap_found discovered contents =
      let classified =
        classify_pages tools.matches contents input.facts input.superseded input.patterns
          input.as_of in
      let s = final_score (length contents) (score_content input.facts classified.0) in
      record {
        scope = record {
          pages_scanned = length contents;
          pages_planned = min (page_limit input.max_pages) (1 + planned);
          sitemap_found = sitemap_found;
          truncated = ltb (page_limit input.max_pages - 1) (length discovered);
        };
        facts = classified.1;
        findings = classified.0;
        score = s.score;
        grade = s.grade;
        status = s.status;
      }

  -- The pages that are scanned, after the target and the sitemap.
  unfoldable pub scanned_pages : FetchedPage → List FetchedPage → List FetchedPage
  scanned_pages target rest = filter (λ p. p.ok) (dedupe [] (target ∷ rest))

  -- The end of a run, once the contents of the scanned pages are there.
  abbrev pub report :
      ContentCheckInput → List String → Bool × List String → List PageContent → Run ContentResult
  report input planned found contents =
      done (content_result input (length planned) found.0 found.1 contents)

  abbrev pub scan_pages :
      ContentCheckInput
      → FetchedPage
      → List String
      → Bool × List String
      → List FetchedPage
      → Run ContentResult
  scan_pages input target planned found rest =
      each (content_of input.facts input.patterns) (scanned_pages target rest) >>= λ contents.
      report input planned found contents

  abbrev pub crawl :
      (String → PageFetch)
      → ContentCheckInput
      → FetchedPage
      → Bool × List String
      → Run ContentResult
  crawl fetch_page input target found =
      let planned = take (page_limit input.max_pages - 1) found.1 in
      each (λ url. page_of (fetch_page url)) planned >>= λ rest.
      scan_pages input target planned found rest

  abbrev pub visit : (String → PageFetch) → ContentCheckInput → FetchedPage → Run ContentResult
  visit fetch_page input target =
      discover target (fetch_page (target.final_url.origin <> "/sitemap.xml")) >>= λ found.
      crawl fetch_page input target found

  -- The run over what `fetchPageText` makes of a URL.
  abbrev pub run_with : (String → PageFetch) → ContentCheckInput → Run ContentResult
  run_with fetch_page input =
      page_of (fetch_page input.origin_url) >>= λ target. visit fetch_page input target

  unfoldable pub run_content_check : ContentCheckInput → Run ContentResult
  run_content_check input = run_with (λ url. fetch_page_text web url) input
