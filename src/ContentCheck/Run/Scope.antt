-- ===== src/ContentCheck/Run/Scope.antt =====
-- The scope that `runContentCheck` of src/content-check.ts reports, and its failing results.
use agent_commerce_lab.Prelude.{
  ℕ, zero, suc, ◌+◌, ◌-◌, ◌≤◌, ◌≡◌, ◌≢◌, ◌⊎◌, refl, sym, Bool, ◌&&◌, not, is_some, Option, none,
  some, max, List, [], ◌∷◌, filter, length, take, Bool-cases, inl, inr, arith, String,
}
use agent_commerce_lab.Prelude.Text.{◌<>◌}
use agent_commerce_lab.ContentCheck.Types.{RawClaim, PageContent, ContentResult}
use agent_commerce_lab.ContentCheck.Fetch.{
  PageFetch, page_fetched, page_threw, fetch_page_text, canonical_page_key,
}
use agent_commerce_lab.Web.{Web, Url}
use agent_commerce_lab.ContentCheck.Extract.{extract_claims_from_text}
use agent_commerce_lab.ContentCheck.Run.{
  page_limit, Run, done, threw, endless, ◌>>=◌, each, has_seen, dedupe, FetchedPage, TextTools,
  ContentCheckInput, scanned_pages, content_result, page_at, page_of, claims_found, discover,
  content_of, report, scan_pages, crawl, visit, run_with, run_content_check,
}

length-filter : {A : Type 0} (p : A → Bool) (xs : List A) → length (filter p xs) ≤ length xs
length-filter p [] = omega arith
length-filter p (x ∷ xs) = ground (arith, length-filter p xs)

length-take : {A : Type 0} (n : ℕ) (xs : List A) → length (take n xs) ≤ n
length-take zero xs = omega arith
length-take (suc n) [] = omega arith
length-take (suc n) (x ∷ xs) = omega (arith, length-take n xs)

length-dedupe : (seen : List (List ℕ)) (ps : List FetchedPage) → length (dedupe seen ps) ≤ length ps
length-dedupe seen [] = omega arith
length-dedupe seen (p ∷ ps) =
    let key = canonical_page_key p.final_url in
    elim (Bool-cases (has_seen key seen)) [
      | inl old ↦ rw old (omega (arith, length-dedupe seen ps))
      | inr new ↦ rw new (omega (arith, length-dedupe (key ∷ seen) ps))
    ]

bind-done :
    {A B : Type 0} (m : Run A) (f : A → Run B) {b : B}
    → (m >>= f) ≡ done b
    → (a : A) × (m ≡ done a) × (f a ≡ done b)
bind-done (done a) f h = (a, refl, h)
bind-done threw f h = cc
bind-done endless f h = cc

bind-endless :
    {A B : Type 0} (m : Run A) (f : A → Run B)
    → (m >>= f) ≡ endless
    → (m ≡ endless) ⊎ ((a : A) × (m ≡ done a) × (f a ≡ endless))
bind-endless (done a) f h = inr (a, refl, h)
bind-endless threw f h = cc
bind-endless endless f h = inl refl

-- A step that does not run out of fuel leaves that to the rest.
bind_rest :
    {A B : Type 0} (m : Run A) (f : A → Run B)
    → m ≢ endless
    → (m >>= f) ≡ endless
    → (a : A) × (m ≡ done a) × (f a ≡ endless)
bind_rest m f ends h = elim (bind-endless m f h) [ inl out ↦ absurd (ends out) | inr rest ↦ rest ]

each-endless :
    {A B : Type 0} (f : A → Run B) (xs : List A) → each f xs ≡ endless → (x : A) × (f x ≡ endless)
each-endless f [] h = cc
each-endless f (x ∷ xs) h = elim (bind-endless (f x) (λ y. each f xs >>= λ ys. done (y ∷ ys)) h) [
  | inl out ↦ (x, out)
  | inr more ↦ elim (bind-endless (each f xs) (λ ys. done (more.0 ∷ ys)) more.2) [
    | inl out ↦ each-endless f xs out
    | inr last ↦ let impossible : done (more.0 ∷ last.0) ≡ endless = last.2 in cc
  ]
]

length-each :
    {A B : Type 0} (f : A → Run B) (xs : List A) {ys : List B}
    → each f xs ≡ done ys
    → length ys ≡ length xs
length-each f [] h = cc
length-each f (x ∷ xs) h =
    let first = bind-done (f x) (λ y. each f xs >>= λ ys. done (y ∷ ys)) h in
    let others = bind-done (each f xs) (λ ys. done (first.0 ∷ ys)) first.2 in
    ground (arith, length-each f xs others.1, others.2)

length-scanned_pages :
    (web : Web) (tools : TextTools) (fuel : ℕ) (target : FetchedPage) (rest : List FetchedPage)
    → length (scanned_pages web tools fuel target rest) ≤ 1 + length rest
unfolding scanned_pages
length-scanned_pages web tools fuel target rest = omega (
  arith,
  length-filter (λ (p : FetchedPage). p.ok) (dedupe [] (target ∷ rest)),
  length-dedupe [] (target ∷ rest),
)

-- What a run that is done has read: no more pages than it planned.
record Reads (web : Web) (tools : TextTools) (fuel : ℕ) (input : ContentCheckInput)
    (r : ContentResult) : Type 0 where
  planned : ℕ
  sitemap_found : Bool
  discovered : List String
  contents : List PageContent
  result : r ≡ content_result web tools fuel input planned sitemap_found discovered contents
  within : planned ≤ page_limit input.max_pages - 1
  read : length contents ≤ 1 + planned

module _ (web : Web) (tools : TextTools) (fuel : ℕ) where
  run_with-Reads :
      (fetch_page : String → PageFetch) (input : ContentCheckInput) (r : ContentResult)
      → run_with web tools fuel fetch_page input ≡ done r
      → Reads web tools fuel input r
  run_with-Reads fetch_page input r h =
      let target =
        bind-done (page_of web tools fuel (fetch_page input.origin_url))
          (λ t. visit web tools fuel fetch_page input t) h in
      let found =
        bind-done
          (discover web tools fuel target.0
            (fetch_page (target.0.final_url.origin <> "/sitemap.xml")))
          (λ x. crawl web tools fuel fetch_page input target.0 x) target.2 in
      let planned = take (page_limit input.max_pages - 1) found.0.1 in
      let rest =
        bind-done (each (λ url. page_of web tools fuel (fetch_page url)) planned)
          (λ x. scan_pages web tools fuel input target.0 planned found.0 x) found.2 in
      let contents =
        bind-done
          (each (content_of web tools fuel input.facts input.patterns)
            (scanned_pages web tools fuel target.0 rest.0))
          (λ x. report web tools fuel input planned found.0 x) rest.2 in
      let result : content_result web tools fuel input (length planned) found.0.0 found.0.1
            contents.0
          ≡ r =
        cc in
      record {
        planned = length planned;
        sitemap_found = found.0.0;
        discovered = found.0.1;
        contents = contents.0;
        result = sym result;
        within = length-take (page_limit input.max_pages - 1) found.0.1;
        read = omega (
          arith,
          length-each (content_of web tools fuel input.facts input.patterns)
              (scanned_pages web tools fuel target.0 rest.0) contents.1,
          length-scanned_pages web tools fuel target.0 rest.0,
          length-each (λ url. page_of web tools fuel (fetch_page url)) planned rest.1,
        );
      }

  page_at-ends :
      (html : String) (error : Option String) (o : Option Url)
      → page_at web tools fuel html error o ≢ endless
  page_at-ends html error none h = cc
  page_at-ends html error (some u) h = cc

  page_of-ends : (f : PageFetch) → page_of web tools fuel f ≢ endless
  page_of-ends page_threw h = cc
  page_of-ends (page_fetched html final_url error) h =
      page_at-ends html error (web.parse_url final_url) h

  discover-ends :
      (target : FetchedPage) (f : PageFetch) → discover web tools fuel target f ≢ endless
  discover-ends target page_threw h = cc
  discover-ends target (page_fetched html final_url error) h =
      elim (Bool-cases (not (is_some error) && tools.has_loc html)) [
        | inl sitemap ↦ not_endless (rw sitemap at h)
        | inr links ↦ not_endless (rw links at h)
      ]
    where
      not_endless : {x : Bool × List String} → done x ≢ endless
      not_endless e = cc

  -- The extraction of the claims of a text is out of fuel.
  pub IsOutOfFuel : ContentCheckInput → Type 0
  IsOutOfFuel input =
      (p : FetchedPage) × (extract_claims_from_text tools.compiles tools.exec tools.normalize_money
          tools.normalize_month_day fuel p.text p.page_path input.facts input.patterns
        ≡ none)

  content_of-endless :
      (input : ContentCheckInput) (p : FetchedPage)
      → content_of web tools fuel input.facts input.patterns p ≡ endless
      → IsOutOfFuel input
  unfolding IsOutOfFuel
  content_of-endless input p h = (p, no_claims _ h)
    where
      no_claims :
          (o : Option (List RawClaim)) → claims_found web tools fuel o p ≡ endless → o ≡ none
      no_claims none h = refl
      no_claims (some claims) h = cc

  run_with-endless :
      (fetch_page : String → PageFetch) (input : ContentCheckInput)
      → run_with web tools fuel fetch_page input ≡ endless
      → IsOutOfFuel input
  run_with-endless fetch_page input h =
      let target =
        bind_rest (page_of web tools fuel (fetch_page input.origin_url))
          (λ t. visit web tools fuel fetch_page input t)
          (page_of-ends (fetch_page input.origin_url)) h in
      let sitemap = fetch_page (target.0.final_url.origin <> "/sitemap.xml") in
      let found =
        bind_rest (discover web tools fuel target.0 sitemap)
          (λ x. crawl web tools fuel fetch_page input target.0 x) (discover-ends target.0 sitemap)
          target.2 in
      let planned = take (page_limit input.max_pages - 1) found.0.1 in
      let rest =
        bind_rest (each (λ url. page_of web tools fuel (fetch_page url)) planned)
          (λ x. scan_pages web tools fuel input target.0 planned found.0 x)
          (λ out.
            let url = each-endless (λ u. page_of web tools fuel (fetch_page u)) planned out in
            page_of-ends (fetch_page url.0) url.1)
          found.2 in
      let scanned = scanned_pages web tools fuel target.0 rest.0 in
      elim (bind-endless (each (content_of web tools fuel input.facts input.patterns) scanned)
        (λ x. report web tools fuel input planned found.0 x) rest.2) [
          | inl out ↦
              let page =
                each-endless (content_of web tools fuel input.facts input.patterns) scanned out in
              content_of-endless input page.0 page.1
          | inr contents ↦
              let impossible : done (
                    content_result web tools fuel input (length planned) found.0.0 found.0.1
                      contents.0)
                  ≡ endless =
                contents.2 in
              cc
        ]

  -- What a run may come to.
  unfoldable pub IsBounded : ContentCheckInput → Run ContentResult → Type 0
  IsBounded input (done r) =
      (r.scope.pages_scanned ≤ max 1 r.scope.pages_planned)
      × (r.scope.pages_planned ≤ page_limit input.max_pages)
  IsBounded input threw = Unit
  IsBounded input endless = IsOutOfFuel input

  -- A run throws, or is out of fuel because the extraction of the claims of a page is, or it is done. Then
  -- it has scanned no more pages than it planned, except for the target where it planned none, and planned
  -- no more than the limit.
  pub run_content_check-IsBounded :
      (input : ContentCheckInput) → IsBounded input (run_content_check web tools fuel input)
  unfolding run_content_check content_result IsBounded
  run_content_check-IsBounded input =
      bounded (run_with web tools fuel (λ url. fetch_page_text web url) input) refl
    where
      bounded :
          (run : Run ContentResult)
          → run_with web tools fuel (λ url. fetch_page_text web url) input ≡ run
          → IsBounded input run
      bounded (done r) h =
          let reads = run_with-Reads (λ url. fetch_page_text web url) input r h in
          rw reads.result (ground (arith, reads.within, reads.read), omega arith)
      bounded threw h = tt
      bounded endless h = run_with-endless (λ url. fetch_page_text web url) input h
