-- ===== src/ContentCheck/Run/Guarded.antt =====
-- The crawl of src/content-check.ts reads no host that the guard blocks.
use agent_commerce_lab.Prelude.{
  ℕ, zero, suc, ◌+◌, ◌≡◌, refl, ap, fun_ext, Option, none, some, String, map, Bool-cases, inl, inr,
}
use agent_commerce_lab.Prelude.Match.{codes, fold_lower}
use agent_commerce_lab.SsrfGuard.Safety.{IsPublic, unblocked-IsPublic}
use agent_commerce_lab.Web.{Web, Url, FetchOutcome, check_host}
use agent_commerce_lab.ContentCheck.Fetch.{
  PageFetch, page_answer, page_round, page_loop, fetch_page_text, content_max_redirects,
  parse_sitemap_urls, extract_internal_links,
}
use agent_commerce_lab.ContentCheck.Run.{
  TextTools, ContentCheckInput, run_with, run_content_check, scanned_pages, content_result,
}

-- The same platform with other answers to requests.
abbrev pub with_fetch : Web → (ℕ → String → FetchOutcome) → Web
with_fetch web g = record web { fetch = g }

-- The host of a URL is public: no localhost name, no private literal, and no private address where it
-- resolves.
abbrev pub IsPublicUrl : Web → Url → Type 0
IsPublicUrl web u = IsPublic web.number web.doh (map fold_lower (codes u.hostname))

module _ (web : Web) (g : ℕ → String → FetchOutcome)
    (same_public : (hop : ℕ) (url : String) (u : Url)
      → web.parse_url url ≡ some u
      → IsPublicUrl web u
      → web.fetch hop url ≡ g hop url) where
  page_round-guarded :
      (next next' : String → PageFetch) (hop : ℕ) (current : String) (o : Option Url)
      → web.parse_url current ≡ o
      → next ≡ next'
      → page_round web next hop current o ≡ page_round (with_fetch web g) next' hop current o
  page_round-guarded next next' hop current none e h = refl
  page_round-guarded next next' hop current (some u) e h =
      elim (Bool-cases (check_host web u.hostname).blocked) [
        | inl blocked ↦ rw blocked refl
        | inr passed ↦ rw passed (
            rw
              (same_public hop current u e
                (unblocked-IsPublic web.number web.doh (codes u.hostname) passed))
              (ap (λ (n : String → PageFetch). page_answer web n current (g hop current)) h))
      ]

  page_loop-guarded :
      (n hop : ℕ) (current : String)
      → page_loop web n hop current ≡ page_loop (with_fetch web g) n hop current
  page_loop-guarded zero hop current = refl
  page_loop-guarded (suc n) hop current =
      page_round-guarded (λ url. page_loop web n (hop + 1) url)
        (λ url. page_loop (with_fetch web g) n (hop + 1) url) hop current (web.parse_url current)
        refl (fun_ext λ url. page_loop-guarded n (hop + 1) url)

  pub fetch_page_text-guarded :
      (url : String) → fetch_page_text web url ≡ fetch_page_text (with_fetch web g) url
  unfolding fetch_page_text
  fetch_page_text-guarded url = page_loop-guarded (content_max_redirects + 1) 0 url

  -- Two platforms that give the same answers for public hosts, and differ in no more than their answers,
  -- lead to the same result of the content check.
  pub run_content_check-guarded :
      (tools : TextTools) (fuel : ℕ) (input : ContentCheckInput)
      → run_content_check web tools fuel input
        ≡ run_content_check (with_fetch web g) tools fuel input
  unfolding run_content_check parse_sitemap_urls extract_internal_links scanned_pages content_result
  run_content_check-guarded tools fuel input =
      ap (λ (f : String → PageFetch). run_with web tools fuel f input)
        (fun_ext λ url. fetch_page_text-guarded url)
