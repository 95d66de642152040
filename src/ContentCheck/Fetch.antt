-- ===== src/ContentCheck/Fetch.antt =====
-- `fetchPageText`, `canonicalPageKey` and the same-origin filters of src/content-check.ts. The rounds of
-- the redirect loop are counted down; the matches of the two link expressions are parameters.
use agent_commerce_lab.Prelude.{
  ℕ, zero, suc, ◌+◌, Bool, ◌&&◌, ◌||◌, not, Option, none, some, String, List, [], ◌∷◌, ◌++◌, ◌==◌,
  filter, map, if◌then◌else◌,
}
use agent_commerce_lab.Prelude.Text.{str_eq, truthy}
use agent_commerce_lab.Prelude.Match.{codes, fold_lower, same_text}
use agent_commerce_lab.Web.{
  Web, Url, Body, body_text, body_unreadable, FetchOutcome, answered, fetch_threw, is_redirect,
  check_host, blocked_text,
}

abbrev pub content_max_redirects : ℕ
content_max_redirects = 3

-- What `fetchPageText` returns, or the exception of a URL that does not parse.
pub data PageFetch : Type 0 where
  page_fetched : String → String → Option String → PageFetch
  page_threw : PageFetch

module _ (web : Web) where
  abbrev pub redirected : (String → PageFetch) → String → Option String → PageFetch
  redirected next current none = page_fetched "" current (some "redirect without location")
  redirected next current (some location) =
      if not (truthy (some location))
      then page_fetched "" current (some "redirect without location")
      else elim (web.resolve_url location current) [
        | none ↦ page_fetched "" current (some web.url_error)
        | some u ↦ next u.href
      ]

  abbrev pub read_body : String → Body → PageFetch
  read_body current (body_text html) = page_fetched html current none
  read_body current (body_unreadable e) = page_fetched "" current (some e)

  -- The `try` block of one round; `next` is the rest of the loop.
  abbrev pub page_answer : (String → PageFetch) → String → FetchOutcome → PageFetch
  page_answer next current (fetch_threw e) = page_fetched "" current (some e)
  page_answer next current (answered res) =
      if is_redirect res.status
      then redirected next current (res.header "location")
      else read_body current res.body

  abbrev pub page_round : (String → PageFetch) → ℕ → String → Option Url → PageFetch
  page_round next hop current none = page_threw
  page_round next hop current (some u) =
      let check = check_host web u.hostname in
      if check.blocked
      then page_fetched "" current (some (blocked_text web check))
      else page_answer next current (web.fetch hop current)

  abbrev pub page_loop : ℕ → ℕ → String → PageFetch
  page_loop zero hop current = page_fetched "" current (some "too many redirects")
  page_loop (suc n) hop current =
      page_round (λ url. page_loop n (hop + 1) url) hop current (web.parse_url current)

  unfoldable pub fetch_page_text : String → PageFetch
  fetch_page_text url = page_loop (content_max_redirects + 1) 0 url

-- `path.replace(/\/+$/, "")`
abbrev pub drop_slashes : List ℕ → List ℕ
drop_slashes [] = []
drop_slashes (c ∷ s) = end_slash c (drop_slashes s)
  where
    end_slash : ℕ → List ℕ → List ℕ
    end_slash c [] = if c == 47 then [] else c ∷ []
    end_slash c (d ∷ s) = c ∷ d ∷ s

-- The key as code points.
unfoldable pub canonical_page_key : Url → List ℕ
canonical_page_key u =
    codes u.protocol
    ++ (codes "//"
        ++ (map fold_lower (codes u.hostname)
            ++ (if str_eq u.pathname "/" then codes "/" else drop_slashes (codes u.pathname))))

abbrev pub same_host : Url → Url → Bool
same_host u origin =
    same_text (map fold_lower (codes u.hostname)) (map fold_lower (codes origin.hostname))

-- `new Set(out)` as an array: the first of equal texts stays.
abbrev pub distinct : List String → List String
distinct [] = []
distinct (x ∷ xs) = x ∷ filter (λ y. not (str_eq y x)) (distinct xs)

abbrev pub is_http : Url → Bool
is_http u = str_eq u.protocol "https:" || str_eq u.protocol "http:"

-- One link: kept if it parses, is of a web protocol and of the host of the origin.
abbrev pub keep_link : Url → Option Url → List String → List String
keep_link origin none rest = rest
keep_link origin (some u) rest = if is_http u && same_host u origin then u.href ∷ rest else rest

module _ (web : Web) where
  -- `m[1].trim()` of each match is the list that is given.
  abbrev pub sitemap_links : Url → List String → List String
  sitemap_links origin [] = []
  sitemap_links origin (l ∷ ls) = keep_link origin (web.parse_url l) (sitemap_links origin ls)

  abbrev pub internal_links : Url → List String → List String
  internal_links origin [] = []
  internal_links origin (l ∷ ls) =
      keep_link origin (web.resolve_url l origin.href) (internal_links origin ls)

  unfoldable pub parse_sitemap_urls : (String → List String) → String → Url → List String
  parse_sitemap_urls loc_matches xml origin = distinct (sitemap_links origin (loc_matches xml))

  unfoldable pub extract_internal_links : (String → List String) → String → Url → List String
  extract_internal_links href_matches html origin =
      distinct (internal_links origin (href_matches html))
