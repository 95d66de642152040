-- ===== src/Snapshot/Returns.antt =====
-- A scan of src/snapshot.ts ends in a snapshot, whatever the network does.
use agent_commerce_lab.Prelude.{
  ℕ, zero, suc, ◌+◌, ◌≡◌, refl, Bool, true, false, not, ◌||◌, Option, none, some, String, List, [],
  ◌∷◌, ◌++◌, Bool-cases, inl, inr, or_else, is_some,
}
use agent_commerce_lab.Prelude.Text.{str_eq, truthy}
use agent_commerce_lab.Web.{
  Web, Url, Response, FetchOutcome, answered, fetch_threw, is_redirect, check_host,
}
use agent_commerce_lab.ContentCheck.Types.{ContentResult}
use agent_commerce_lab.ContentCheck.Run.{Run, done, threw, endless}
use agent_commerce_lab.History.Types.{SecuritySnapshot}
use agent_commerce_lab.Snapshot.Chain.{
  ChainResult, ChainFetch, chain_fetched, chain_threw, chain_failed, chain_redirect, chain_answer,
  chain_round, chain_loop, fetch_with_chain, max_hops,
}
use agent_commerce_lab.Snapshot.Assemble.{GroundTruthDb, ScanWorld, SnapshotOptions}
use text.Mathlib.Text.{starts_with}
use agent_commerce_lab.Snapshot.Scan.{
  base_snapshot, on_content, scan_content, add_content, scan_host, scan_response, scan_chain,
  scan_target, run_security_snapshot,
}

-- Whether a URL parses.
abbrev pub parses : Web → String → Bool
parses web url = is_some (web.parse_url url)

-- A chain that is fetched ends at a URL that parses, if it has one.
abbrev lands : Web → ChainFetch → Bool
lands web chain_threw = false
lands web (chain_fetched r) = elim r.final_url [ none ↦ true | some url ↦ parses web url ]

-- A snapshot, or, where a content scan was asked for, an extraction that is out of rounds.
abbrev pub ends_well {ℓ} : {A : Type ℓ} → Bool → Run A → Bool
ends_well content (done s) = true
ends_well content threw = false
ends_well content endless = content

module _ (web : Web)
    (serialized : (location base : String) (u : Url)
      → web.resolve_url location base ≡ some u
      → parses web u.href ≡ true) where
  chain_redirect-lands :
      (next : String → ChainFetch) (chain : List String) (current : String) (res : Response)
      (o : Option String)
      → ((url : String) → parses web url ≡ true → lands web (next url) ≡ true)
      → parses web current ≡ true
      → lands web (chain_redirect web next chain current res o) ≡ true
  chain_redirect-lands next chain current res none h here = here
  chain_redirect-lands next chain current res (some location) h here =
      elim (Bool-cases (truthy (some location))) [
        | inr blank ↦ rw blank here
        | inl given ↦ rw given (by_url (web.resolve_url location current) refl)
      ]
    where
      by_url :
          (o : Option Url)
          → web.resolve_url location current ≡ o
          → lands web (elim o [ none ↦ chain_failed chain web.url_error | some u ↦ next u.href ])
            ≡ true
      by_url none e = refl
      by_url (some u) e = h u.href (serialized location current u e)

  chain_answer-lands :
      (next : String → ChainFetch) (chain : List String) (current : String) (f : FetchOutcome)
      → ((url : String) → parses web url ≡ true → lands web (next url) ≡ true)
      → parses web current ≡ true
      → lands web (chain_answer web next chain current f) ≡ true
  chain_answer-lands next chain current (fetch_threw e) h here = refl
  chain_answer-lands next chain current (answered res) h here =
      elim (Bool-cases (is_redirect res.status)) [
        | inl moved ↦
            rw moved (chain_redirect-lands next chain current res (res.header "location") h here)
        | inr arrived ↦ rw arrived here
      ]

  chain_round-lands :
      (next : String → ChainFetch) (hop : ℕ) (chain : List String) (current : String)
      (o : Option Url)
      → web.parse_url current ≡ o
      → ((url : String) → parses web url ≡ true → lands web (next url) ≡ true)
      → parses web current ≡ true
      → lands web (chain_round web next hop chain current o) ≡ true
  chain_round-lands next hop chain current none e h here =
      let impossible : false ≡ true = rw e at here in cc
  chain_round-lands next hop chain current (some u) e h here =
      elim (Bool-cases (check_host web u.hostname).blocked) [
        | inl blocked ↦ rw blocked refl
        | inr passed ↦
            rw passed (chain_answer-lands next chain current (web.fetch hop current) h here)
      ]

  chain_loop-lands :
      (n hop : ℕ) (chain : List String) (current : String)
      → parses web current ≡ true
      → lands web (chain_loop web n hop chain current) ≡ true
  chain_loop-lands zero hop chain current here = here
  chain_loop-lands (suc n) hop chain current here =
      chain_round-lands (λ url. chain_loop web n (hop + 1) (chain ++ current ∷ []) url) hop
        (chain ++ current ∷ []) current (web.parse_url current) refl
        (λ url there. chain_loop-lands n (hop + 1) (chain ++ current ∷ []) url there) here

  fetch_with_chain-lands :
      (url : String) → parses web url ≡ true → lands web (fetch_with_chain web url) ≡ true
  unfolding fetch_with_chain
  fetch_with_chain-lands url h = chain_loop-lands (max_hops + 1) 0 [] url h

module _ (w : ScanWorld) (opts : SnapshotOptions) where
  on_content-ends :
      (res : Response) (used_https : Bool) (hostname : String) (s : SecuritySnapshot)
      (r : Run ContentResult)
      → ends_well true (on_content w res used_https hostname s r) ≡ true
  on_content-ends res used_https hostname s (done c) = refl
  on_content-ends res used_https hostname s threw = refl
  on_content-ends res used_https hostname s endless = refl

  add_content-ends :
      (db : Option GroundTruthDb) (res : Response) (used_https : Bool)
      (hostname origin_url : String) (s : SecuritySnapshot)
      → ends_well opts.content (add_content w opts db res used_https hostname origin_url s) ≡ true
  add_content-ends none res used_https hostname origin_url s = refl
  add_content-ends (some db) res used_https hostname origin_url s = elim (Bool-cases opts.content) [
    | inl asked ↦
        rw asked
          (on_content-ends res used_https hostname s (scan_content w db db.fact_table origin_url))
    | inr not_asked ↦ rw not_asked refl
  ]

  scan_host-ends :
      (target : String) (chain : List String) (final_url : Option String) (res : Response)
      (final : String) (o : Option Url)
      → is_some o ≡ true
      → ends_well opts.content (scan_host w opts target chain final_url res final o) ≡ true
  scan_host-ends target chain final_url res final none h = cc
  scan_host-ends target chain final_url res final (some u) h =
      add_content-ends opts.ground_truth_db res (starts_with final "https:") u.hostname final
        (base_snapshot w target chain final_url res (starts_with final "https:") u.hostname)

  final_parses :
      (r : ChainResult) (target : String) (o : Option String)
      → r.final_url ≡ o
      → lands w.web (chain_fetched r) ≡ true
      → parses w.web target ≡ true
      → parses w.web (or_else o target) ≡ true
  final_parses r target none e h there = there
  final_parses r target (some url) e h there = rw e at h

  scan_response-ends :
      (target : String) (r : ChainResult) (o : Option Response)
      → lands w.web (chain_fetched r) ≡ true
      → parses w.web target ≡ true
      → ends_well opts.content (scan_response w opts target r o) ≡ true
  scan_response-ends target r none h there = refl
  scan_response-ends target r (some res) h there = elim (Bool-cases (truthy r.error)) [
    | inl failing ↦ rw failing refl
    | inr fetched ↦ rw fetched (
        scan_host-ends target r.chain r.final_url res (or_else r.final_url target)
          (w.web.parse_url (or_else r.final_url target))
          (final_parses r target r.final_url refl h there))
  ]

  scan_chain-ends :
      (target : String) (c : ChainFetch)
      → lands w.web c ≡ true
      → parses w.web target ≡ true
      → ends_well opts.content (scan_chain w opts target c) ≡ true
  scan_chain-ends target chain_threw h there = cc
  scan_chain-ends target (chain_fetched r) h there = scan_response-ends target r r.response h there

  scan_target-ends :
      (fetch_chain : String → ChainFetch) (raw_url : String) (o : Option Url)
      → ((url : String) → parses w.web url ≡ true → lands w.web (fetch_chain url) ≡ true)
      → ((u : Url) → o ≡ some u → parses w.web u.href ≡ true)
      → ends_well opts.content (scan_target w fetch_chain opts raw_url o) ≡ true
  scan_target-ends fetch_chain raw_url none h there = refl
  scan_target-ends fetch_chain raw_url (some u) h there =
      elim (Bool-cases (not (str_eq u.protocol "http:" || str_eq u.protocol "https:"))) [
        | inl other ↦ rw other refl
        | inr http ↦
            rw http
              (scan_chain-ends u.href (fetch_chain u.href) (h u.href (there u refl)) (there u refl))
      ]

  -- A scan never throws, whatever the network answers: it ends in a snapshot, or, with a content scan, is
  -- still in the extraction of the claims. The text of a URL that was parsed or resolved parses again.
  pub run_security_snapshot_returns :
      (raw_url : String)
      → ((url : String) (u : Url) → w.web.parse_url url ≡ some u → parses w.web u.href ≡ true)
      → ((location base : String) (u : Url)
          → w.web.resolve_url location base ≡ some u
          → parses w.web u.href ≡ true)
      → ends_well opts.content (run_security_snapshot w opts raw_url) ≡ true
  unfolding run_security_snapshot
  run_security_snapshot_returns raw_url parsed resolved =
      scan_target-ends (λ url. fetch_with_chain w.web url) raw_url (w.web.parse_url raw_url)
        (λ url there. fetch_with_chain-lands w.web resolved url there) (λ u e. parsed raw_url u e)
