-- ===== src/Snapshot/Guarded.antt =====
-- A scan of src/snapshot.ts reads no host that the guard blocks.
use agent_commerce_lab.Prelude.{
  ℕ, zero, suc, ◌+◌, ◌≡◌, refl, ap, fun_ext, ◌∙◌, Bool, not, ◌||◌, Option, none, some, String, List,
  [], ◌∷◌, ◌++◌, map, Bool-cases, inl, inr, if◌then◌else◌, or_else,
}
use agent_commerce_lab.Prelude.Text.{str_eq, truthy}
use agent_commerce_lab.Prelude.Match.{codes}
use agent_commerce_lab.SsrfGuard.Safety.{unblocked-IsPublic}
use agent_commerce_lab.GroundTruth.{
  GroundTruthFact, FactPattern, load_active_facts, load_superseded_facts,
}
use agent_commerce_lab.Web.{Url, Response, FetchOutcome, check_host}
use agent_commerce_lab.ContentCheck.Types.{ContentResult}
use agent_commerce_lab.ContentCheck.Run.{Run, done, threw, endless}
use agent_commerce_lab.ContentCheck.Run.Guarded.{with_fetch, IsPublicUrl, run_content_check-guarded}
use agent_commerce_lab.History.Types.{SecuritySnapshot}
use agent_commerce_lab.Snapshot.Chain.{
  ChainFetch, chain_fetched, chain_threw, chain_answer, chain_round, chain_loop, fetch_with_chain,
  max_hops,
}
use agent_commerce_lab.Snapshot.Assemble.{GroundTruthDb, ScanWorld, SnapshotOptions, empty_snapshot}
use agent_commerce_lab.Snapshot.Scan.{
  base_snapshot, with_content, on_content, load_patterns, check_content, scan_content, add_content,
  scan_host, scan_failed, scan_response, scan_chain, scan_target, run_security_snapshot,
}

-- The same world with other answers to requests.
abbrev pub with_answers : ScanWorld → (ℕ → String → FetchOutcome) → ScanWorld
with_answers w g = record w { web = with_fetch w.web g }

module _ (w : ScanWorld) (g : ℕ → String → FetchOutcome)
    (same_public : (hop : ℕ) (url : String) (u : Url)
      → w.web.parse_url url ≡ some u
      → IsPublicUrl w.web u
      → w.web.fetch hop url ≡ g hop url) where
  chain_round-guarded :
      (next next' : String → ChainFetch) (hop : ℕ) (chain : List String) (current : String)
      (o : Option Url)
      → w.web.parse_url current ≡ o
      → next ≡ next'
      → chain_round w.web next hop chain current o
        ≡ chain_round (with_fetch w.web g) next' hop chain current o
  chain_round-guarded next next' hop chain current none e h = refl
  chain_round-guarded next next' hop chain current (some u) e h =
      elim (Bool-cases (check_host w.web u.hostname).blocked) [
        | inl blocked ↦ rw blocked refl
        | inr passed ↦ rw passed (
            rw
              (same_public hop current u e
                (unblocked-IsPublic w.web.number w.web.doh (codes u.hostname) passed))
              (ap (λ (n : String → ChainFetch). chain_answer w.web n chain current (g hop current))
                h))
      ]

  chain_loop-guarded :
      (n hop : ℕ) (chain : List String) (current : String)
      → chain_loop w.web n hop chain current ≡ chain_loop (with_fetch w.web g) n hop chain current
  chain_loop-guarded zero hop chain current = refl
  chain_loop-guarded (suc n) hop chain current =
      chain_round-guarded (λ url. chain_loop w.web n (hop + 1) (chain ++ current ∷ []) url)
        (λ url. chain_loop (with_fetch w.web g) n (hop + 1) (chain ++ current ∷ []) url) hop
        (chain ++ current ∷ []) current (w.web.parse_url current) refl
        (fun_ext λ url. chain_loop-guarded n (hop + 1) (chain ++ current ∷ []) url)

  fetch_with_chain-guarded :
      (url : String) → fetch_with_chain w.web url ≡ fetch_with_chain (with_fetch w.web g) url
  unfolding fetch_with_chain
  fetch_with_chain-guarded url = chain_loop-guarded (max_hops + 1) 0 [] url

  check_content-guarded :
      (origin_url : String) (facts : List GroundTruthFact) (ps : Run (List FactPattern))
      (superseded : List GroundTruthFact)
      → check_content w origin_url facts ps superseded
        ≡ check_content (with_answers w g) origin_url facts ps superseded
  check_content-guarded origin_url facts (done ps) superseded =
      run_content_check-guarded w.web g same_public w.tools w.fuel _
  check_content-guarded origin_url facts threw superseded = refl
  check_content-guarded origin_url facts endless superseded = refl

  scan_content-guarded :
      (db : GroundTruthDb) (table : Option (List GroundTruthFact)) (origin_url : String)
      → scan_content w db table origin_url ≡ scan_content (with_answers w g) db table origin_url
  scan_content-guarded db none origin_url = refl
  scan_content-guarded db (some table) origin_url =
      let facts = load_active_facts table "ZA" w.today in
      check_content-guarded origin_url facts
        (load_patterns w db.pattern_table (map (λ (f : GroundTruthFact). f.fact_key) facts))
        (load_superseded_facts table "ZA" w.today)

  on_content-guarded :
      (res : Response) (used_https : Bool) (hostname : String) (s : SecuritySnapshot)
      (r : Run ContentResult)
      → on_content w res used_https hostname s r
        ≡ on_content (with_answers w g) res used_https hostname s r
  unfolding with_content
  on_content-guarded res used_https hostname s (done c) = refl
  on_content-guarded res used_https hostname s threw = refl
  on_content-guarded res used_https hostname s endless = refl

  add_content-guarded :
      (opts : SnapshotOptions) (db : Option GroundTruthDb) (res : Response) (used_https : Bool)
      (hostname origin_url : String) (s : SecuritySnapshot)
      → add_content w opts db res used_https hostname origin_url s
        ≡ add_content (with_answers w g) opts db res used_https hostname origin_url s
  add_content-guarded opts none res used_https hostname origin_url s = refl
  add_content-guarded opts (some db) res used_https hostname origin_url s =
      ap (λ (r : Run SecuritySnapshot). if opts.content then r else done s)
        (ap (λ (c : Run ContentResult). on_content w res used_https hostname s c)
            (scan_content-guarded db db.fact_table origin_url)
          ∙ on_content-guarded res used_https hostname s
              (scan_content (with_answers w g) db db.fact_table origin_url))

  scan_host-guarded :
      (opts : SnapshotOptions) (target : String) (chain : List String) (final_url : Option String)
      (res : Response) (final : String) (o : Option Url)
      → scan_host w opts target chain final_url res final o
        ≡ scan_host (with_answers w g) opts target chain final_url res final o
  unfolding base_snapshot
  scan_host-guarded opts target chain final_url res final none = refl
  scan_host-guarded opts target chain final_url res final (some u) =
      add_content-guarded opts opts.ground_truth_db res _ u.hostname final _

  scan_chain-guarded :
      (opts : SnapshotOptions) (target : String) (c : ChainFetch)
      → scan_chain w opts target c ≡ scan_chain (with_answers w g) opts target c
  scan_chain-guarded opts target chain_threw = refl
  scan_chain-guarded opts target (chain_fetched r) = by_response r.response
    where
      by_response :
          (o : Option Response)
          → scan_response w opts target r o ≡ scan_response (with_answers w g) opts target r o
      by_response none = refl
      by_response (some res) =
          let final = or_else r.final_url target in
          ap
            (λ (s : Run SecuritySnapshot).
              if truthy r.error
              then done (scan_failed w target r (or_else r.error "unknown error"))
              else s)
            (scan_host-guarded opts target r.chain r.final_url res final (w.web.parse_url final))

  -- Two worlds that give the same answers for public hosts, and differ in no more than the answers to
  -- their requests, lead to the same snapshot, its content scan included.
  pub run_security_snapshot-guarded :
      (opts : SnapshotOptions) (raw_url : String)
      → run_security_snapshot w opts raw_url ≡ run_security_snapshot (with_answers w g) opts raw_url
  unfolding run_security_snapshot
  run_security_snapshot-guarded opts raw_url =
      ap (λ (f : String → ChainFetch). scan_target w f opts raw_url (w.web.parse_url raw_url))
        (fun_ext λ url. fetch_with_chain-guarded url)
      ∙ by_url (w.web.parse_url raw_url)
    where
      by_url :
          (o : Option Url)
          → scan_target w (λ url. fetch_with_chain (with_fetch w.web g) url) opts raw_url o
            ≡ scan_target
                (with_answers w g)
                (λ url. fetch_with_chain (with_fetch w.web g) url)
                opts
                raw_url
                o
      by_url none = refl
      by_url (some u) =
          ap
            (λ (s : Run SecuritySnapshot).
              if not (str_eq u.protocol "http:" || str_eq u.protocol "https:")
              then done (empty_snapshot raw_url w.timestamp "invalid URL")
              else s)
            (scan_chain-guarded opts u.href (fetch_with_chain (with_fetch w.web g) u.href))
