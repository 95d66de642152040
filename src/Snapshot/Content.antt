-- ===== src/Snapshot/Content.antt =====
-- From a wrong figure on a page to the verdict of the snapshot: src/content-check.ts, src/verdict.ts and
-- src/snapshot.ts together.
use agent_commerce_lab.Prelude.{
  ℕ, ◌≡◌, refl, Bool, true, false, some, String, List, [], ◌∷◌, any, find, length, arith, ◌==◌,
}
use agent_commerce_lab.Prelude.Text.{str_eq}
use agent_commerce_lab.GroundTruth.{GroundTruthFact}
use agent_commerce_lab.ContentCheck.Types.{PageContent, is_money_or_deadline}
use agent_commerce_lab.ContentCheck.Score.{score_content}
use agent_commerce_lab.ContentCheck.Classify.{classify_pages}
use agent_commerce_lab.ContentCheck.Classify.Wrong.{is_wrong}
use agent_commerce_lab.ContentCheck.Classify.Alarm.{critical_on-is_capping, wrong_figure_fails}
use agent_commerce_lab.ContentCheck.Run.{ContentCheckInput, content_result}
use agent_commerce_lab.Verdict.{fail}
use agent_commerce_lab.Verdict.Meaning.{critical_content_fails}
use agent_commerce_lab.TlsProbe.Probe.{probe_tls}
use agent_commerce_lab.History.Types.{SecuritySnapshot}
use agent_commerce_lab.Web.{Response}
use agent_commerce_lab.Snapshot.Assemble.{ScanWorld}
use agent_commerce_lab.Snapshot.Scan.{probe_if, verdict_input, content_verdict_input, with_content}

some_page :
    (q : PageContent → Bool) (contents : List PageContent)
    → any q contents ≡ true
    → (length contents == 0) ≡ false
some_page q [] h = cc
some_page q (p ∷ ps) h = ground arith

-- If a page of the content check states another value than the approved one of a money or deadline fact,
-- which is the first fact of its key, the verdict of the snapshot with the result of that check is FAIL,
-- whatever its headers, its TLS and its other pages are.
pub wrong_figure_fails_snapshot :
    (w : ScanWorld) (input : ContentCheckInput) (f : GroundTruthFact) (planned : ℕ)
    (sitemap_found : Bool) (discovered : List String) (contents : List PageContent) (res : Response)
    (used_https : Bool) (hostname : String) (s : SecuritySnapshot)
    → find (λ x. str_eq x.fact_key f.fact_key) input.facts ≡ some f
    → is_money_or_deadline f.impact_class ≡ true
    → any (λ p. any (is_wrong f) p.claims) contents ≡ true
    → (with_content w res used_https hostname s (
        content_result w.web w.tools w.fuel input planned sitemap_found discovered
          contents)).verdict.status
      ≡ fail
unfolding with_content content_result
wrong_figure_fails_snapshot w input f planned sitemap_found discovered contents res used_https
      hostname s found money wrong =
    let findings =
      (classify_pages w.tools.matches contents input.facts input.superseded input.patterns
        input.as_of).0 in
    let alarm =
      wrong_figure_fails w.tools.matches f contents input.facts input.superseded input.patterns
        input.as_of found money wrong in
    let capped =
      critical_on-is_capping w.tools.matches f input.facts findings found money alarm.0 in
    let result =
      content_result w.web w.tools w.fuel input planned sitemap_found discovered contents in
    let score : result.score ≡ (score_content input.facts findings).score =
      rw (some_page (λ p. any (is_wrong f) p.claims) contents wrong) refl in
    critical_content_fails
      (verdict_input res used_https s.header_score (probe_if used_https (probe_tls w.tls hostname))
        (some (content_verdict_input w result)))
      (content_verdict_input w result) input.facts findings refl score capped
