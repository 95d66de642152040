-- ===== src/History/Diff.antt =====
-- `diffSnapshots` of src/history.ts. The keys of an object of facts come in stored order; two lists
-- of claims have one JSON text exactly when they are equal.
use agent_commerce_lab.Prelude.{
  ℕ, Bool, true, false, ◌&&◌, ◌||◌, not, Option, none, some, String, List, [], ◌∷◌, ◌++◌, ◌==◌,
  if◌then◌else◌, length, is_some,
}
use agent_commerce_lab.Prelude.Text.{◌<>◌, str_eq}
use agent_commerce_lab.ContentCheck.Types.{
  ContentResult, ContentFactObservation, ContentFinding, ContentFindingType, figure_mismatch,
  figure_stale, cross_page_contradiction, absent_required_figure, ContentStatus,
  is_money_or_deadline,
}
use agent_commerce_lab.ContentCheck.Types
use agent_commerce_lab.Verdict
use agent_commerce_lab.Verdict.{VerdictStatus}
use agent_commerce_lab.History.Types.{
  Materiality, critical, material, informational, FieldValue, null_value, bool_value, number_value,
  text_value, ChangedField, SecuritySnapshot,
}

abbrev pub bool_eq : Bool → Bool → Bool
bool_eq true b = b
bool_eq false b = not b

abbrev pub text_eq : Option String → Option String → Bool
text_eq none none = true
text_eq (some a) (some b) = str_eq a b
text_eq _ _ = false

abbrev pub number_eq : Option ℕ → Option ℕ → Bool
number_eq none none = true
number_eq (some a) (some b) = a == b
number_eq _ _ = false

abbrev pub verdict_status_text : VerdictStatus → String
verdict_status_text Verdict.pass = "PASS"
verdict_status_text Verdict.warn = "WARN"
verdict_status_text Verdict.fail = "FAIL"

abbrev pub content_status_text : ContentStatus → String
content_status_text Types.pass = "PASS"
content_status_text Types.warn = "WARN"
content_status_text Types.fail = "FAIL"

abbrev pub finding_type_text : ContentFindingType → String
finding_type_text figure_mismatch = "figure-mismatch"
finding_type_text figure_stale = "figure-stale"
finding_type_text cross_page_contradiction = "cross-page-contradiction"
finding_type_text absent_required_figure = "absent-required-figure"

abbrev text_field : Option String → FieldValue
text_field none = null_value
text_field (some s) = text_value s

abbrev number_field : Option ℕ → FieldValue
number_field none = null_value
number_field (some n) = number_value n

-- One `add` under its test.
unfoldable pub add_if : Bool → String → FieldValue → FieldValue → Materiality → List ChangedField
add_if changed name old new m =
    if changed
    then record { field_name = name; old_value = old; new_value = new; materiality = m } ∷ []
    else []

abbrev pub critical_if : Bool → Materiality
critical_if b = if b then critical else material

unfoldable pub concat : List (List ChangedField) → List ChangedField
concat [] = []
concat (xs ∷ xss) = xs ++ concat xss

abbrev pub is_pass : VerdictStatus → Bool
is_pass Verdict.pass = true
is_pass _ = false

abbrev pub is_fail : VerdictStatus → Bool
is_fail Verdict.fail = true
is_fail _ = false

abbrev pub same_verdict : VerdictStatus → VerdictStatus → Bool
same_verdict a b = str_eq (verdict_status_text a) (verdict_status_text b)

-- HTTPS, the verdict and the cipher: the fields that can be critical by themselves.
unfoldable pub diff_guarded : SecuritySnapshot → SecuritySnapshot → List ChangedField
diff_guarded from to = concat (
    add_if (not (bool_eq from.tls.used_https to.tls.used_https)) "tls.usedHttps"
      (bool_value from.tls.used_https) (bool_value to.tls.used_https)
      (critical_if (from.tls.used_https && not to.tls.used_https))
    ∷ add_if (not (same_verdict from.verdict.status to.verdict.status)) "verdict.status"
        (text_value (verdict_status_text from.verdict.status))
        (text_value (verdict_status_text to.verdict.status))
        (critical_if (is_pass from.verdict.status && is_fail to.verdict.status))
    ∷ add_if (not (bool_eq from.tls.weak_cipher to.tls.weak_cipher)) "tls.weakCipher"
        (bool_value from.tls.weak_cipher) (bool_value to.tls.weak_cipher)
        (critical_if to.tls.weak_cipher)
    ∷ [])

-- A security header: its presence, and for two headers its value.
abbrev pub diff_header : String → Bool → Option String → Option String → List ChangedField
diff_header name weighty from to =
    add_if
      (not (bool_eq (is_some from) (is_some to))
        || (is_some from && is_some to && not (text_eq from to) && weighty))
      ("securityHeaders." <> name) (text_field from) (text_field to) material

-- The fields from the HTTP status to the redirect chain.
unfoldable pub diff_plain : SecuritySnapshot → SecuritySnapshot → List ChangedField
diff_plain from to =
    let fh = from.security_headers in
    let th = to.security_headers in
    concat (
      add_if (not (number_eq from.http.status to.http.status)) "http.status"
        (number_field from.http.status) (number_field to.http.status) material
      ∷ add_if (not (text_eq from.tls.protocol to.tls.protocol)) "tls.protocol"
          (text_field from.tls.protocol) (text_field to.tls.protocol) informational
      ∷ add_if (not (bool_eq from.dns.has_a to.dns.has_a)) "dns.hasA" (bool_value from.dns.has_a)
          (bool_value to.dns.has_a) informational
      ∷ add_if (not (bool_eq from.dns.has_aaaa to.dns.has_aaaa)) "dns.hasAAAA"
          (bool_value from.dns.has_aaaa) (bool_value to.dns.has_aaaa) informational
      ∷ add_if (not (bool_eq from.dns.has_mx to.dns.has_mx)) "dns.hasMX"
          (bool_value from.dns.has_mx) (bool_value to.dns.has_mx) informational
      ∷ add_if (not (bool_eq from.dns.has_txt to.dns.has_txt)) "dns.hasTXT"
          (bool_value from.dns.has_txt) (bool_value to.dns.has_txt) informational
      ∷ diff_header "strictTransportSecurity" true fh.strict_transport_security
          th.strict_transport_security
      ∷ diff_header "contentSecurityPolicy" true fh.content_security_policy
          th.content_security_policy
      ∷ diff_header "xFrameOptions" false fh.x_frame_options th.x_frame_options
      ∷ diff_header "xContentTypeOptions" false fh.x_content_type_options th.x_content_type_options
      ∷ diff_header "referrerPolicy" false fh.referrer_policy th.referrer_policy
      ∷ diff_header "permissionsPolicy" false fh.permissions_policy th.permissions_policy
      ∷ add_if (not (from.header_score.score == to.header_score.score)) "headerScore.score"
          (number_value from.header_score.score) (number_value to.header_score.score) informational
      ∷ add_if (not (from.verdict.score == to.verdict.score)) "verdict.score"
          (number_value from.verdict.score) (number_value to.verdict.score) informational
      ∷ add_if (not (text_eq from.tech_observations.server to.tech_observations.server))
          "techObservations.server" (text_field from.tech_observations.server)
          (text_field to.tech_observations.server) informational
      ∷ add_if
          (not (
            bool_eq from.tech_observations.powered_by_cloudflare
              to.tech_observations.powered_by_cloudflare))
          "techObservations.poweredByCloudflare"
          (bool_value from.tech_observations.powered_by_cloudflare)
          (bool_value to.tech_observations.powered_by_cloudflare) informational
      ∷ add_if (not (text_eq from.tech_observations.cms_guess to.tech_observations.cms_guess))
          "techObservations.cmsGuess" (text_field from.tech_observations.cms_guess)
          (text_field to.tech_observations.cms_guess) informational
      ∷ add_if (not (length from.http.redirect_chain == length to.http.redirect_chain))
          "http.redirectChain.length" (number_value (length from.http.redirect_chain))
          (number_value (length to.http.redirect_chain)) informational
      ∷ [])
