-- ===== src/History/Same.antt =====
-- `diffSnapshots` of src/history.ts on a snapshot and itself.
use agent_commerce_lab.Prelude.{
  ℕ, ◌≡◌, refl, inl, inr, Bool, true, false, not, Option, none, some, String, List, [], ◌∷◌, ◌==◌,
  arith, map, In, length,
}
use agent_commerce_lab.Prelude.Text.{◌<>◌}
use agent_commerce_lab.ContentCheck.Classify.Sets.{str_eq_refl}
use agent_commerce_lab.ContentCheck.Types.{ContentResult, ContentFactObservation}
use agent_commerce_lab.History.Types.{
  critical, material, null_value, bool_value, ChangedField, SecuritySnapshot,
}
use agent_commerce_lab.History.Diff.{
  bool_eq, text_eq, number_eq, add_if, concat, verdict_status_text, diff_guarded, diff_header,
  diff_plain, content_status_text,
}
use agent_commerce_lab.History.Content.{
  fact_of, has_key, same_claims, diff_fact, fact_keys, critical_keys, diff_content, diff_snapshots,
}

eq_refl : (n : ℕ) → (n == n) ≡ true
eq_refl n = ground arith

bool_eq_refl : (b : Bool) → bool_eq b b ≡ true
bool_eq_refl true = refl
bool_eq_refl false = refl

text_eq_refl : (o : Option String) → text_eq o o ≡ true
text_eq_refl none = refl
text_eq_refl (some s) = str_eq_refl s

number_eq_refl : (o : Option ℕ) → number_eq o o ≡ true
number_eq_refl none = refl
number_eq_refl (some n) = eq_refl n

same_claims_refl : (xs : List String) → same_claims xs xs ≡ true
same_claims_refl [] = refl
same_claims_refl (x ∷ xs) = rw (str_eq_refl x, same_claims_refl xs) refl

diff_guarded_same : (s : SecuritySnapshot) → diff_guarded s s ≡ []
unfolding diff_guarded add_if concat
diff_guarded_same s =
    rw
      (
        bool_eq_refl s.tls.used_https,
        str_eq_refl (verdict_status_text s.verdict.status),
        bool_eq_refl s.tls.weak_cipher,
      )
      refl

diff_header_same :
    (name : String) (weighty : Bool) (o : Option String) → diff_header name weighty o o ≡ []
unfolding add_if
diff_header_same name weighty none = refl
diff_header_same name weighty (some v) = rw (str_eq_refl v) refl

diff_plain_same : (s : SecuritySnapshot) → diff_plain s s ≡ []
unfolding diff_plain concat add_if
diff_plain_same s =
    let h = s.security_headers in
    rw
      (
        number_eq_refl s.http.status,
        text_eq_refl s.tls.protocol,
        bool_eq_refl s.dns.has_a,
        bool_eq_refl s.dns.has_aaaa,
        bool_eq_refl s.dns.has_mx,
        bool_eq_refl s.dns.has_txt,
        diff_header_same "strictTransportSecurity" true h.strict_transport_security,
        diff_header_same "contentSecurityPolicy" true h.content_security_policy,
        diff_header_same "xFrameOptions" false h.x_frame_options,
        diff_header_same "xContentTypeOptions" false h.x_content_type_options,
        diff_header_same "referrerPolicy" false h.referrer_policy,
        diff_header_same "permissionsPolicy" false h.permissions_policy,
        eq_refl s.header_score.score,
        eq_refl s.verdict.score,
        text_eq_refl s.tech_observations.server,
        bool_eq_refl s.tech_observations.powered_by_cloudflare,
        text_eq_refl s.tech_observations.cms_guess,
        eq_refl (length s.http.redirect_chain),
      )
      refl

concat_empty :
    (f : String → List ChangedField) (ks : List String)
    → ((k : String) → In k ks → f k ≡ [])
    → concat (map f ks) ≡ []
unfolding concat
concat_empty f [] h = refl
concat_empty f (k ∷ ks) h = rw (h k (inl refl), concat_empty f ks (λ j m. h j (inr m))) refl

has_key-In : (k : String) (ks : List String) → In k ks → has_key k ks ≡ true
has_key-In k [] m = elim m [ ]
has_key-In k (j ∷ ks) (inl e) = rw (e, str_eq_refl j) refl
has_key-In k (j ∷ ks) (inr m) = let later = has_key-In k ks m in ground arith

diff_fact_same : (k : String) (o : Option ContentFactObservation) → diff_fact k o o ≡ []
unfolding add_if
diff_fact_same k none = refl
diff_fact_same k (some f) = rw (same_claims_refl f.claims) refl

diff_content_same : (o : Option ContentResult) → diff_content o o ≡ []
unfolding add_if
diff_content_same none = refl
diff_content_same (some c) =
    let keys = critical_keys c in
    rw
      (
        str_eq_refl (content_status_text c.status),
        eq_refl c.score,
        concat_empty (λ k. diff_fact k (fact_of k c.facts) (fact_of k c.facts)) (fact_keys c c)
            (λ k m. diff_fact_same k (fact_of k c.facts)),
        concat_empty
            (λ k.
              add_if (not (has_key k keys)) ("content.critical." <> k) null_value (bool_value true)
                critical)
            keys (λ k m. rw (has_key-In k keys m) refl),
        concat_empty
            (λ k.
              add_if (not (has_key k keys)) ("content.critical." <> k) (bool_value true) null_value
                material)
            keys (λ k m. rw (has_key-In k keys m) refl),
      )
      refl

-- A snapshot that is compared with itself has no changed field.
pub diff_snapshots_same : (s : SecuritySnapshot) → diff_snapshots s s ≡ []
unfolding diff_snapshots
diff_snapshots_same s =
    rw (diff_guarded_same s, diff_plain_same s, diff_content_same s.content) refl
