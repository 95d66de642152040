-- ===== src/History/Alarm.antt =====
-- When a change of src/history.ts is critical.
use agent_commerce_lab.Prelude.{
  Bool, true, false, ◌&&◌, ◌||◌, not, Option, none, some, String, List, [], ◌∷◌, ◌++◌, ◌≡◌, refl,
  ap, ◌∙◌, if◌then◌else◌, map, any, any-append, arith,
}
use agent_commerce_lab.ContentCheck.Types.{
  ContentResult, ContentFactObservation, is_money_or_deadline,
}
use agent_commerce_lab.Verdict
use agent_commerce_lab.Verdict.{VerdictStatus}
use agent_commerce_lab.History.Types.{
  Materiality, material, informational, FieldValue, ChangedField, SecuritySnapshot,
}
use agent_commerce_lab.History.Diff.{
  bool_eq, add_if, critical_if, concat, is_pass, is_fail, same_verdict, diff_guarded, diff_plain,
}
use agent_commerce_lab.History.Content.{
  fact_of, has_key, same_claims, diff_fact, fact_keys, critical_keys, diff_content_score,
  diff_content, diff_snapshots,
}
use agent_commerce_lab.History.Compare.{is_critical_tier, has_critical}

-- A fact of money or of a compliance deadline appears, goes away or changes its claims.
abbrev pub fact_alarm : Option ContentFactObservation → Option ContentFactObservation → Bool
fact_alarm none none = false
fact_alarm none (some t) = is_money_or_deadline t.impact
fact_alarm (some f) none = is_money_or_deadline f.impact
fact_alarm (some f) (some t) = not (same_claims f.claims t.claims) && is_money_or_deadline f.impact

-- With content on both sides: a fact alarms, or a critical finding is new.
abbrev pub content_alarm : Option ContentResult → Option ContentResult → Bool
content_alarm (some from) (some to) =
    any (λ k. fact_alarm (fact_of k from.facts) (fact_of k to.facts)) (fact_keys from to)
    || any (λ k. not (has_key k (critical_keys from))) (critical_keys to)
content_alarm _ _ = false

-- HTTPS is lost, the verdict falls from PASS to FAIL, or the cipher becomes weak.
abbrev pub transport_alarm : SecuritySnapshot → SecuritySnapshot → Bool
transport_alarm from to =
    (from.tls.used_https && not to.tls.used_https)
    || ((is_pass from.verdict.status && is_fail to.verdict.status)
        || (not from.tls.weak_cipher && to.tls.weak_cipher))

add_if-has_critical :
    (b : Bool) (name : String) (x y : FieldValue) (m : Materiality)
    → has_critical (add_if b name x y m) ≡ (b && is_critical_tier m)
unfolding add_if has_critical
add_if-has_critical true name x y m = ground arith
add_if-has_critical false name x y m = refl

or_both : {a b c d : Bool} → a ≡ b → c ≡ d → (a || c) ≡ (b || d)
or_both {b = b} {c = c} h k = ap (λ x. x || c) h ∙ ap (λ x. b || x) k

empty-has_critical : has_critical [] ≡ false
unfolding has_critical
empty-has_critical = refl

append-has_critical :
    (xs ys : List ChangedField) → has_critical (xs ++ ys) ≡ (has_critical xs || has_critical ys)
unfolding has_critical
append-has_critical xs ys = any-append _ xs ys

concat-has_critical :
    (xss : List (List ChangedField)) → has_critical (concat xss) ≡ any has_critical xss
unfolding concat has_critical
concat-has_critical [] = refl
concat-has_critical (xs ∷ xss) =
    append-has_critical xs (concat xss) ∙ ap (λ b. has_critical xs || b) (concat-has_critical xss)

concat-map-has_critical :
    (g : String → List ChangedField) (p : String → Bool) (ks : List String)
    → ((k : String) → has_critical (g k) ≡ p k)
    → has_critical (concat (map g ks)) ≡ any p ks
unfolding concat has_critical
concat-map-has_critical g p [] h = refl
concat-map-has_critical g p (k ∷ ks) h =
    append-has_critical (g k) (concat (map g ks)) ∙ or_both (h k) (concat-map-has_critical g p ks h)

quiet :
    (b : Bool) (name : String) (x y : FieldValue) (m : Materiality)
    → is_critical_tier m ≡ false
    → has_critical (add_if b name x y m) ≡ false
unfolding add_if has_critical
quiet true name x y m h = ground arith
quiet false name x y m h = refl

nothing_quiet : has_critical (concat []) ≡ false
unfolding concat has_critical
nothing_quiet = refl

quiet_field :
    (b : Bool) (name : String) (x y : FieldValue) (m : Materiality) (xss : List (List ChangedField))
    → is_critical_tier m ≡ false
    → has_critical (concat xss) ≡ false
    → has_critical (concat (add_if b name x y m ∷ xss)) ≡ false
unfolding concat
quiet_field b name x y m xss h k =
    append-has_critical (add_if b name x y m) (concat xss) ∙ or_both (quiet b name x y m h) k

or_false : (b : Bool) → (b || false) ≡ b
or_false true = refl
or_false false = refl

and_true : (b : Bool) → (b && true) ≡ b
and_true true = refl
and_true false = refl

flat : (b : Bool) → (b && false) ≡ false
flat true = refl
flat false = refl

https_flag :
    (a b : Bool) → (not (bool_eq a b) && is_critical_tier (critical_if (a && not b))) ≡ (a && not b)
https_flag true true = refl
https_flag true false = refl
https_flag false true = refl
https_flag false false = refl

cipher_flag : (a b : Bool) → (not (bool_eq a b) && is_critical_tier (critical_if b)) ≡ (not a && b)
cipher_flag true true = refl
cipher_flag true false = refl
cipher_flag false true = refl
cipher_flag false false = refl

verdict_flag :
    (a b : VerdictStatus)
    → (not (same_verdict a b) && is_critical_tier (critical_if (is_pass a && is_fail b)))
      ≡ (is_pass a && is_fail b)
verdict_flag Verdict.pass Verdict.pass = refl
verdict_flag Verdict.pass Verdict.warn = refl
verdict_flag Verdict.pass Verdict.fail = refl
verdict_flag Verdict.warn b = flat (not (same_verdict Verdict.warn b))
verdict_flag Verdict.fail b = flat (not (same_verdict Verdict.fail b))

diff_guarded-has_critical :
    (from to : SecuritySnapshot) → has_critical (diff_guarded from to) ≡ transport_alarm from to
unfolding diff_guarded
diff_guarded-has_critical from to =
    concat-has_critical _
    ∙ or_both (add_if-has_critical _ _ _ _ _ ∙ https_flag from.tls.used_https to.tls.used_https) (
        or_both (add_if-has_critical _ _ _ _ _ ∙ verdict_flag from.verdict.status to.verdict.status)
          (or_false _
            ∙ (add_if-has_critical _ _ _ _ _
                ∙ cipher_flag from.tls.weak_cipher to.tls.weak_cipher)))

diff_plain-has_critical : (from to : SecuritySnapshot) → has_critical (diff_plain from to) ≡ false
unfolding diff_plain
diff_plain-has_critical from to = quiet_field _ _ _ _ _ _ refl (
    quiet_field _ _ _ _ _ _ refl (
      quiet_field _ _ _ _ _ _ refl (
        quiet_field _ _ _ _ _ _ refl (
          quiet_field _ _ _ _ _ _ refl (
            quiet_field _ _ _ _ _ _ refl (
              quiet_field _ _ _ _ _ _ refl (
                quiet_field _ _ _ _ _ _ refl (
                  quiet_field _ _ _ _ _ _ refl (
                    quiet_field _ _ _ _ _ _ refl (
                      quiet_field _ _ _ _ _ _ refl (
                        quiet_field _ _ _ _ _ _ refl (
                          quiet_field _ _ _ _ _ _ refl (
                            quiet_field _ _ _ _ _ _ refl (
                              quiet_field _ _ _ _ _ _ refl (
                                quiet_field _ _ _ _ _ _ refl (
                                  quiet_field _ _ _ _ _ _ refl
                                    (quiet_field _ _ _ _ _ _ refl nothing_quiet)))))))))))))))))

diff_fact-has_critical :
    (key : String) (f t : Option ContentFactObservation)
    → has_critical (diff_fact key f t) ≡ fact_alarm f t
unfolding add_if has_critical
diff_fact-has_critical key none none = refl
diff_fact-has_critical key none (some t) = ground arith
diff_fact-has_critical key (some f) none = ground arith
diff_fact-has_critical key (some f) (some t) = ground arith

score_tier : (b : Bool) → is_critical_tier (if b then material else informational) ≡ false
score_tier true = refl
score_tier false = refl

map_quiet :
    (g : String → List ChangedField) (ks : List String)
    → ((k : String) → has_critical (g k) ≡ false)
    → has_critical (concat (map g ks)) ≡ false
map_quiet g ks h = concat-map-has_critical g (λ k. false) ks h ∙ never ks
  where
    never : (xs : List String) → any (λ k. false) xs ≡ false
    never [] = refl
    never (x ∷ xs) = never xs

diff_content-has_critical :
    (from to : Option ContentResult) → has_critical (diff_content from to) ≡ content_alarm from to
diff_content-has_critical none none = empty-has_critical
diff_content-has_critical none (some to) = quiet true _ _ _ _ refl
diff_content-has_critical (some from) none = quiet true _ _ _ _ refl
diff_content-has_critical (some from) (some to) =
    append-has_critical (add_if _ _ _ _ _) _
    ∙ or_both (quiet _ _ _ _ _ refl) (
        append-has_critical (diff_content_score from to) _
        ∙ or_both (quiet _ _ _ _ _ (score_tier _)) (
            append-has_critical (concat (map _ (fact_keys from to))) _
            ∙ or_both
                (concat-map-has_critical _ _ (fact_keys from to)
                  (λ k. diff_fact-has_critical k _ _))
                (append-has_critical (concat (map _ (critical_keys to))) _
                  ∙ (or_both
                        (concat-map-has_critical _ _ (critical_keys to)
                          (λ k. add_if-has_critical _ _ _ _ _ ∙ and_true _))
                        (map_quiet _ (critical_keys from) (λ k. quiet _ _ _ _ _ refl))
                      ∙ or_false _))))

-- A comparison has a critical field exactly when the transport or the content alarms.
pub diff-has_critical :
    (from to : SecuritySnapshot)
    → has_critical (diff_snapshots from to)
      ≡ (transport_alarm from to || content_alarm from.content to.content)
unfolding diff_snapshots
diff-has_critical from to =
    append-has_critical (diff_guarded from to) _
    ∙ or_both (diff_guarded-has_critical from to) (
        append-has_critical (diff_plain from to) _
        ∙ or_both (diff_plain-has_critical from to)
            (diff_content-has_critical from.content to.content))
