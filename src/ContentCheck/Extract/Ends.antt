-- ===== src/ContentCheck/Extract/Ends.antt =====
-- The loop over the matches in `extractClaimsFromText` of src/content-check.ts.
use agent_commerce_lab.Prelude.{
  ℕ, zero, suc, ◌+◌, ◌≤◌, ◌<◌, ◌≡◌, refl, Bool, true, Option, none, some, String, List, [], ◌∷◌,
  find, is_some, ◌⊎◌, arith, In, all_In, find-In, All, ◌==◌, ◌++◌, Bool-cases, inl, inr,
}
use agent_commerce_lab.GroundTruth.{GroundTruthFact, FactPattern}
use agent_commerce_lab.ContentCheck.Types.{RawClaim, ClaimKind}
use agent_commerce_lab.ContentCheck.Extract.{
  RegExpMatch, is_money_fact, claim_kind, raw_of, ◌then_claims◌, normalize, claim_of, next_start,
  on_normalized, on_match, match_loop, kind_claims, pattern_claims, group_claims, groups_claims,
  add_pattern, patterns_by_fact, extract_claims_from_text,
}
use agent_commerce_lab.Prelude.Text.{str_eq}

-- The claims are there, or the other thing holds.
abbrev Returns : Type 0 → Option (List RawClaim) → Type 0
Returns Otherwise o = (is_some o ≡ true) ⊎ Otherwise

then_claims-is_some :
    (a b : Option (List RawClaim))
    → is_some a ≡ true
    → is_some b ≡ true
    → is_some (a then_claims b) ≡ true
then_claims-is_some none b ha hb = cc
then_claims-is_some (some a) none ha hb = cc
then_claims-is_some (some a) (some b) ha hb = refl

then_claims-Returns :
    (Otherwise : Type 0) (a b : Option (List RawClaim))
    → Returns Otherwise a
    → Returns Otherwise b
    → Returns Otherwise (a then_claims b)
then_claims-Returns Otherwise a b (inr other) hb = inr other
then_claims-Returns Otherwise a b (inl ha) (inr other) = inr other
then_claims-Returns Otherwise a b (inl ha) (inl hb) = inl (then_claims-is_some a b ha hb)

in_all : {A : Type 0} (P : A → Type 0) (xs : List A) → All P xs → (x : A) → In x xs → P x
in_all P [] h x m = elim m [ ]
in_all P (y ∷ ys) h x (inl e) = rw e h.0
in_all P (y ∷ ys) h x (inr m) = in_all P ys h.1 x m

append-All :
    {A : Type 0} (P : A → Type 0) (xs : List A) (x : A) → All P xs → P x → All P (xs ++ x ∷ [])
append-All P [] x h p = (p, tt)
append-All P (y ∷ ys) x h p = (h.0, append-All P ys x h.1 p)

-- The groups have only patterns that were given.
add_pattern-All :
    (P : FactPattern → Type 0) (p : FactPattern) (groups : List (String × List FactPattern))
    → P p
    → All (λ g. All P g.1) groups
    → All (λ g. All P g.1) (add_pattern p groups)
add_pattern-All P p [] here h = ((here, tt), tt)
add_pattern-All P p (g ∷ groups) here h = elim (Bool-cases (str_eq g.0 p.fact_key)) [
  | inl same ↦ rw same (append-All P g.1 p h.0 here, h.1)
  | inr other ↦ rw other (h.0, add_pattern-All P p groups here h.1)
]

patterns_by_fact-All :
    (P : FactPattern → Type 0) (ps : List FactPattern) (groups : List (String × List FactPattern))
    → All P ps
    → All (λ g. All P g.1) groups
    → All (λ g. All P g.1) (patterns_by_fact ps groups)
patterns_by_fact-All P [] groups hs h = h
patterns_by_fact-All P (p ∷ ps) groups hs h =
    patterns_by_fact-All P ps (add_pattern p groups) hs.1 (add_pattern-All P p groups hs.0 h)

module _ (compiles : String → Bool) (exec : String → String → ℕ → Option RegExpMatch)
    (normalize_money normalize_month_day : String → Option String) where
  -- What a match of a text of `size` units is: it begins at the start or behind it and ends in the text.
  pub record IsMatch (size start : ℕ) (m : RegExpMatch) : Type 0 where
    pub from_start : start ≤ m.index
    pub forward : m.index ≤ m.last_index
    pub in_text : m.last_index ≤ size

  -- One of the patterns has an empty match in a text, of which the normalizer of one of the facts makes
  -- nothing.
  pub record IsEmptyMatch (facts : List GroundTruthFact) (patterns : List FactPattern)
      (text : String) : Type 0 where
    pub pattern : FactPattern
    pub is_pattern : In pattern patterns
    pub fact : GroundTruthFact
    pub is_fact : In fact facts
    pub start : ℕ
    pub found : RegExpMatch
    pub is_found : exec pattern.pattern text start ≡ some found
    pub is_empty : found.index ≡ found.last_index
    pub no_value :
        normalize compiles exec normalize_money normalize_month_day
          (is_money_fact fact)
          (raw_of found)
        ≡ none

  on_normalized-Returns :
      (Otherwise : Type 0) (p : FactPattern) (kind : ClaimKind) (page_path : String)
      (go : ℕ → Option (List RawClaim)) (m : RegExpMatch) (o : Option String) (start : ℕ)
      → start ≤ m.index
      → m.index ≤ m.last_index
      → (o ≡ none → m.index ≡ m.last_index → Otherwise)
      → ((s : ℕ) → start < s → s ≤ m.last_index + 1 → Returns Otherwise (go s))
      → Returns Otherwise
          (on_normalized compiles exec normalize_money normalize_month_day p kind page_path go m o)
  on_normalized-Returns Otherwise p kind page_path go m none start from forward stuck h =
      elim (Bool-cases (m.index == m.last_index)) [
        | inl same ↦ inr (stuck refl (ground arith))
        | inr longer ↦ h m.last_index (ground arith) (omega arith)
      ]
  on_normalized-Returns Otherwise p kind page_path go m (some v) start from forward stuck h =
      then_claims-Returns Otherwise
        (some (
          claim_of compiles exec normalize_money normalize_month_day p.fact_key kind page_path
            (raw_of m) v
          ∷ []))
        (go (next_start compiles exec normalize_money normalize_month_day m)) (inl refl)
        (h (next_start compiles exec normalize_money normalize_month_day m) (ground arith)
          (ground arith))

  module _ (text : String) (size : ℕ)
      (is_match : (pattern : String) (start : ℕ) (m : RegExpMatch)
        → exec pattern text start ≡ some m
        → IsMatch size start m)
      (facts : List GroundTruthFact) (patterns : List FactPattern) where
    -- A pattern of the list, with whether one of the facts is about money.
    abbrev IsListed : Bool → FactPattern → Type 0
    IsListed money p =
        In p patterns × (f : GroundTruthFact) × In f facts × (is_money_fact f ≡ money)

    on_match-Returns :
        (p : FactPattern) (kind : ClaimKind) (money : Bool) (page_path : String)
        (go : ℕ → Option (List RawClaim)) (start : ℕ) (o : Option RegExpMatch)
        → IsListed money p
        → exec p.pattern text start ≡ o
        → ((s : ℕ) → start < s → s ≤ size + 1 → Returns (IsEmptyMatch facts patterns text) (go s))
        → Returns
            (IsEmptyMatch facts patterns text)
            (on_match compiles exec normalize_money normalize_month_day p kind money page_path go o)
    on_match-Returns p kind money page_path go start none listed e h = inl refl
    on_match-Returns p kind money page_path go start (some m) listed e h =
        let fact = is_match p.pattern start m e in
        let end : m.last_index ≤ size = fact.in_text in
        on_normalized-Returns (IsEmptyMatch facts patterns text) p kind page_path go m
          (normalize compiles exec normalize_money normalize_month_day money (raw_of m)) start
          fact.from_start fact.forward
          (λ fails empty. record {
            pattern = p;
            is_pattern = listed.0;
            fact = listed.1;
            is_fact = listed.2;
            start = start;
            found = m;
            is_found = e;
            is_empty = empty;
            no_value = rw listed.3 fails;
          })
          (λ s above below. h s above (omega (arith, end)))

    match_loop-Returns :
        (fuel : ℕ) (p : FactPattern) (kind : ClaimKind) (money : Bool) (page_path : String)
        (start : ℕ)
        → IsListed money p
        → start ≤ size + 1
        → size + 2 ≤ fuel + start
        → Returns (IsEmptyMatch facts patterns text) (
            match_loop compiles exec normalize_money normalize_month_day fuel p kind money text
              page_path start)
    match_loop-Returns zero p kind money page_path start listed h enough = absurd (omega arith)
    match_loop-Returns (suc fuel) p kind money page_path start listed h enough =
        on_match-Returns p kind money page_path
          (λ s.
            match_loop compiles exec normalize_money normalize_month_day fuel p kind money text
              page_path s)
          start (exec p.pattern text start) listed refl
          (λ s above below.
            match_loop-Returns fuel p kind money page_path s listed below (omega arith))

    pattern_claims-Returns :
        (fuel : ℕ) (money : Bool) (page_path : String) (ps : List FactPattern)
        → All (IsListed money) ps
        → size + 2 ≤ fuel
        → Returns (IsEmptyMatch facts patterns text) (
            pattern_claims compiles exec normalize_money normalize_month_day fuel money text
              page_path ps)
    pattern_claims-Returns fuel money page_path [] listed h = inl refl
    pattern_claims-Returns fuel money page_path (p ∷ ps) listed h =
        then_claims-Returns (IsEmptyMatch facts patterns text)
          (kind_claims compiles exec normalize_money normalize_month_day fuel p (claim_kind p.kind)
            money text page_path)
          (pattern_claims compiles exec normalize_money normalize_month_day fuel money text
            page_path ps)
          (kind_returns (claim_kind p.kind))
          (pattern_claims-Returns fuel money page_path ps listed.1 h)
      where
        kind_returns :
            (o : Option ClaimKind)
            → Returns (IsEmptyMatch facts patterns text) (
                kind_claims compiles exec normalize_money normalize_month_day fuel p o money text
                  page_path)
        kind_returns none = inl refl
        kind_returns (some kind) = elim (Bool-cases (compiles p.pattern)) [
          | inl ok ↦ rw ok (
              match_loop-Returns fuel p kind money page_path 0 listed.0 (omega arith) (omega arith))
          | inr broken ↦ rw broken (inl refl)
        ]

    groups_claims-Returns :
        (fuel : ℕ) (page_path : String) (groups : List (String × List FactPattern))
        → All (λ g. All (λ p. In p patterns) g.1) groups
        → size + 2 ≤ fuel
        → Returns (IsEmptyMatch facts patterns text) (
            groups_claims compiles exec normalize_money normalize_month_day fuel text page_path
              facts groups)
    groups_claims-Returns fuel page_path [] listed h = inl refl
    groups_claims-Returns fuel page_path (g ∷ groups) listed h =
        then_claims-Returns (IsEmptyMatch facts patterns text)
          (group_claims compiles exec normalize_money normalize_month_day fuel text page_path fact
            g.1)
          (groups_claims compiles exec normalize_money normalize_month_day fuel text page_path facts
            groups)
          (group_returns fact refl) (groups_claims-Returns fuel page_path groups listed.1 h)
      where
        fact : Option GroundTruthFact
        fact = find (λ f. str_eq f.fact_key g.0) facts

        group_returns :
            (o : Option GroundTruthFact)
            → fact ≡ o
            → Returns (IsEmptyMatch facts patterns text) (
                group_claims compiles exec normalize_money normalize_month_day fuel text page_path o
                  g.1)
        group_returns none e = inl refl
        group_returns (some f) e =
            let is_fact = find-In (λ f. str_eq f.fact_key g.0) facts f e in
            pattern_claims-Returns fuel (is_money_fact f) page_path g.1
              (all_In (IsListed (is_money_fact f)) g.1
                (λ p m. (in_all (λ q. In q patterns) g.1 listed.0 p m, f, is_fact, refl)))
              h

    -- With two rounds more than the text has units, the extraction of the claims of a page ends, or one of
    -- the patterns has an empty match in the text of which the normalizer of one of the facts makes nothing.
    -- Every match begins at the place where the search began or behind it, and ends in the text.
    pub extract_claims_end :
        (fuel : ℕ) (page_path : String)
        → size + 2 ≤ fuel
        → (is_some (
              extract_claims_from_text compiles exec normalize_money normalize_month_day fuel text
                page_path facts patterns)
            ≡ true)
          ⊎ IsEmptyMatch facts patterns text
    unfolding extract_claims_from_text
    extract_claims_end fuel page_path h =
        groups_claims-Returns fuel page_path (patterns_by_fact patterns [])
          (patterns_by_fact-All (λ p. In p patterns) patterns []
            (all_In (λ p. In p patterns) patterns (λ p m. m)) tt)
          h
