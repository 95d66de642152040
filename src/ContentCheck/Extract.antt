-- ===== src/ContentCheck/Extract.antt =====
-- `isMoneyFact` and `extractClaimsFromText` of src/content-check.ts. The regular expressions of the
-- patterns and the two normalizers are parameters: `exec pattern text start` is `re.exec(text)` with
-- `re.lastIndex` at `start`, and `compiles` tells whether `new RegExp` accepts the pattern. The loop
-- over the matches runs on fuel.
pub mod Ends
use agent_commerce_lab.Prelude.{
  ℕ, zero, suc, ◌+◌, Bool, true, false, Option, none, some, String, List, [], ◌∷◌, ◌++◌, ◌==◌, find,
  or_else, if◌then◌else◌,
}
use agent_commerce_lab.Prelude.Text.{str_eq}
use agent_commerce_lab.Prelude.Match.{codes, contains_word}
use agent_commerce_lab.GroundTruth.{
  GroundTruthFact, FactPattern, FactPatternKind, value_pattern, context_pattern, keyword_pattern,
}
use agent_commerce_lab.ContentCheck.Types.{RawClaim, ClaimKind, value_claim, context_claim}

-- A match: where it begins, where the expression stands behind it, its text and its first group.
pub record RegExpMatch : Type 0 where
  pub index : ℕ
  pub last_index : ℕ
  pub whole : String
  pub group : Option String

-- `(fact.unit ?? "").toLowerCase().includes("zar")`
abbrev pub is_money_fact : GroundTruthFact → Bool
is_money_fact fact = contains_word (codes "zar") (codes (or_else fact.unit ""))

-- `byFact.set(p.factKey, …)`: a new key goes to the end.
abbrev pub add_pattern :
    FactPattern → List (String × List FactPattern) → List (String × List FactPattern)
add_pattern p [] = (p.fact_key, p ∷ []) ∷ []
add_pattern p (g ∷ groups) =
    if str_eq g.0 p.fact_key then (g.0, g.1 ++ p ∷ []) ∷ groups else g ∷ add_pattern p groups

abbrev pub patterns_by_fact :
    List FactPattern → List (String × List FactPattern) → List (String × List FactPattern)
patterns_by_fact [] groups = groups
patterns_by_fact (p ∷ ps) groups = patterns_by_fact ps (add_pattern p groups)

abbrev pub claim_kind : FactPatternKind → Option ClaimKind
claim_kind value_pattern = some value_claim
claim_kind context_pattern = some context_claim
claim_kind keyword_pattern = none

-- `m[1] ?? m[0]`
abbrev pub raw_of : RegExpMatch → String
raw_of m = or_else m.group m.whole

-- Two results one after the other, `none` where either ran out of fuel.
infixr 60 ◌then_claims◌
abbrev pub ◌then_claims◌ : Option (List RawClaim) → Option (List RawClaim) → Option (List RawClaim)
none then_claims rest = none
some cs then_claims none = none
some cs then_claims some ds = some (cs ++ ds)

module _ (compiles : String → Bool) (exec : String → String → ℕ → Option RegExpMatch)
    (normalize_money normalize_month_day : String → Option String) where
  abbrev pub normalize : Bool → String → Option String
  normalize money raw = if money then normalize_money raw else normalize_month_day raw

  abbrev pub claim_of : String → ClaimKind → String → String → String → RawClaim
  claim_of key kind page_path raw normalized = record {
    fact_key = key;
    raw = raw;
    normalized = normalized;
    kind = kind;
    page_path = page_path;
  }

  -- `if (m.index === re.lastIndex) re.lastIndex++`
  abbrev pub next_start : RegExpMatch → ℕ
  next_start m = if m.index == m.last_index then m.last_index + 1 else m.last_index

  -- One round: a match that does not normalize goes on from where it ends, a claim from its next start.
  abbrev pub on_normalized :
      FactPattern
      → ClaimKind
      → String
      → (ℕ → Option (List RawClaim))
      → RegExpMatch
      → Option String
      → Option (List RawClaim)
  on_normalized p kind page_path go m none = go m.last_index
  on_normalized p kind page_path go m (some v) =
      some (claim_of p.fact_key kind page_path (raw_of m) v ∷ []) then_claims go (next_start m)

  abbrev pub on_match :
      FactPattern
      → ClaimKind
      → Bool
      → String
      → (ℕ → Option (List RawClaim))
      → Option RegExpMatch
      → Option (List RawClaim)
  on_match p kind money page_path go none = some []
  on_match p kind money page_path go (some m) =
      on_normalized p kind page_path go m (normalize money (raw_of m))

  -- `while ((m = re.exec(text)) !== null)`
  abbrev pub match_loop :
      ℕ → FactPattern → ClaimKind → Bool → String → String → ℕ → Option (List RawClaim)
  match_loop zero p kind money text page_path start = none
  match_loop (suc fuel) p kind money text page_path start =
      on_match p kind money page_path (λ s. match_loop fuel p kind money text page_path s)
        (exec p.pattern text start)

  abbrev pub kind_claims :
      ℕ → FactPattern → Option ClaimKind → Bool → String → String → Option (List RawClaim)
  kind_claims fuel p none money text page_path = some []
  kind_claims fuel p (some kind) money text page_path =
      if compiles p.pattern then match_loop fuel p kind money text page_path 0 else some []

  -- `for (const p of pats)`
  abbrev pub pattern_claims : ℕ → Bool → String → String → List FactPattern → Option (List RawClaim)
  pattern_claims fuel money text page_path [] = some []
  pattern_claims fuel money text page_path (p ∷ ps) =
      kind_claims fuel p (claim_kind p.kind) money text page_path
      then_claims pattern_claims fuel money text page_path ps

  abbrev pub group_claims :
      ℕ → String → String → Option GroundTruthFact → List FactPattern → Option (List RawClaim)
  group_claims fuel text page_path none pats = some []
  group_claims fuel text page_path (some fact) pats =
      pattern_claims fuel (is_money_fact fact) text page_path pats

  abbrev pub groups_claims :
      ℕ
      → String
      → String
      → List GroundTruthFact
      → List (String × List FactPattern)
      → Option (List RawClaim)
  groups_claims fuel text page_path facts [] = some []
  groups_claims fuel text page_path facts (g ∷ groups) =
      group_claims fuel text page_path (find (λ f. str_eq f.fact_key g.0) facts) g.1
      then_claims groups_claims fuel text page_path facts groups

  unfoldable pub extract_claims_from_text :
      ℕ → String → String → List GroundTruthFact → List FactPattern → Option (List RawClaim)
  extract_claims_from_text fuel text page_path facts patterns =
      groups_claims fuel text page_path facts (patterns_by_fact patterns [])
