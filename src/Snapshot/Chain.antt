-- ===== src/Snapshot/Chain.antt =====
-- `fetchWithChain` and `guessCms` of src/snapshot.ts. The rounds of the redirect loop are counted down.
use agent_commerce_lab.Prelude.{
  ℕ, zero, suc, ◌+◌, ◌||◌, not, Option, none, some, String, List, [], ◌∷◌, ◌++◌, if◌then◌else◌,
}
use agent_commerce_lab.Prelude.Text.{truthy, is_empty}
use agent_commerce_lab.Prelude.Match.{codes, contains_word}
use agent_commerce_lab.Web.{
  Web, Url, Response, FetchOutcome, answered, fetch_threw, is_redirect, check_host, blocked_text,
}

pub record ChainResult : Type 0 where
  pub response : Option Response
  pub chain : List String
  pub final_url : Option String
  pub error : Option String

-- The result, or the exception of a URL that does not parse.
pub data ChainFetch : Type 0 where
  chain_fetched : ChainResult → ChainFetch
  chain_threw : ChainFetch

abbrev pub max_hops : ℕ
max_hops = 5

abbrev pub chain_failed : List String → String → ChainFetch
chain_failed chain e =
    chain_fetched (record { response = none; chain = chain; final_url = none; error = some e })

abbrev pub chain_done : List String → String → Response → ChainFetch
chain_done chain current res =
    chain_fetched
      (record { response = some res; chain = chain; final_url = some current; error = none })

module _ (web : Web) where
  abbrev pub chain_redirect :
      (String → ChainFetch) → List String → String → Response → Option String → ChainFetch
  chain_redirect next chain current res none = chain_done chain current res
  chain_redirect next chain current res (some location) =
      if not (truthy (some location))
      then chain_done chain current res
      else elim (web.resolve_url location current) [
        | none ↦ chain_failed chain web.url_error
        | some u ↦ next u.href
      ]

  -- The `try` block of one round; `next` is the rest of the loop.
  abbrev pub chain_answer : (String → ChainFetch) → List String → String → FetchOutcome → ChainFetch
  chain_answer next chain current (fetch_threw e) = chain_failed chain e
  chain_answer next chain current (answered res) =
      if is_redirect res.status
      then chain_redirect next chain current res (res.header "location")
      else chain_done chain current res

  abbrev pub chain_round :
      (String → ChainFetch) → ℕ → List String → String → Option Url → ChainFetch
  chain_round next hop chain current none = chain_threw
  chain_round next hop chain current (some u) =
      let check = check_host web u.hostname in
      if check.blocked
      then chain_failed chain (blocked_text web check)
      else chain_answer next chain current (web.fetch hop current)

  abbrev pub chain_loop : ℕ → ℕ → List String → String → ChainFetch
  chain_loop zero hop chain current = chain_fetched (record {
    response = none;
    chain = chain;
    final_url = some current;
    error = some "too many redirects";
  })
  chain_loop (suc n) hop chain current =
      chain_round (λ url. chain_loop n (hop + 1) (chain ++ current ∷ []) url) hop
        (chain ++ current ∷ []) current (web.parse_url current)

  unfoldable pub fetch_with_chain : String → ChainFetch
  fetch_with_chain url = chain_loop (max_hops + 1) 0 [] url

-- `headers.get("x-powered-by") || ""`, and whether it says something.
abbrev pub powered_cms : Option String → Option String
powered_cms none = none
powered_cms (some p) = if is_empty p then none else some p

-- The content of the generator tag is a parameter, `none` where the expression does not match.
abbrev pub guess_cms : (String → Option String) → Option String → String → Option String
guess_cms generator powered_by body = elim (generator body) [
  | some g ↦ some g
  | none ↦
      if contains_word (codes "wp-content") (codes body)
        || contains_word (codes "wp-includes") (codes body)
      then some "WordPress (inferred from markup)"
      else powered_cms powered_by
]
