-- ===== src/ContentCheck/Classify/Sets.antt =====
-- The sets of claimed values in `classifyPages` of src/content-check.ts.
use agent_commerce_lab.Prelude.{
  ◌≡◌, refl, Bool, true, ◌&&◌, ◌||◌, String, List, [], ◌∷◌, any, any-append, arith, Bool-cases, inl,
  inr,
}
use agent_commerce_lab.Prelude.Text.{str_eq}
use agent_commerce_lab.ContentCheck.Types.{RawClaim, PageContent}
use agent_commerce_lab.ContentCheck.Classify.{has_value, add_value, add_claims, all_values}
use text.Mathlib.TextEquality.{eq_iff}

abbrev pub claims_value : String → String → RawClaim → Bool
claims_value key v c = str_eq c.fact_key key && str_eq c.normalized v

pub str_eq→≡ : (a b : String) → str_eq a b ≡ true → a ≡ b
str_eq→≡ a b h = (eq_iff a b).0 h

pub str_eq_refl : (a : String) → str_eq a a ≡ true
str_eq_refl a = (eq_iff a a).1 refl

has_value-add_value :
    (x v : String) (s : List String) → has_value x (add_value v s) ≡ (has_value x s || str_eq v x)
has_value-add_value x v s = elim (Bool-cases (str_eq v x)) [
  | inl same ↦
      rw (str_eq→≡ v x same)
        (ground (arith, any-append (λ y. str_eq y x) s (x ∷ []), str_eq_refl x))
  | inr other ↦ ground (arith, any-append (λ y. str_eq y x) s (v ∷ []))
]

-- A value is in the set exactly if it was there before or a claim of the fact has it.
pub has_value-add_claims :
    (key x : String) (cs : List RawClaim) (s : List String)
    → has_value x (add_claims key cs s) ≡ (has_value x s || any (claims_value key x) cs)
has_value-add_claims key x [] s = ground arith
has_value-add_claims key x (c ∷ cs) s = elim (Bool-cases (str_eq c.fact_key key)) [
  | inl mine ↦ rw mine (
      ground (
        arith,
        has_value-add_claims key x cs (add_value c.normalized s),
        has_value-add_value x c.normalized s,
      ))
  | inr other ↦ rw other (has_value-add_claims key x cs s)
]

pub has_value-all_values :
    (key x : String) (ps : List PageContent) (s : List String)
    → has_value x (all_values key ps s)
      ≡ (has_value x s || any (λ p. any (claims_value key x) p.claims) ps)
has_value-all_values key x [] s = ground arith
has_value-all_values key x (p ∷ ps) s = ground (
  arith,
  has_value-all_values key x ps (add_claims key p.claims s),
  has_value-add_claims key x p.claims s,
)
