-- ===== src/Prelude/TextOrder.antt =====
-- The order of texts by code points, which is that of ISO dates and timestamps by time.
use Prim.Native.Nat.{ℕ, Ordering, compare as compare_ℕ}
use Prim.Native.Char.{Char, code}
use Prim.Native.String.{String, [], ◌∷◌, compare, then}
use Prim.Native.String.compare as C
use mathlib.Core.Path.{◌≡◌, refl, sym, ap, ◌∙◌}
use mathlib.Core.Logic.{◌≢◌, ◌⊎◌, inl, inr}
use mathlib.Core.Bool.{Bool, true, false, not}
use native.Mathlib.Omega.{arith}
use text.Mathlib.Text.{is_le, is_lt}
use text.Mathlib.TextEquality.{path_by_compare}
use agent_commerce_lab.Prelude.Text.{str_leb, str_ltb}

abbrev flip : Ordering → Ordering
flip Ordering.lt = Ordering.gt
flip Ordering.eq = Ordering.eq
flip Ordering.gt = Ordering.lt

compare_ℕ-flip : (a b : ℕ) → compare_ℕ a b ≡ flip (compare_ℕ b a)
compare_ℕ-flip a b = ground arith

flip-then : (o p : Ordering) → then (flip o) (flip p) ≡ flip (then o p)
flip-then Ordering.lt p = refl
flip-then Ordering.eq p = refl
flip-then Ordering.gt p = refl

cons-cons :
    (c d : Char) (s t : String)
    → compare (c ∷ s) (d ∷ t) ≡ then (compare_ℕ (code c) (code d)) (compare s t)
cons-cons c d s t = λ i. C.cons-cons c d s t i

nil-cons : (d : Char) (t : String) → compare [] (d ∷ t) ≡ Ordering.lt
nil-cons d t = λ i. C.nil-cons d t i

cons-nil : (c : Char) (s : String) → compare (c ∷ s) [] ≡ Ordering.gt
cons-nil c s = λ i. C.cons-nil c s i

compare-flip : (s t : String) → compare s t ≡ flip (compare t s)
compare-flip [] [] = refl
compare-flip [] (d ∷ t) = rw (nil-cons d t, cons-nil d t) refl
compare-flip (c ∷ s) [] = rw (nil-cons c s, cons-nil c s) refl
compare-flip (c ∷ s) (d ∷ t) =
    rw (cons-cons c d s t, cons-cons d c t s, compare_ℕ-flip (code c) (code d), compare-flip s t)
      (flip-then (compare_ℕ (code d) (code c)) (compare t s))

lt_of_flip : (o : Ordering) → is_lt o ≡ not (is_le (flip o))
lt_of_flip Ordering.lt = refl
lt_of_flip Ordering.eq = refl
lt_of_flip Ordering.gt = refl

-- One text is before another exactly if the other is not at or before it.
pub ltb-not-leb : (s t : String) → str_ltb s t ≡ not (str_leb t s)
ltb-not-leb s t = rw (compare-flip t s) (lt_of_flip (compare s t))

gt_not_le : false ≢ true
gt_not_le h = ground arith

then_trans :
    (a b c : ℕ) (o p q : Ordering)
    → (is_le o ≡ true → is_le p ≡ true → is_le q ≡ true)
    → is_le (then (compare_ℕ a b) o) ≡ true
    → is_le (then (compare_ℕ b c) p) ≡ true
    → is_le (then (compare_ℕ a c) q) ≡ true
then_trans a b c o p q h k l = ground arith

-- The order on texts is transitive.
pub leb_trans : (s t u : String) → str_leb s t ≡ true → str_leb t u ≡ true → str_leb s u ≡ true
leb_trans [] t [] h k = refl
leb_trans [] t (e ∷ u) h k = rw (nil-cons e u) refl
leb_trans (c ∷ s) [] u h k = absurd (gt_not_le (sym (ap is_le (cons-nil c s)) ∙ h))
leb_trans (c ∷ s) (d ∷ t) [] h k = absurd (gt_not_le (sym (ap is_le (cons-nil d t)) ∙ k))
leb_trans (c ∷ s) (d ∷ t) (e ∷ u) h k =
    ap is_le (cons-cons c e s u)
    ∙ then_trans (code c) (code d) (code e) (compare s t) (compare t u) (compare s u)
        (leb_trans s t u) (sym (ap is_le (cons-cons c d s t)) ∙ h)
        (sym (ap is_le (cons-cons d e t u)) ∙ k)

le_of_lt : (o : Ordering) → is_lt o ≡ true → is_le o ≡ true
le_of_lt Ordering.lt h = refl
le_of_lt Ordering.eq h = refl
le_of_lt Ordering.gt h = h

pub ltb→leb : (s t : String) → str_ltb s t ≡ true → str_leb s t ≡ true
ltb→leb s t h = le_of_lt (compare s t) h

cancel_negation : (b : Bool) → not b ≡ false → b ≡ true
cancel_negation true h = refl
cancel_negation false h = sym h

-- One text is at or before another that is not before it.
pub not_ltb→leb : (s t : String) → str_ltb s t ≡ false → str_leb t s ≡ true
not_ltb→leb s t h = cancel_negation (str_leb t s) (sym (ltb-not-leb s t) ∙ h)

le_of_same : (n : ℕ) (o : Ordering) → is_le o ≡ true → is_le (then (compare_ℕ n n) o) ≡ true
le_of_same n o h = ground arith

pub leb_refl : (s : String) → str_leb s s ≡ true
leb_refl [] = refl
leb_refl (c ∷ s) = ap is_le (cons-cons c c s s) ∙ le_of_same (code c) (compare s s) (leb_refl s)

is_le-cases : (o : Ordering) → is_le o ≡ true → (o ≡ Ordering.eq) ⊎ (is_lt o ≡ true)
is_le-cases Ordering.lt h = inr refl
is_le-cases Ordering.eq h = inl refl
is_le-cases Ordering.gt h = absurd (gt_not_le h)

-- A text at or before another is the same text or before it.
pub leb-cases : (s t : String) → str_leb s t ≡ true → (s ≡ t) ⊎ (str_ltb s t ≡ true)
leb-cases s t h = elim (is_le-cases (compare s t) h) [
  | inl same ↦ inl (path_by_compare s t same)
  | inr before ↦ inr before
]
