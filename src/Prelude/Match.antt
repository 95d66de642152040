-- ===== src/Prelude/Match.antt =====
-- Walking a text by its code points: the pieces of the regular expressions that the program uses.
-- Letters match in either case by their ASCII fold, which is what the flag `i` does for the ASCII
-- letters of these expressions.
use Prim.Native.Char.{code}
use Prim.Native.String.{String}
use agent_commerce_lab.Prelude.{
  ◌≡◌, refl, arith, ℕ, ◌+◌, ◌-◌, ◌*◌, Bool, true, false, ◌&&◌, ◌||◌, Option, none, some, List, [],
  ◌∷◌, leb, ◌==◌, if◌then◌else◌,
}

abbrev pub codes : String → List ℕ
codes String.[] = []
codes (String.◌∷◌ c s) = code c ∷ codes s

abbrev between : ℕ → ℕ → ℕ → Bool
between lo hi c = leb lo c && leb c hi

-- `\s`, and what `trim` removes.
unfoldable pub is_space : ℕ → Bool
is_space c =
    between 9 13 c
    || c == 32
    || c == 160
    || c == 5760
    || between 8192 8202 c
    || c == 8232
    || c == 8233
    || c == 8239
    || c == 8287
    || c == 12288
    || c == 65279

abbrev pub fold_upper : ℕ → ℕ
fold_upper c = if between 97 122 c then c - 32 else c

abbrev pub fold_lower : ℕ → ℕ
fold_lower c = if between 65 90 c then c + 32 else c

unfoldable pub trim_start : List ℕ → List ℕ
trim_start [] = []
trim_start (c ∷ s) = if is_space c then trim_start s else c ∷ s

abbrev drop_blank : ℕ → List ℕ → List ℕ
drop_blank c [] = if is_space c then [] else c ∷ []
drop_blank c (d ∷ s) = c ∷ d ∷ s

unfoldable pub trim_end : List ℕ → List ℕ
trim_end [] = []
trim_end (c ∷ s) = drop_blank c (trim_end s)

unfoldable pub trim : List ℕ → List ℕ
trim s = trim_end (trim_start s)

-- The rest behind a prefix, in either case, and `none` where the text begins otherwise.
abbrev pub after_prefix : List ℕ → List ℕ → Option (List ℕ)
after_prefix [] s = some s
after_prefix (p ∷ ps) [] = none
after_prefix (p ∷ ps) (c ∷ s) =
    let rest = after_prefix ps s in if fold_lower p == fold_lower c then rest else none

abbrev pub begins_with : List ℕ → List ℕ → Bool
begins_with ps s = elim (after_prefix ps s) [ none ↦ false | some rest ↦ true ]

-- `/word/i.test(s)`
unfoldable pub contains_word : List ℕ → List ℕ → Bool
contains_word ps [] = begins_with ps []
contains_word ps (c ∷ s) = begins_with ps (c ∷ s) || contains_word ps s

abbrev pub same_text : List ℕ → List ℕ → Bool
same_text [] [] = true
same_text (a ∷ s) (b ∷ t) = a == b && same_text s t
same_text _ _ = false

pub same_text_refl : (s : List ℕ) → same_text s s ≡ true
same_text_refl [] = refl
same_text_refl (c ∷ s) = ground (arith, same_text_refl s)

-- The value of the digits at the front, `none` where there is none: `(\d+)` and `parseInt(…, 10)`.
abbrev pub digits_from : ℕ → List ℕ → ℕ
digits_from acc [] = acc
digits_from acc (c ∷ s) =
    let more = digits_from (acc * 10 + (c - 48)) s in if between 48 57 c then more else acc

abbrev pub number_at : List ℕ → Option ℕ
number_at [] = none
number_at (c ∷ s) = if between 48 57 c then some (digits_from 0 (c ∷ s)) else none
