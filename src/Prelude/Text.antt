-- ===== src/Prelude/Text.antt =====
-- Texts: equality and order tests, and the decimal numeral of a number.
use Prim.Native.Nat.{ℕ, zero, suc, ◌+◌, ◌-◌, ◌*◌, ◌/◌, ◌%◌, ◌<◌}
use Prim.Native.Char.{code}
use Prim.Native.String
use Prim.Native.String.{String, [], ◌∷◌, compare}
use mathlib.Core.Path.{◌≡◌, refl, sym, ap, ◌∙◌}
use mathlib.Core.Bool.{Bool, true, false, not}
use mathlib.Core.Option.{Option, none, some}
use native.Mathlib.Omega.{arith}
use text.Mathlib.Text.{◌==◌, is_le, is_lt}
use text.Mathlib.TextLemmas.{nil-append, cons-append}
use agent_commerce_lab.Prelude.Tests.{ltb, if◌then◌else◌, Bool-cases}
use mathlib.Core.Logic.{inl, inr}

-- `a === b` on strings
abbrev pub str_eq : String → String → Bool
str_eq a b = a == b

-- `a <= b` and `a < b` on strings
abbrev pub str_leb : String → String → Bool
str_leb a b = is_le (compare a b)

abbrev pub str_ltb : String → String → Bool
str_ltb a b = is_lt (compare a b)

-- Concatenation, as `${a}${b}` writes it.
infixr 65 ◌<>◌
abbrev pub ◌<>◌ : String → String → String
a <> b = String.◌++◌ a b

abbrev pub is_empty : String → Bool
is_empty [] = true
is_empty (c ∷ s) = false

-- A nullable text as a condition: null and the empty text are false.
abbrev pub truthy : Option String → Bool
truthy none = false
truthy (some s) = not (is_empty s)

-- `s.slice(0, n)`
abbrev pub slice_to : ℕ → String → String
slice_to zero s = []
slice_to (suc n) [] = []
slice_to (suc n) (c ∷ s) = c ∷ slice_to n s

digit : ℕ → String
digit zero = "0"
digit (suc zero) = "1"
digit (suc (suc zero)) = "2"
digit (suc (suc (suc zero))) = "3"
digit (suc (suc (suc (suc zero)))) = "4"
digit (suc (suc (suc (suc (suc zero))))) = "5"
digit (suc (suc (suc (suc (suc (suc zero)))))) = "6"
digit (suc (suc (suc (suc (suc (suc (suc zero))))))) = "7"
digit (suc (suc (suc (suc (suc (suc (suc (suc zero)))))))) = "8"
digit _ = "9"

-- The fuel is at least the number of digits, since each round divides by 10.
decimal_from : ℕ → ℕ → String
decimal_from zero n = []
decimal_from (suc f) n =
    let longer = decimal_from f (n / 10) <> digit (n % 10) in if ltb n 10 then digit n else longer

-- `String(n)` of a whole number.
unfoldable pub decimal : ℕ → String
unfolding decimal_from digit
decimal n = decimal_from (suc n) n

-- The value of a numeral, read from the left.
read_from : ℕ → String → ℕ
read_from acc [] = acc
read_from acc (c ∷ s) = read_from (acc * 10 + (code c - b'0')) s

read_from-append : (acc : ℕ) (s t : String) → read_from acc (s <> t) ≡ read_from (read_from acc s) t
unfolding read_from
read_from-append acc [] t = rw nil-append refl
read_from-append acc (c ∷ s) t = rw cons-append (read_from-append (acc * 10 + (code c - b'0')) s t)

read_from-digit : (acc d : ℕ) → d < 10 → read_from acc (digit d) ≡ acc * 10 + d
unfolding read_from digit
read_from-digit acc zero h = omega arith
read_from-digit acc (suc zero) h = omega arith
read_from-digit acc (suc (suc zero)) h = omega arith
read_from-digit acc (suc (suc (suc zero))) h = omega arith
read_from-digit acc (suc (suc (suc (suc zero)))) h = omega arith
read_from-digit acc (suc (suc (suc (suc (suc zero))))) h = omega arith
read_from-digit acc (suc (suc (suc (suc (suc (suc zero)))))) h = omega arith
read_from-digit acc (suc (suc (suc (suc (suc (suc (suc zero))))))) h = omega arith
read_from-digit acc (suc (suc (suc (suc (suc (suc (suc (suc zero)))))))) h = omega arith
read_from-digit acc (suc (suc (suc (suc (suc (suc (suc (suc (suc n))))))))) h = omega arith

read_from-decimal_from : (f n : ℕ) → n < f → read_from 0 (decimal_from f n) ≡ n
unfolding decimal_from
read_from-decimal_from zero n h = elim h [ ]
read_from-decimal_from (suc f) n h = elim (Bool-cases (ltb n 10)) [
  | inl small ↦ rw small (omega (arith, read_from-digit 0 n (ground arith)))
  | inr big ↦
      rw (big, read_from-append 0 (decimal_from f (n / 10)) (digit (n % 10)))
        (rw (read_from-decimal_from f (n / 10) (ground arith))
          (omega (arith, read_from-digit (n / 10) (n % 10) (omega arith))))
]

-- Different numbers have different numerals.
pub decimal_injective : (n m : ℕ) → decimal n ≡ decimal m → n ≡ m
unfolding decimal
decimal_injective n m e =
    sym (read_from-decimal_from (suc n) n (omega arith))
    ∙ ap (read_from 0) e
    ∙ read_from-decimal_from (suc m) m (omega arith)

decimal_test : decimal 1204 ≡ "1204"
unfolding decimal
decimal_test = refl
