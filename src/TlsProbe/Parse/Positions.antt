-- ===== src/TlsProbe/Parse/Positions.antt =====
-- Reading bytes by their position, as `parseServerHello` of src/tls-probe.ts does.
use agent_commerce_lab.Prelude.{
  ℕ, zero, suc, ◌+◌, ◌/◌, ◌%◌, ◌<◌, ◌≡◌, refl, some, List, [], ◌∷◌, ◌++◌, length, get_elem?, arith,
}
use agent_commerce_lab.TlsProbe.{u16, u24}
use agent_commerce_lab.TlsProbe.Parse.{byte, read_u16, read_u24}

-- The bytes from a position on.
abbrev pub drop : ℕ → List ℕ → List ℕ
drop zero xs = xs
drop (suc n) [] = []
drop (suc n) (x ∷ xs) = drop n xs

pub get-drop :
    (i x : ℕ) (bytes rest : List ℕ)
    → drop i bytes ≡ x ∷ rest
    → (get_elem? bytes i ≡ some x) × (drop (suc i) bytes ≡ rest)
get-drop zero x [] rest h = cc
get-drop zero x (y ∷ ys) rest h = (cc, cc)
get-drop (suc i) x [] rest h = cc
get-drop (suc i) x (y ∷ ys) rest h = get-drop i x ys rest h

pub length-drop :
    (i : ℕ) (x : ℕ) (bytes xs : List ℕ) → drop i bytes ≡ x ∷ xs → i + 1 + length xs ≡ length bytes
length-drop zero x [] xs h = cc
length-drop zero x (y ∷ ys) xs h = ground arith
length-drop (suc i) x [] xs h = cc
length-drop (suc i) x (y ∷ ys) xs h = omega (arith, length-drop i x ys xs h)

-- A position may be written in another way.
pub at_position :
    (i j : ℕ) (bytes rest : List ℕ) → i ≡ j → drop i bytes ≡ rest → drop j bytes ≡ rest
at_position i j bytes rest e h = rw e at h

pub drop_past :
    (i : ℕ) (bytes xs rest : List ℕ) → drop i bytes ≡ xs ++ rest → drop (i + length xs) bytes ≡ rest
drop_past i bytes [] rest h = at_position i (i + 0) bytes rest (omega arith) h
drop_past i bytes (x ∷ xs) rest h =
    at_position (suc i + length xs) (i + suc (length xs)) bytes rest (omega arith)
      (drop_past (suc i) bytes xs rest (get-drop i x bytes (xs ++ rest) h).1)

pub byte_at : (i x : ℕ) (bytes rest : List ℕ) → drop i bytes ≡ x ∷ rest → byte bytes i ≡ x
byte_at i x bytes rest h = rw (get-drop i x bytes rest h).0 refl

-- Two bytes that `u16` wrote, and what is behind them.
pub read_u16-u16 :
    (i n : ℕ) (bytes rest : List ℕ)
    → n < 65536
    → drop i bytes ≡ u16 n ++ rest
    → (read_u16 bytes i ≡ n) × (drop (i + 2) bytes ≡ rest)
read_u16-u16 i n bytes rest fits h =
    let first = get-drop i (n / 256 % 256) bytes (n % 256 ∷ rest) h in
    let second =
      get-drop (i + 1) (n % 256) bytes rest
        (at_position (suc i) (i + 1) bytes (n % 256 ∷ rest) (omega arith) first.1) in
    (
      rw (first.0, second.0) (omega arith),
      at_position (suc (i + 1)) (i + 2) bytes rest (omega arith) second.1,
    )

-- Three bytes that `u24` wrote.
pub read_u24-u24 :
    (i n : ℕ) (bytes rest : List ℕ)
    → n < 65536
    → drop i bytes ≡ u24 n ++ rest
    → (read_u24 bytes i ≡ n) × (drop (i + 3) bytes ≡ rest)
read_u24-u24 i n bytes rest fits h =
    let first = get-drop i (n / 65536 % 256) bytes (u16 n ++ rest) h in
    let second =
      get-drop (i + 1) (n / 256 % 256) bytes (n % 256 ∷ rest)
        (at_position (suc i) (i + 1) bytes (u16 n ++ rest) (omega arith) first.1) in
    let third =
      get-drop (i + 2) (n % 256) bytes rest
        (at_position (suc (i + 1)) (i + 2) bytes (n % 256 ∷ rest) (omega arith) second.1) in
    (
      rw (first.0, second.0, third.0) (omega arith),
      at_position (suc (i + 2)) (i + 3) bytes rest (omega arith) third.1,
    )
