-- ===== src/SsrfGuard.antt =====
-- src/ssrf-guard.ts: which hosts may be fetched. A host name is its list of code points. `Number` on a
-- part of a dotted address is a parameter: its value where that is a whole number that is not
-- negative. The resolver is a parameter too: what each of its two requests comes to.
pub mod Ranges
pub mod Addresses
pub mod Dotted
pub mod Decision
pub mod Safety
mod Tests
use agent_commerce_lab.Prelude.{
  ℕ, zero, suc, ◌+◌, ◌-◌, ◌*◌, ◌/◌, ◌^◌, Bool, true, false, ◌&&◌, ◌||◌, not, Option, none, some,
  String, List, [], ◌∷◌, ◌++◌, leb, ◌==◌, if◌then◌else◌, any, find, filter, map, is_some,
}
use agent_commerce_lab.Prelude.Match.{codes, fold_lower, after_prefix, begins_with, same_text}

pub record IPv4 : Type 0 where
  pub a : ℕ
  pub b : ℕ
  pub c : ℕ
  pub d : ℕ

pub record Range : Type 0 where
  pub base : IPv4
  pub mask_bits : ℕ

abbrev pub ipv4 : ℕ → ℕ → ℕ → ℕ → IPv4
ipv4 a b c d = record { a = a; b = b; c = c; d = d }

abbrev range : ℕ → ℕ → ℕ → Range
range a b bits = record { base = ipv4 a b 0 0; mask_bits = bits }

abbrev pub blocked_ipv4_ranges : List Range
blocked_ipv4_ranges =
    range 10 0 8 ∷ range 172 16 12 ∷ range 192 168 16 ∷ range 127 0 8 ∷ range 169 254 16 ∷ []

-- `s.split(c)`
abbrev pub put_front : ℕ → List (List ℕ) → List (List ℕ)
put_front c [] = (c ∷ []) ∷ []
put_front c (part ∷ parts) = (c ∷ part) ∷ parts

unfoldable pub split : ℕ → List ℕ → List (List ℕ)
split sep [] = [] ∷ []
split sep (c ∷ s) = if c == sep then [] ∷ split sep s else put_front c (split sep s)

-- Shifts and ors of four bytes are their sum with weights, as no bits overlap.
abbrev pub ipv4_to_int : IPv4 → ℕ
ipv4_to_int ip = ip.a * 2 ^ 24 + ip.b * 2 ^ 16 + ip.c * 2 ^ 8 + ip.d

-- `(ipInt & mask) === (ipv4ToInt(base) & mask)`: the bits above the mask's zeros are equal.
abbrev pub in_range : IPv4 → Range → Bool
in_range ip r =
    ipv4_to_int ip / 2 ^ (32 - r.mask_bits) == ipv4_to_int r.base / 2 ^ (32 - r.mask_bits)

unfoldable pub in_blocked_range : IPv4 → Bool
in_blocked_range ip = any (in_range ip) blocked_ipv4_ranges

abbrev pub byte_of : Option ℕ → Option ℕ
byte_of none = none
byte_of (some n) = if leb n 255 then some n else none

abbrev pub four_bytes : Option ℕ → Option ℕ → Option ℕ → Option ℕ → Option IPv4
four_bytes (some a) (some b) (some c) (some d) = some (ipv4 a b c d)
four_bytes _ _ _ _ = none

abbrev pub is_hex : ℕ → Bool
is_hex c = (leb 48 c && leb c 57) || (leb 97 c && leb c 102)

abbrev pub starts_colon : List ℕ → Bool
starts_colon [] = false
starts_colon (c ∷ s) = c == 58

-- `[0-9a-f]?:`
abbrev pub maybe_hex_colon : List ℕ → Bool
maybe_hex_colon [] = false
maybe_hex_colon (c ∷ s) = c == 58 || (is_hex c && starts_colon s)

-- `/^fe[89ab][0-9a-f]?:/`
abbrev pub link_local : List ℕ → Bool
link_local (f ∷ e ∷ x ∷ s) =
    f == 102 && e == 101 && (x == 56 || x == 57 || x == 97 || x == 98) && maybe_hex_colon s
link_local _ = false

-- `/^f[cd][0-9a-f]{2}:/`
abbrev pub unique_local : List ℕ → Bool
unique_local (f ∷ x ∷ p ∷ q ∷ s) =
    f == 102 && (x == 99 || x == 100) && is_hex p && is_hex q && starts_colon s
unique_local _ = false

-- `.replace(/^\[|\]$/g, "")`
abbrev pub strip_open : List ℕ → List ℕ
strip_open [] = []
strip_open (c ∷ s) = if c == 91 then s else c ∷ s

abbrev pub strip_close : List ℕ → List ℕ
strip_close [] = []
strip_close (c ∷ []) = if c == 93 then [] else c ∷ []
strip_close (c ∷ d ∷ s) = c ∷ strip_close (d ∷ s)

abbrev pub normalized : List ℕ → List ℕ
normalized ip = strip_close (strip_open (map fold_lower ip))

module _ (number : List ℕ → Option ℕ) where
  abbrev pub parts_to_ipv4 : List (List ℕ) → Option IPv4
  parts_to_ipv4 (p ∷ q ∷ r ∷ s ∷ []) =
      four_bytes (byte_of (number p)) (byte_of (number q)) (byte_of (number r)) (byte_of (number s))
  parts_to_ipv4 _ = none

  unfoldable pub parse_ipv4 : List ℕ → Option IPv4
  unfolding split
  parse_ipv4 ip = parts_to_ipv4 (split 46 ip)

  abbrev pub blocked_parts : Option IPv4 → Bool
  blocked_parts none = false
  blocked_parts (some parts) = in_blocked_range parts

  unfoldable pub is_private_ipv4 : List ℕ → Bool
  is_private_ipv4 ip = blocked_parts (parse_ipv4 ip)

  unfoldable pub is_private_ipv6 : List ℕ → Bool
  is_private_ipv6 ip =
      let n = normalized ip in
      if same_text n (codes "::1") || same_text n (codes "::")
      then true
      else if link_local n
      then true
      else if unique_local n
      then true
      else elim (after_prefix (codes "::ffff:") n) [
        | some v4 ↦ if is_some (parse_ipv4 v4) then is_private_ipv4 v4 else false
        | none ↦ false
      ]

  unfoldable pub is_private : List ℕ → Bool
  is_private ip = if any (λ c. c == 58) ip then is_private_ipv6 ip else is_private_ipv4 ip
