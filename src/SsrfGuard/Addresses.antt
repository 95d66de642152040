-- ===== src/SsrfGuard/Addresses.antt =====
-- Which texts are private addresses, written out apart from the tests of src/ssrf-guard.ts.
use agent_commerce_lab.Prelude.{
  ℕ, ◌≤◌, ◌≡◌, ◌⊎◌, refl, sym, ap, ◌∙◌, inl, inr, Bool, true, false, ◌||◌, Option, none, some, List,
  [], ◌∷◌, ◌++◌, All, map, any, is_some, leb, ◌==◌, arith, if◌then◌else◌,
}
use agent_commerce_lab.Prelude.Match.{codes, fold_lower, same_text, after_prefix}
use agent_commerce_lab.SsrfGuard.{
  IPv4, in_blocked_range, split, parse_ipv4, is_private_ipv4, is_private_ipv6, is_hex, link_local,
  unique_local, strip_open, strip_close, normalized, maybe_hex_colon,
}
use agent_commerce_lab.SsrfGuard.Ranges.{IsIPv4, in_blocked_range_lem}

-- 10.*, 172.16.* to 172.31.*, 192.168.*, 127.* and 169.254.*.
pub data IsPrivateBytes : IPv4 → Type 0 where
  ten : (ip : IPv4) → ip.a ≡ 10 → IsPrivateBytes ip
  one_seven_two : (ip : IPv4) → ip.a ≡ 172 → 16 ≤ ip.b → ip.b ≤ 31 → IsPrivateBytes ip
  one_nine_two : (ip : IPv4) → ip.a ≡ 192 → ip.b ≡ 168 → IsPrivateBytes ip
  loopback_bytes : (ip : IPv4) → ip.a ≡ 127 → IsPrivateBytes ip
  link_local_bytes : (ip : IPv4) → ip.a ≡ 169 → ip.b ≡ 254 → IsPrivateBytes ip

blocked_private : (ip : IPv4) → IsIPv4 ip → IsPrivateBytes ip → in_blocked_range ip ≡ true
blocked_private ip h (ten _ a) = rw (in_blocked_range_lem ip h) (ground arith)
blocked_private ip h (one_seven_two _ a lo hi) = rw (in_blocked_range_lem ip h) (ground arith)
blocked_private ip h (one_nine_two _ a b) = rw (in_blocked_range_lem ip h) (ground arith)
blocked_private ip h (loopback_bytes _ a) = rw (in_blocked_range_lem ip h) (ground arith)
blocked_private ip h (link_local_bytes _ a b) = rw (in_blocked_range_lem ip h) (ground arith)

split-dot :
    (p rest : List ℕ)
    → All (λ c. (c == 46) ≡ false) p
    → split 46 (p ++ 46 ∷ rest) ≡ p ∷ split 46 rest
unfolding split
split-dot [] rest h = refl
split-dot (c ∷ p) rest h = rw (h.0, split-dot p rest h.1) refl

split_last : (p : List ℕ) → All (λ c. (c == 46) ≡ false) p → split 46 p ≡ p ∷ []
unfolding split
split_last [] h = refl
split_last (c ∷ p) h = rw (h.0, split_last p h.1) refl

-- A decimal digit or one of the letters a to f.
pub data IsHexDigit : ℕ → Type 0 where
  digit : (c : ℕ) → 48 ≤ c → c ≤ 57 → IsHexDigit c
  letter : (c : ℕ) → 97 ≤ c → c ≤ 102 → IsHexDigit c

is_hex-IsHexDigit : (c : ℕ) → IsHexDigit c → is_hex c ≡ true
is_hex-IsHexDigit c (digit _ lo hi) = ground arith
is_hex-IsHexDigit c (letter _ lo hi) = ground arith

module _ (number : List ℕ → Option ℕ) where
  -- Four bytes, written with dots between them.
  pub record IsDotted (text : List ℕ) (ip : IPv4) : Type 0 where
    pub p : List ℕ
    pub q : List ℕ
    pub r : List ℕ
    pub s : List ℕ
    pub joined : text ≡ p ++ 46 ∷ (q ++ 46 ∷ (r ++ 46 ∷ s))
    pub p_part : All (λ c. (c == 46) ≡ false) p
    pub q_part : All (λ c. (c == 46) ≡ false) q
    pub r_part : All (λ c. (c == 46) ≡ false) r
    pub s_part : All (λ c. (c == 46) ≡ false) s
    pub a_value : number p ≡ some ip.a
    pub b_value : number q ≡ some ip.b
    pub c_value : number r ≡ some ip.c
    pub d_value : number s ≡ some ip.d
    pub bytes : IsIPv4 ip

  byte_kept : (n : ℕ) → n ≤ 255 → leb n 255 ≡ true
  byte_kept n h = ground arith

  pub parse_ipv4-IsDotted :
      (text : List ℕ) (ip : IPv4) → IsDotted text ip → parse_ipv4 number text ≡ some ip
  unfolding parse_ipv4
  parse_ipv4-IsDotted text ip h =
      let parts : split 46 text ≡ h.p ∷ h.q ∷ h.r ∷ h.s ∷ [] =
        rw
          (
            h.joined,
            split-dot h.p (h.q ++ 46 ∷ (h.r ++ 46 ∷ h.s)) h.p_part,
            split-dot h.q (h.r ++ 46 ∷ h.s) h.q_part,
            split-dot h.r h.s h.r_part,
            split_last h.s h.s_part,
          )
          refl in
      rw
        (
          parts,
          h.a_value,
          h.b_value,
          h.c_value,
          h.d_value,
          byte_kept ip.a h.bytes.a_byte,
          byte_kept ip.b h.bytes.b_byte,
          byte_kept ip.c h.bytes.c_byte,
          byte_kept ip.d h.bytes.d_byte,
        )
        refl

  -- A private IPv4 address in dotted form.
  pub record IsPrivateIpv4 (text : List ℕ) : Type 0 where
    pub ip : IPv4
    pub dotted : IsDotted text ip
    pub private : IsPrivateBytes ip

  pub is_private_ipv4-IsPrivateIpv4 :
      (text : List ℕ) → IsPrivateIpv4 text → is_private_ipv4 number text ≡ true
  unfolding is_private_ipv4
  is_private_ipv4-IsPrivateIpv4 text h =
      rw (parse_ipv4-IsDotted text h.ip h.dotted) (blocked_private h.ip h.dotted.bytes h.private)

  -- A private IPv6 address in lower case, without brackets: `::1`, `::`, `fe8` to `feb` with at most one more
  -- digit before the first colon, `fc` or `fd` with two more, or `::ffff:` before a private IPv4 address in
  -- dotted form.
  pub data IsPrivateIpv6 : List ℕ → Type 0 where
    loopback : IsPrivateIpv6 (codes "::1")
    unspecified : IsPrivateIpv6 (codes "::")
    link_local_short :
        (x : ℕ) (rest : List ℕ)
        → (x ≡ 56) ⊎ ((x ≡ 57) ⊎ ((x ≡ 97) ⊎ (x ≡ 98)))
        → IsPrivateIpv6 (102 ∷ 101 ∷ x ∷ 58 ∷ rest)
    link_local_long :
        (x h : ℕ) (rest : List ℕ)
        → (x ≡ 56) ⊎ ((x ≡ 57) ⊎ ((x ≡ 97) ⊎ (x ≡ 98)))
        → IsHexDigit h
        → IsPrivateIpv6 (102 ∷ 101 ∷ x ∷ h ∷ 58 ∷ rest)
    unique_local_address :
        (x p q : ℕ) (rest : List ℕ)
        → (x ≡ 99) ⊎ (x ≡ 100)
        → IsHexDigit p
        → IsHexDigit q
        → IsPrivateIpv6 (102 ∷ x ∷ p ∷ q ∷ 58 ∷ rest)
    mapped : (s : List ℕ) → IsPrivateIpv4 s → IsPrivateIpv6 (codes "::ffff:" ++ s)

  -- `isPrivateIPv6` on a text that is normalized.
  abbrev finds : List ℕ → Bool
  finds n =
      if same_text n (codes "::1") || same_text n (codes "::")
      then true
      else if link_local n
      then true
      else if unique_local n
      then true
      else elim (after_prefix (codes "::ffff:") n) [
        | some v4 ↦ if is_some (parse_ipv4 number v4) then is_private_ipv4 number v4 else false
        | none ↦ false
      ]

  found_link :
      (x : ℕ) (s : List ℕ)
      → (x ≡ 56) ⊎ ((x ≡ 57) ⊎ ((x ≡ 97) ⊎ (x ≡ 98)))
      → maybe_hex_colon s ≡ true
      → link_local (102 ∷ 101 ∷ x ∷ s) ≡ true
  found_link x s (inl e) h = rw (e, h) refl
  found_link x s (inr (inl e)) h = rw (e, h) refl
  found_link x s (inr (inr (inl e))) h = rw (e, h) refl
  found_link x s (inr (inr (inr e))) h = rw (e, h) refl

  found_unique :
      (x p q : ℕ) (s : List ℕ)
      → (x ≡ 99) ⊎ (x ≡ 100)
      → IsHexDigit p
      → IsHexDigit q
      → unique_local (102 ∷ x ∷ p ∷ q ∷ 58 ∷ s) ≡ true
  found_unique x p q s (inl e) hp hq = rw (e, is_hex-IsHexDigit p hp, is_hex-IsHexDigit q hq) refl
  found_unique x p q s (inr e) hp hq = rw (e, is_hex-IsHexDigit p hp, is_hex-IsHexDigit q hq) refl

  hex_colon : (h : ℕ) (s : List ℕ) → IsHexDigit h → maybe_hex_colon (h ∷ 58 ∷ s) ≡ true
  hex_colon h s d = rw (is_hex-IsHexDigit h d) (ground arith)

  finds-IsPrivateIpv6 : (n : List ℕ) → IsPrivateIpv6 n → finds n ≡ true
  finds-IsPrivateIpv6 n loopback = refl
  finds-IsPrivateIpv6 n unspecified = refl
  finds-IsPrivateIpv6 n (link_local_short x rest e) = rw (found_link x (58 ∷ rest) e refl) refl
  finds-IsPrivateIpv6 n (link_local_long x h rest e d) =
      rw (found_link x (h ∷ 58 ∷ rest) e (hex_colon h rest d)) refl
  finds-IsPrivateIpv6 n (unique_local_address x p q rest e hp hq) =
      rw (found_unique x p q rest e hp hq) (ground arith)
  finds-IsPrivateIpv6 n (mapped s private) =
      rw (parse_ipv4-IsDotted s private.ip private.dotted, is_private_ipv4-IsPrivateIpv4 s private)
        refl

  -- A private IPv6 address in either case, in brackets or without any.
  pub record IsPrivateLiteral (text : List ℕ) : Type 0 where
    pub address : List ℕ
    pub private : IsPrivateIpv6 address
    pub written :
        (map fold_lower text ≡ 91 ∷ (address ++ 93 ∷ []))
        ⊎ ((map fold_lower text ≡ address) × All (λ c. ((c == 91) || (c == 93)) ≡ false) address)

  strip_close-bracket : (n : List ℕ) → strip_close (n ++ 93 ∷ []) ≡ n
  strip_close-bracket [] = refl
  strip_close-bracket (c ∷ []) = refl
  strip_close-bracket (c ∷ d ∷ n) = ap (λ (s : List ℕ). c ∷ s) (strip_close-bracket (d ∷ n))

  strip_close_bare :
      (n : List ℕ) → All (λ c. ((c == 91) || (c == 93)) ≡ false) n → strip_close n ≡ n
  strip_close_bare [] h = refl
  strip_close_bare (c ∷ []) h =
      let other : (c == 93) ≡ false = let both = h.0 in ground arith in rw other refl
  strip_close_bare (c ∷ d ∷ n) h = ap (λ (s : List ℕ). c ∷ s) (strip_close_bare (d ∷ n) h.1)

  strip_open_bare : (n : List ℕ) → All (λ c. ((c == 91) || (c == 93)) ≡ false) n → strip_open n ≡ n
  strip_open_bare [] h = refl
  strip_open_bare (c ∷ n) h =
      let other : (c == 91) ≡ false = let both = h.0 in ground arith in rw other refl

  pub is_private_ipv6-IsPrivateLiteral :
      (text : List ℕ) → IsPrivateLiteral text → is_private_ipv6 number text ≡ true
  unfolding is_private_ipv6
  is_private_ipv6-IsPrivateLiteral text h =
      ap finds (is_normal h.written) ∙ finds-IsPrivateIpv6 h.address h.private
    where
      is_normal :
          (map fold_lower text ≡ 91 ∷ (h.address ++ 93 ∷ []))
            ⊎ ((map fold_lower text ≡ h.address)
                × All (λ c. ((c == 91) || (c == 93)) ≡ false) h.address)
          → normalized text ≡ h.address
      is_normal (inl e) =
          ap (λ (s : List ℕ). strip_close (strip_open s)) e ∙ strip_close-bracket h.address
      is_normal (inr e) =
          ap (λ (s : List ℕ). strip_close (strip_open s)) e.0
          ∙ (ap strip_close (strip_open_bare h.address e.1) ∙ strip_close_bare h.address e.1)

  abbrev pub colon_in : List ℕ → Bool
  colon_in s = any (λ c. c == 58) s

  colon_behind : (s t : List ℕ) → colon_in s ≡ true → colon_in (s ++ t) ≡ true
  colon_behind [] t h = cc
  colon_behind (c ∷ s) t h = ground (arith, colon_behind s t)

  fold_lower-colon : (c : ℕ) → (fold_lower c == 58) ≡ (c == 58)
  fold_lower-colon c = ground arith

  colon_kept : (s : List ℕ) → colon_in (map fold_lower s) ≡ colon_in s
  colon_kept [] = refl
  colon_kept (c ∷ s) = rw (fold_lower-colon c, colon_kept s) refl

  private_colon : (n : List ℕ) → IsPrivateIpv6 n → colon_in n ≡ true
  private_colon n loopback = refl
  private_colon n unspecified = refl
  private_colon n (link_local_short x rest e) = ground arith
  private_colon n (link_local_long x h rest e d) = ground arith
  private_colon n (unique_local_address x p q rest e hp hq) = ground arith
  private_colon n (mapped s private) = refl

  -- A private IPv6 address has a colon.
  pub literal_colon : (text : List ℕ) → IsPrivateLiteral text → any (λ c. c == 58) text ≡ true
  literal_colon text h = sym (colon_kept text) ∙ written_colon h.written
    where
      written_colon :
          (map fold_lower text ≡ 91 ∷ (h.address ++ 93 ∷ []))
            ⊎ ((map fold_lower text ≡ h.address)
                × All (λ c. ((c == 91) || (c == 93)) ≡ false) h.address)
          → colon_in (map fold_lower text) ≡ true
      written_colon (inl e) =
          ap colon_in e ∙ colon_behind h.address (93 ∷ []) (private_colon h.address h.private)
      written_colon (inr e) = ap colon_in e.0 ∙ private_colon h.address h.private
