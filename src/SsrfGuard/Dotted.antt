-- ===== src/SsrfGuard/Dotted.antt =====
-- The dotted form of the addresses that `parseIPv4` of src/ssrf-guard.ts reads.
use agent_commerce_lab.Prelude.{
  ℕ, ◌≤◌, ◌≡◌, ◌≢◌, refl, ap, inl, inr, false, Option, none, some, List, [], ◌∷◌, ◌++◌, All, leb,
  ◌==◌, arith, Bool-cases,
}
use agent_commerce_lab.SsrfGuard.{
  IPv4, ipv4, split, put_front, byte_of, four_bytes, parts_to_ipv4, parse_ipv4,
}
use agent_commerce_lab.SsrfGuard.Addresses.{IsDotted}

abbrev NoDot : List ℕ → Type 0
NoDot s = All (λ c. (c == 46) ≡ false) s

-- The last part of a text, or the first one with what is behind its dot.
data IsCut (s p : List ℕ) (ps : List (List ℕ)) : Type 0 where
  last_part : ps ≡ [] → s ≡ p → NoDot p → IsCut s p ps
  first_part : (rest : List ℕ) → s ≡ p ++ 46 ∷ rest → split 46 rest ≡ ps → NoDot p → IsCut s p ps

put_front_filled : (c : ℕ) (o : List (List ℕ)) → put_front c o ≢ []
put_front_filled c [] h = cc
put_front_filled c (q ∷ qs) h = cc

split_filled : (s : List ℕ) → split 46 s ≢ []
unfolding split
split_filled [] h = cc
split_filled (c ∷ s) h = elim (Bool-cases (c == 46)) [
  | inl dot ↦ let impossible : [] ∷ split 46 s ≡ [] = rw dot at h in cc
  | inr other ↦
      let impossible : put_front c (split 46 s) ≡ [] = rw other at h in
      put_front_filled c (split 46 s) impossible
]

-- One more unit in front of the first part.
longer-IsCut :
    (c : ℕ) (s p : List ℕ) (ps : List (List ℕ))
    → (c == 46) ≡ false
    → IsCut s p ps
    → IsCut (c ∷ s) (c ∷ p) ps
longer-IsCut c s p ps other (last_part e same none_left) =
    last_part e (ap (λ (x : List ℕ). c ∷ x) same) (other, none_left)
longer-IsCut c s p ps other (first_part rest same e none_left) =
    first_part rest (ap (λ (x : List ℕ). c ∷ x) same) e (other, none_left)

put_inversion :
    (c : ℕ) (o : List (List ℕ)) (p : List ℕ) (ps : List (List ℕ))
    → o ≢ []
    → put_front c o ≡ p ∷ ps
    → (q : List ℕ) × (o ≡ q ∷ ps) × (p ≡ c ∷ q)
put_inversion c [] p ps filled h = absurd (filled refl)
put_inversion c (q ∷ qs) p ps filled h =
    let same : qs ≡ ps = cc in (q, ap (λ (r : List (List ℕ)). q ∷ r) same, cc)

split-IsCut : (s p : List ℕ) (ps : List (List ℕ)) → split 46 s ≡ p ∷ ps → IsCut s p ps
unfolding split
split-IsCut [] p ps h =
    let empty : p ≡ [] = cc in let end : ps ≡ [] = cc in rw empty (last_part end refl tt)
split-IsCut (c ∷ s) p ps h = elim (Bool-cases (c == 46)) [
  | inl dot ↦
      let parts : [] ∷ split 46 s ≡ p ∷ ps = rw dot at h in
      let empty : p ≡ [] = cc in
      let rest : split 46 s ≡ ps = cc in
      let here : c ≡ 46 = ground arith in rw (empty, here) (first_part s refl rest tt)
  | inr other ↦
      let parts : put_front c (split 46 s) ≡ p ∷ ps = rw other at h in
      let put = put_inversion c (split 46 s) p ps (split_filled s) parts in
      rw put.2 (longer-IsCut c s put.0 ps other (split-IsCut s put.0 ps put.1))
]

-- Four parts, with dots between them.
record IsFour (s p q r t : List ℕ) : Type 0 where
  joined : s ≡ p ++ 46 ∷ (q ++ 46 ∷ (r ++ 46 ∷ t))
  p_part : NoDot p
  q_part : NoDot q
  r_part : NoDot r
  t_part : NoDot t

cut_first :
    (s p q : List ℕ) (ps : List (List ℕ))
    → split 46 s ≡ p ∷ q ∷ ps
    → (rest : List ℕ) × (s ≡ p ++ 46 ∷ rest) × (split 46 rest ≡ q ∷ ps) × NoDot p
cut_first s p q ps h = from_cut (split-IsCut s p (q ∷ ps) h)
  where
    from_cut :
        IsCut s p (q ∷ ps)
        → (rest : List ℕ) × (s ≡ p ++ 46 ∷ rest) × (split 46 rest ≡ q ∷ ps) × NoDot p
    from_cut (last_part e same part) = cc
    from_cut (first_part rest same e part) = (rest, same, e, part)

cut_last : (s p : List ℕ) → split 46 s ≡ p ∷ [] → (s ≡ p) × NoDot p
cut_last s p h = from_cut (split-IsCut s p [] h)
  where
    from_cut : IsCut s p [] → (s ≡ p) × NoDot p
    from_cut (last_part e same part) = (same, part)
    from_cut (first_part rest same e part) = absurd (split_filled rest e)

split-IsFour : (s p q r t : List ℕ) → split 46 s ≡ p ∷ q ∷ r ∷ t ∷ [] → IsFour s p q r t
split-IsFour s p q r t h =
    let first = cut_first s p q (r ∷ t ∷ []) h in
    let second = cut_first first.0 q r (t ∷ []) first.2 in
    let third = cut_first second.0 r t [] second.2 in
    let fourth = cut_last third.0 t third.2 in
    record {
      joined = rw (first.1, second.1, third.1, fourth.0) refl;
      p_part = first.3;
      q_part = second.3;
      r_part = third.3;
      t_part = fourth.1;
    }

byte_inversion : (o : Option ℕ) (n : ℕ) → byte_of o ≡ some n → (o ≡ some n) × (n ≤ 255)
byte_inversion none n h = cc
byte_inversion (some m) n h = elim (Bool-cases (leb m 255)) [
  | inl small ↦
      let same : some m ≡ some n = rw small at h in let equal : m ≡ n = cc in (same, ground arith)
  | inr big ↦ let impossible : none ≡ some n = rw big at h in cc
]

four_inversion :
    (o u v w : Option ℕ) (ip : IPv4)
    → four_bytes o u v w ≡ some ip
    → (o ≡ some ip.a) × (u ≡ some ip.b) × (v ≡ some ip.c) × (w ≡ some ip.d)
four_inversion none u v w ip h = cc
four_inversion (some a) none v w ip h = cc
four_inversion (some a) (some b) none w ip h = cc
four_inversion (some a) (some b) (some c) none ip h = cc
four_inversion (some a) (some b) (some c) (some d) ip h =
    let same : ipv4 a b c d ≡ ip = cc in
    (
      ap (λ (x : IPv4). some x.a) same,
      ap (λ (x : IPv4). some x.b) same,
      ap (λ (x : IPv4). some x.c) same,
      ap (λ (x : IPv4). some x.d) same,
    )

module _ (number : List ℕ → Option ℕ) where
  parts-IsDotted :
      (text : List ℕ) (parts : List (List ℕ)) (ip : IPv4)
      → split 46 text ≡ parts
      → parts_to_ipv4 number parts ≡ some ip
      → IsDotted number text ip
  parts-IsDotted text (p ∷ q ∷ r ∷ t ∷ []) ip e h =
      let four = split-IsFour text p q r t e in
      let read =
        four_inversion (byte_of (number p)) (byte_of (number q)) (byte_of (number r))
          (byte_of (number t)) ip h in
      let a = byte_inversion (number p) ip.a read.0 in
      let b = byte_inversion (number q) ip.b read.1 in
      let c = byte_inversion (number r) ip.c read.2 in
      let d = byte_inversion (number t) ip.d read.3 in
      record {
        p = p;
        q = q;
        r = r;
        s = t;
        joined = four.joined;
        p_part = four.p_part;
        q_part = four.q_part;
        r_part = four.r_part;
        s_part = four.t_part;
        a_value = a.0;
        b_value = b.0;
        c_value = c.0;
        d_value = d.0;
        bytes = record { a_byte = a.1; b_byte = b.1; c_byte = c.1; d_byte = d.1 };
      }
  parts-IsDotted text [] ip e h = cc
  parts-IsDotted text (p ∷ []) ip e h = cc
  parts-IsDotted text (p ∷ q ∷ []) ip e h = cc
  parts-IsDotted text (p ∷ q ∷ r ∷ []) ip e h = cc
  parts-IsDotted text (p ∷ q ∷ r ∷ t ∷ u ∷ rest) ip e h = cc

  -- A text that is in dotted form for no bytes is not parsed.
  pub not_dotted :
      (text : List ℕ) → ((ip : IPv4) → IsDotted number text ip → ⊥) → parse_ipv4 number text ≡ none
  unfolding parse_ipv4
  not_dotted text none_dotted = nothing (parse_ipv4 number text) refl
    where
      nothing : (o : Option IPv4) → parse_ipv4 number text ≡ o → o ≡ none
      nothing none e = refl
      nothing (some ip) e = absurd (none_dotted ip (parts-IsDotted text (split 46 text) ip refl e))
