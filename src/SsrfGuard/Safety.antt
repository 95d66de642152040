-- ===== src/SsrfGuard/Safety.antt =====
-- What the guard of src/ssrf-guard.ts lets through.
use agent_commerce_lab.Prelude.{
  ℕ, Bool, false, ◌&&◌, not, ◌||◌, Option, none, some, List, [], ◌∷◌, ◌==◌, ◌≡◌, ◌≢◌, ◌++◌, inl,
  inr, In, filter, true, refl, sym, ap, ◌∙◌, if◌then◌else◌, any, map, is_some, arith,
}
use agent_commerce_lab.Prelude.Match.{codes, fold_lower, same_text, same_text_refl}
use agent_commerce_lab.SsrfGuard.Addresses.{
  IsDotted, IsPrivateIpv4, IsPrivateLiteral, parse_ipv4-IsDotted, literal_colon,
  is_private_ipv4-IsPrivateIpv4, is_private_ipv6-IsPrivateLiteral,
}
use agent_commerce_lab.SsrfGuard.Dotted.{not_dotted}
use agent_commerce_lab.SsrfGuard.{
  IPv4, split, parse_ipv4, is_private_ipv4, is_private_ipv6, is_private,
}
use agent_commerce_lab.SsrfGuard.Decision.{
  RecordType, Fetched, thrown, not_ok, answers, non_empty, add_answers, ends_with, a_record,
  aaaa_record, Reason, HostCheckResult, allowed, block, is_localhost_name, resolve_via_doh,
  check_resolved, check_hostname_allowed,
}

-- Four nested tests, of which the first and two of the inner ones block.
gate :
    (l v p c q : Bool) (x y z : Reason) (r : HostCheckResult)
    → (if l
        then block x
        else if v
        then (if p then block y else allowed)
        else if c
        then (if q then block z else allowed)
        else r).blocked
      ≡ (l || (if v then p else if c then q else r.blocked))
gate l v p c q x y z r = ground arith

or_left : (a b : Bool) → (a || b) ≡ false → a ≡ false
or_left a b h = ground arith

or_right : (a b : Bool) → (a || b) ≡ false → b ≡ false
or_right a b h = ground arith

first_test : (v p r : Bool) → (if v then p else r) ≡ false → (v && p) ≡ false
first_test v p r h = ground arith

second_test :
    (v p c q r : Bool) → (if v then p else if c then q else r) ≡ false → (not v && (c && q)) ≡ false
second_test v p c q r h = ground arith

third_test :
    (v p c q r : Bool)
    → (if v then p else if c then q else r) ≡ false
    → (not v && (not c && r)) ≡ false
third_test v p c q r h = ground arith

or_true_left : (a b : Bool) → a ≡ true → (a || b) ≡ true
or_true_left a b h = ground arith

or_true_right : (a b : Bool) → b ≡ true → (a || b) ≡ true
or_true_right a b h = ground arith

clash : true ≢ false
clash h = ground arith

abbrev pub has_colon : List ℕ → Bool
has_colon host = any (λ c. c == 58) host

module _ (number : List ℕ → Option ℕ) (doh : List ℕ → RecordType → Fetched) where
  check_resolved-public :
      (hostname : List ℕ) (ips : List (List ℕ))
      → (check_resolved number doh hostname (some ips)).blocked ≡ any (is_private number) ips
  check_resolved-public hostname [] = refl
  check_resolved-public hostname (ip ∷ ips) = ground (arith, check_resolved-public hostname ips)

  -- Whether a lookup that answers has a private address.
  abbrev pub has_private : Option (List (List ℕ)) → Bool
  has_private none = false
  has_private (some ips) = any (is_private number) ips

  check_resolved-blocked :
      (hostname : List ℕ) (o : Option (List (List ℕ)))
      → (check_resolved number doh hostname o).blocked ≡ has_private o
  check_resolved-blocked hostname none = refl
  check_resolved-blocked hostname (some ips) = check_resolved-public hostname ips

  -- An unblocked host in the terms of the guard.
  record IsPassed (host : List ℕ) : Type 0 where
    no_localhost : is_localhost_name host ≡ false
    no_private_ipv4 : (is_some (parse_ipv4 number host) && is_private_ipv4 number host) ≡ false
    no_private_ipv6 :
        (not (is_some (parse_ipv4 number host)) && (has_colon host && is_private_ipv6 number host))
        ≡ false
    no_private_answer :
        (not (is_some (parse_ipv4 number host))
          && (not (has_colon host) && has_private (resolve_via_doh number doh host)))
        ≡ false

  blocked_eq :
      (hostname : List ℕ)
      → let host = map fold_lower hostname in
        (check_hostname_allowed number doh hostname).blocked ≡ (
          is_localhost_name host
          || (if is_some (parse_ipv4 number host)
              then is_private_ipv4 number host
              else if has_colon host
              then is_private_ipv6 number host
              else (check_resolved number doh hostname (resolve_via_doh number doh host)).blocked))
  unfolding check_hostname_allowed
  blocked_eq hostname =
      let host = map fold_lower hostname in
      gate (is_localhost_name host) (is_some (parse_ipv4 number host)) (is_private_ipv4 number host)
        (has_colon host) (is_private_ipv6 number host) _ _ _
        (check_resolved number doh hostname (resolve_via_doh number doh host))

  unblocked-IsPassed :
      (hostname : List ℕ)
      → (check_hostname_allowed number doh hostname).blocked ≡ false
      → IsPassed (map fold_lower hostname)
  unblocked-IsPassed hostname h =
      let host = map fold_lower hostname in
      let l = is_localhost_name host in
      let v = is_some (parse_ipv4 number host) in
      let p = is_private_ipv4 number host in
      let c = has_colon host in
      let q = is_private_ipv6 number host in
      let r = (check_resolved number doh hostname (resolve_via_doh number doh host)).blocked in
      let all = sym (blocked_eq hostname) ∙ h in
      let e = or_right l (if v then p else if c then q else r) all in
      record {
        no_localhost = or_left l (if v then p else if c then q else r) all;
        no_private_ipv4 = first_test v p (if c then q else r) e;
        no_private_ipv6 = second_test v p c q r e;
        no_private_answer =
            ap (λ b. not v && (not c && b))
              (sym (check_resolved-blocked hostname (resolve_via_doh number doh host)))
            ∙ third_test v p c q r e;
      }

  -- An address of an answer that is private.
  pub data IsPrivateAnswer : List ℕ → Type 0 where
    ipv6_answer : (a : List ℕ) → has_colon a ≡ true → IsPrivateLiteral number a → IsPrivateAnswer a
    ipv4_answer : (a : List ℕ) → has_colon a ≡ false → IsPrivateIpv4 number a → IsPrivateAnswer a

  is_private-IsPrivateAnswer : (a : List ℕ) → IsPrivateAnswer a → is_private number a ≡ true
  unfolding is_private
  is_private-IsPrivateAnswer a (ipv6_answer _ colon h) =
      rw colon (is_private_ipv6-IsPrivateLiteral number a h)
  is_private-IsPrivateAnswer a (ipv4_answer _ colon h) =
      rw colon (is_private_ipv4-IsPrivateIpv4 number a h)

  -- The empty answers that are dropped are not private.
  kept_private :
      (ips rest : List (List ℕ)) (a : List ℕ)
      → In a ips
      → is_private number a ≡ true
      → any (is_private number) (filter non_empty ips ++ rest) ≡ true
  unfolding is_private is_private_ipv4 parse_ipv4 split
  kept_private [] rest a m h = elim m [ ]
  kept_private ([] ∷ ips) rest a (inl e) h =
      let impossible : is_private number [] ≡ true = rw e at h in cc
  kept_private ([] ∷ ips) rest a (inr m) h = kept_private ips rest a m h
  kept_private ((c ∷ s) ∷ ips) rest a (inl e) h =
      or_true_left (is_private number (c ∷ s)) _ (rw e at h)
  kept_private ((c ∷ s) ∷ ips) rest a (inr m) h =
      or_true_right (is_private number (c ∷ s)) _ (kept_private ips rest a m h)

  later_private :
      (xs rest : List (List ℕ))
      → any (is_private number) rest ≡ true
      → any (is_private number) (xs ++ rest) ≡ true
  later_private [] rest h = h
  later_private (x ∷ xs) rest h =
      or_true_right (is_private number x) (any (is_private number) (xs ++ rest))
        (later_private xs rest h)

  -- What a host that may be fetched is: no name of the local host, no private IPv4 address, and if it is
  -- no IPv4 address in dotted form, then no private IPv6 address, and if it has no colon either, then a name
  -- whose lookups, unless one of them throws, answer with no private address.
  pub record IsPublic (host : List ℕ) : Type 0 where
    pub no_localhost : host ≢ codes "localhost"
    pub no_localdomain : host ≢ codes "localhost.localdomain"
    pub no_unspecified : host ≢ codes "0.0.0.0"
    pub no_local_name : (s : List ℕ) → host ≢ s ++ codes ".localhost"
    pub no_private_ipv4 : IsPrivateIpv4 number host → ⊥
    pub no_private_ipv6 :
        ((ip : IPv4) → IsDotted number host ip → ⊥) → IsPrivateLiteral number host → ⊥
    pub no_private_answer :
        ((ip : IPv4) → IsDotted number host ip → ⊥)
        → has_colon host ≡ false
        → ((kind : RecordType) → doh host kind ≢ thrown)
        → (kind : RecordType) (ips : List (List ℕ)) (a : List ℕ) → doh host kind ≡ answers ips
        → In a ips
        → IsPrivateAnswer a
        → ⊥

  ends_with-append : (suffix s : List ℕ) → ends_with suffix (s ++ suffix) ≡ true
  ends_with-append [] [] = refl
  ends_with-append (c ∷ suffix) [] =
      or_true_left (same_text (c ∷ suffix) (c ∷ suffix)) (ends_with (c ∷ suffix) suffix)
        (same_text_refl (c ∷ suffix))
  ends_with-append suffix (c ∷ s) =
      or_true_right (same_text suffix (c ∷ (s ++ suffix))) (ends_with suffix (s ++ suffix))
        (ends_with-append suffix s)

  local_suffix : (s : List ℕ) → is_localhost_name (s ++ codes ".localhost") ≡ true
  unfolding is_localhost_name
  local_suffix s =
      let host = s ++ codes ".localhost" in
      or_true_right _ (ends_with (codes ".localhost") host)
        (ends_with-append (codes ".localhost") s)

  -- An answer of the lookups, of which none throws, is among those that are tested.
  answer_tested :
      (host : List ℕ) (kind : RecordType) (ips : List (List ℕ)) (a : List ℕ)
      → ((k : RecordType) → doh host k ≢ thrown)
      → doh host kind ≡ answers ips
      → In a ips
      → is_private number a ≡ true
      → has_private (resolve_via_doh number doh host) ≡ true
  unfolding resolve_via_doh
  answer_tested host a_record ips a works e m h =
      rw e (with_rest (doh host aaaa_record) (works aaaa_record))
    where
      with_rest :
          (f : Fetched)
          → f ≢ thrown
          → has_private (add_answers (answers ips) (add_answers f (some []))) ≡ true
      with_rest thrown ok = absurd (ok refl)
      with_rest not_ok ok = kept_private ips [] a m h
      with_rest (answers more) ok = kept_private ips (filter non_empty more ++ []) a m h
  answer_tested host aaaa_record ips a works e m h =
      rw e (with_first (doh host a_record) (works a_record))
    where
      with_first :
          (f : Fetched)
          → f ≢ thrown
          → has_private (add_answers f (add_answers (answers ips) (some []))) ≡ true
      with_first thrown ok = absurd (ok refl)
      with_first not_ok ok = kept_private ips [] a m h
      with_first (answers first) ok =
          later_private (filter non_empty first) (filter non_empty ips ++ [])
            (kept_private ips [] a m h)

  -- Every host that the guard lets through is public: it is no name of the local host, no private IPv4
  -- address, no private IPv6 address in one of the forms that are written out, and where both lookups of a
  -- name come back, no answer is a private address.
  pub unblocked-IsPublic :
      (hostname : List ℕ)
      → (check_hostname_allowed number doh hostname).blocked ≡ false
      → IsPublic (map fold_lower hostname)
  unfolding is_localhost_name
  unblocked-IsPublic hostname h =
      let host = map fold_lower hostname in
      let passed = unblocked-IsPassed hostname h in
      let named = passed.no_localhost in
      record {
        no_localhost = λ e. clash (sym (ap is_localhost_name e) ∙ named);
        no_localdomain = λ e. clash (sym (ap is_localhost_name e) ∙ named);
        no_unspecified = λ e. clash (sym (ap is_localhost_name e) ∙ named);
        no_local_name =
            λ s e. clash (sym (local_suffix s) ∙ (sym (ap is_localhost_name e) ∙ named));
        no_private_ipv4 = λ private.
            let parsed = parse_ipv4-IsDotted number host private.ip private.dotted in
            let found = is_private_ipv4-IsPrivateIpv4 number host private in
            let blocked : true ≡ false = rw (parsed, found) at passed.no_private_ipv4 in
            clash blocked;
        no_private_ipv6 = λ undotted literal.
            let parsed = not_dotted number host undotted in
            let found = is_private_ipv6-IsPrivateLiteral number host literal in
            let colon = literal_colon number host literal in
            let blocked : true ≡ false = rw (parsed, found, colon) at passed.no_private_ipv6 in
            clash blocked;
        no_private_answer = λ undotted name works kind ips a e m private.
            let parsed = not_dotted number host undotted in
            let found =
              answer_tested host kind ips a works e m (is_private-IsPrivateAnswer a private) in
            let blocked : true ≡ false = rw (parsed, name, found) at passed.no_private_answer in
            clash blocked;
      }
