-- ===== src/SsrfGuard/Tests.antt =====
-- The guard of src/ssrf-guard.ts with a decimal reader and a resolver of one public address.
use agent_commerce_lab.Prelude.{
  ℕ, ◌≡◌, refl, true, false, ◌&&◌, ◌||◌, List, [], ◌∷◌, map, leb, ◌==◌, arith,
}
use agent_commerce_lab.Prelude.Match.{codes, fold_lower, number_at}
use agent_commerce_lab.SsrfGuard.{
  IPv4, ipv4, in_blocked_range, split, parse_ipv4, is_private_ipv4, is_private_ipv6, is_private,
}
use agent_commerce_lab.SsrfGuard.Ranges.{in_blocked_range_lem}
use agent_commerce_lab.SsrfGuard.Decision.{
  RecordType, a_record, aaaa_record, Fetched, not_ok, answers, is_localhost_name, resolve_via_doh,
  check_hostname_allowed,
}
use agent_commerce_lab.SsrfGuard.Safety.{IsPublic, unblocked-IsPublic}

abbrev doh : List ℕ → RecordType → Fetched
doh host a_record = answers (codes "93.184.216.34" ∷ [])
doh host aaaa_record = not_ok

abbrev metadata : IPv4
metadata = ipv4 169 254 169 254

in_blocked_range_lem_example : in_blocked_range metadata ≡ (
    169 == 10
    || ((169 == 172 && leb 16 254 && leb 254 31)
        || ((169 == 192 && 254 == 168) || (169 == 127 || ((169 == 169 && 254 == 254) || false)))))
in_blocked_range_lem_example = in_blocked_range_lem metadata (record {
  a_byte = omega arith;
  b_byte = omega arith;
  c_byte = omega arith;
  d_byte = omega arith;
})

loopback_test : (check_hostname_allowed number_at doh (codes "127.0.0.1")).blocked ≡ true
unfolding check_hostname_allowed is_localhost_name parse_ipv4 split is_private_ipv4 in_blocked_range
loopback_test = refl

-- An IPv4-mapped loopback address in its hexadecimal form is not recognised.
mapped_loopback_test : is_private_ipv6 number_at (codes "[::ffff:7f00:1]") ≡ false
unfolding is_private_ipv6 parse_ipv4 split
mapped_loopback_test = refl

unblocked-IsPublic_example : IsPublic number_at doh (map fold_lower (codes "Example.com"))
unfolding check_hostname_allowed is_localhost_name parse_ipv4 split is_private_ipv4 is_private_ipv6
    is_private in_blocked_range resolve_via_doh
unblocked-IsPublic_example = unblocked-IsPublic number_at doh (codes "Example.com") refl
