-- ===== src/SsrfGuard/Decision.antt =====
-- `resolveViaDoH` and `checkHostnameAllowed` of src/ssrf-guard.ts. The reason is a constructor with the
-- texts that its message quotes.
use agent_commerce_lab.Prelude.{
  ℕ, Bool, true, false, ◌||◌, Option, none, some, List, [], ◌∷◌, ◌++◌, ◌==◌, if◌then◌else◌, any,
  find, filter, map, is_some,
}
use agent_commerce_lab.Prelude.Match.{codes, fold_lower, same_text}
use agent_commerce_lab.SsrfGuard.{parse_ipv4, is_private_ipv4, is_private_ipv6, is_private}

pub data RecordType : Type 0 where
  a_record aaaa_record : RecordType

-- What one request to the resolver comes to: an exception, an answer that is not ok, or its data.
pub data Fetched : Type 0 where
  thrown : Fetched
  not_ok : Fetched
  answers : List (List ℕ) → Fetched

pub data Reason : Type 0 where
  localhost_hostname : List ℕ → Reason
  private_ipv4_literal : List ℕ → Reason
  private_ipv6_literal : List ℕ → Reason
  resolves_to_internal : List ℕ → List ℕ → Reason

pub record HostCheckResult : Type 0 where
  pub blocked : Bool
  pub reason : Option Reason

abbrev pub allowed : HostCheckResult
allowed = record { blocked = false; reason = none }

abbrev pub block : Reason → HostCheckResult
block r = record { blocked = true; reason = some r }

abbrev pub non_empty : List ℕ → Bool
non_empty [] = false
non_empty (c ∷ s) = true

-- One round of the loop over the record types: the results so far go on unless a request throws.
abbrev pub add_answers : Fetched → Option (List (List ℕ)) → Option (List (List ℕ))
add_answers thrown rest = none
add_answers not_ok rest = rest
add_answers (answers ips) none = none
add_answers (answers ips) (some rest) = some (filter non_empty ips ++ rest)

-- `host.endsWith(".localhost")`
abbrev pub ends_with : List ℕ → List ℕ → Bool
ends_with suffix [] = same_text suffix []
ends_with suffix (c ∷ s) = same_text suffix (c ∷ s) || ends_with suffix s

unfoldable pub is_localhost_name : List ℕ → Bool
is_localhost_name host =
    same_text host (codes "localhost")
    || same_text host (codes "localhost.localdomain")
    || same_text host (codes "0.0.0.0")
    || ends_with (codes ".localhost") host

module _ (number : List ℕ → Option ℕ) (doh : List ℕ → RecordType → Fetched) where
  -- `none` where a request throws.
  unfoldable pub resolve_via_doh : List ℕ → Option (List (List ℕ))
  resolve_via_doh host =
      add_answers (doh host a_record) (add_answers (doh host aaaa_record) (some []))

  abbrev pub check_resolved : List ℕ → Option (List (List ℕ)) → HostCheckResult
  check_resolved hostname none = allowed
  check_resolved hostname (some ips) = elim (find (is_private number) ips) [
    | some ip ↦ block (resolves_to_internal hostname ip)
    | none ↦ allowed
  ]

  unfoldable pub check_hostname_allowed : List ℕ → HostCheckResult
  check_hostname_allowed hostname =
      let host = map fold_lower hostname in
      if is_localhost_name host
      then block (localhost_hostname hostname)
      else if is_some (parse_ipv4 number host)
      then (if is_private_ipv4 number host then block (private_ipv4_literal host) else allowed)
      else if any (λ c. c == 58) host
      then (if is_private_ipv6 number host then block (private_ipv6_literal host) else allowed)
      else check_resolved hostname (resolve_via_doh host)
