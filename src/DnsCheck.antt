-- ===== src/DnsCheck.antt =====
-- src/dns-check.ts. A request to the resolver is a parameter: an exception, an answer that is not ok, or
-- the data of its answers.
use agent_commerce_lab.Prelude.{Bool, String, List, [], length, leb}
use agent_commerce_lab.History.Types.{DnsCheckResult}

pub data DnsAnswer : Type 0 where
  dns_threw : DnsAnswer
  dns_not_ok : DnsAnswer
  dns_data : List String → DnsAnswer

abbrev pub query_doh : DnsAnswer → List String
query_doh dns_threw = []
query_doh dns_not_ok = []
query_doh (dns_data xs) = xs

abbrev some_record : List String → Bool
some_record xs = leb 1 (length xs)

module _ (dns : String → String → DnsAnswer) where
  unfoldable pub check_dns_records : String → DnsCheckResult
  check_dns_records hostname =
      let a = query_doh (dns hostname "A") in
      let aaaa = query_doh (dns hostname "AAAA") in
      let mx = query_doh (dns hostname "MX") in
      let txt = query_doh (dns hostname "TXT") in
      record {
        has_a = some_record a;
        has_aaaa = some_record aaaa;
        has_mx = some_record mx;
        has_txt = some_record txt;
        records = record { a = a; aaaa = aaaa; mx = mx; txt = txt };
        note = "resolved via Cloudflare DNS-over-HTTPS (1.1.1.1)";
      }
