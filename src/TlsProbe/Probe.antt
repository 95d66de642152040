-- ===== src/TlsProbe/Probe.antt =====
-- `probeTls` of src/tls-probe.ts, with the names of versions and ciphers. What comes back over the socket
-- is a parameter: the socket module is missing, an exception is thrown, or a list of reads until the
-- deadline.
use agent_commerce_lab.Prelude.{
  ℕ, ◌/◌, ◌%◌, false, Option, none, some, String, List, [], ◌∷◌, ◌++◌, any, or_else, ltb, ◌==◌,
  get_elem?, if◌then◌else◌,
}
use agent_commerce_lab.Prelude.Text.{◌<>◌}
use agent_commerce_lab.Verdict.{TlsProbeResult}
use agent_commerce_lab.TlsProbe.{build_client_hello}
use agent_commerce_lab.TlsProbe.Parse.{
  hello, alert, Parsed, parsed, incomplete, stuck, parse_server_hello,
}

abbrev pub name_of : List (ℕ × String) → ℕ → Option String
name_of [] n = none
name_of (e ∷ es) n = if e.0 == n then some e.1 else name_of es n

abbrev pub cipher_names : List (ℕ × String)
cipher_names =
    (0x1301, "TLS_AES_128_GCM_SHA256")
    ∷ (0x1302, "TLS_AES_256_GCM_SHA384")
    ∷ (0x1303, "TLS_CHACHA20_POLY1305_SHA256")
    ∷ (0xc02b, "ECDHE-ECDSA-AES128-GCM-SHA256")
    ∷ (0xc02c, "ECDHE-ECDSA-AES256-GCM-SHA384")
    ∷ (0xc02f, "ECDHE-RSA-AES128-GCM-SHA256")
    ∷ (0xc030, "ECDHE-RSA-AES256-GCM-SHA384")
    ∷ (0xcca8, "ECDHE-RSA-CHACHA20-POLY1305")
    ∷ (0xcca9, "ECDHE-ECDSA-CHACHA20-POLY1305")
    ∷ (0x009c, "RSA-AES128-GCM-SHA256")
    ∷ (0x009d, "RSA-AES256-GCM-SHA384")
    ∷ (0x002f, "RSA-AES128-CBC-SHA")
    ∷ (0x0035, "RSA-AES256-CBC-SHA")
    ∷ (0x000a, "RSA-3DES-EDE-CBC-SHA")
    ∷ []

abbrev pub weak_ciphers : List ℕ
weak_ciphers = 0x002f ∷ 0x0035 ∷ 0x000a ∷ 0x009c ∷ 0x009d ∷ []

abbrev pub version_names : List (ℕ × String)
version_names =
    (0x0301, "TLS 1.0") ∷ (0x0302, "TLS 1.1") ∷ (0x0303, "TLS 1.2") ∷ (0x0304, "TLS 1.3") ∷ []

abbrev hex_digits : List String
hex_digits =
    "0" ∷ "1" ∷ "2" ∷ "3" ∷ "4" ∷ "5" ∷ "6" ∷ "7" ∷ "8" ∷ "9" ∷ "a" ∷ "b" ∷ "c" ∷ "d" ∷ "e" ∷ "f"
    ∷ []

abbrev hex_digit : ℕ → String
hex_digit d = or_else (get_elem? hex_digits d) "0"

-- `n.toString(16)` of a number of two bytes, and with `padStart(4, "0")`.
abbrev pub hex4 : ℕ → String
hex4 n =
    hex_digit (n / 4096 % 16)
    <> hex_digit (n / 256 % 16)
    <> hex_digit (n / 16 % 16)
    <> hex_digit (n % 16)

abbrev pub hex : ℕ → String
hex n =
    if ltb n 16
    then hex_digit n
    else if ltb n 256
    then hex_digit (n / 16) <> hex_digit (n % 16)
    else if ltb n 4096
    then hex_digit (n / 256) <> hex_digit (n / 16 % 16) <> hex_digit (n % 16)
    else hex4 n

abbrev pub probe_failed : String → TlsProbeResult
probe_failed e = record {
  version = none;
  cipher_suite = none;
  cipher_suite_id = none;
  weak = false;
  error = some e;
}

abbrev pub hello_result : ℕ → ℕ → TlsProbeResult
hello_result version cipher = record {
  version = some (or_else (name_of version_names version) ("unknown (0x" <> hex version <> ")"));
  cipher_suite =
      some (or_else (name_of cipher_names cipher) ("unknown cipher (0x" <> hex cipher <> ")"));
  cipher_suite_id = some ("0x" <> hex4 cipher);
  weak = any (λ c. c == cipher) weak_ciphers;
  error = none;
}

-- One read before the deadline: bytes, the end or the time-out, or an exception.
pub data Read : Type 0 where
  chunk : List ℕ → Read
  read_done : Read
  read_threw : String → Read

pub data Socket : Type 0 where
  sockets_unavailable : Socket
  socket_threw : String → Socket
  socket_reads : List Read → Socket

abbrev pub no_server_hello : TlsProbeResult
no_server_hello = probe_failed "no ServerHello received within timeout"

-- What the bytes so far come to; `rest` is the loop on the next reads.
abbrev pub on_parsed : Parsed → TlsProbeResult → TlsProbeResult
on_parsed (parsed alert) rest =
    probe_failed "target sent a TLS alert in response to the probe ClientHello"
on_parsed (parsed (hello version cipher)) rest = hello_result version cipher
on_parsed incomplete rest = rest
on_parsed stuck rest = rest

abbrev pub read_loop : List ℕ → List Read → TlsProbeResult
read_loop bytes [] = no_server_hello
read_loop bytes (chunk c ∷ rs) =
    let more = bytes ++ c in on_parsed (parse_server_hello more) (read_loop more rs)
read_loop bytes (read_done ∷ rs) = no_server_hello
read_loop bytes (read_threw e ∷ rs) = probe_failed e

abbrev pub probe_socket : Socket → TlsProbeResult
probe_socket sockets_unavailable =
    probe_failed
      "cloudflare:sockets unavailable in this runtime (expected outside the Workers runtime, e.g. local test env)"
probe_socket (socket_threw e) = probe_failed e
probe_socket (socket_reads rs) = read_loop [] rs

-- The random bytes and the key of the probe, the bytes of a host name, and the socket's answer to what is
-- sent to a host.
pub record TlsWorld : Type 0 where
  pub random : List ℕ
  pub public_key : List ℕ
  pub encode : String → List ℕ
  pub connect : String → List ℕ → Socket

unfoldable pub probe_tls : TlsWorld → String → TlsProbeResult
probe_tls w hostname =
    probe_socket (w.connect hostname (build_client_hello w.random (w.encode hostname) w.public_key))
