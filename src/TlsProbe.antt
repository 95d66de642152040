-- ===== src/TlsProbe.antt =====
-- src/tls-probe.ts: the ClientHello that the probe sends. A byte is a number; the random bytes and the
-- public key are parameters. `(n >> 8) & 0xff` is `n / 256 % 256`.
pub mod Parse
pub mod Probe
pub mod Chunks
mod Tests
use agent_commerce_lab.Prelude.{ℕ, ◌+◌, ◌/◌, ◌%◌, String, List, [], ◌∷◌, ◌++◌, length}

abbrev pub u16 : ℕ → List ℕ
u16 n = n / 256 % 256 ∷ n % 256 ∷ []

abbrev pub u24 : ℕ → List ℕ
u24 n = n / 65536 % 256 ∷ n / 256 % 256 ∷ n % 256 ∷ []

abbrev pub flat_map_u16 : List ℕ → List ℕ
flat_map_u16 [] = []
flat_map_u16 (n ∷ ns) = u16 n ++ flat_map_u16 ns

abbrev pub cipher_list : List ℕ
cipher_list =
    0x1301 ∷ 0x1302 ∷ 0x1303 ∷ 0xc02c ∷ 0xc030 ∷ 0xc02b ∷ 0xc02f ∷ 0xcca9 ∷ 0xcca8 ∷ 0x009d ∷ 0x009c
    ∷ 0x0035 ∷ 0x002f ∷ 0x000a ∷ []

abbrev pub sni_ext : List ℕ → List ℕ
sni_ext host =
    u16 0x0000
    ++ (u16 (length host + 5) ++ (u16 (length host + 3) ++ (0x00 ∷ (u16 (length host) ++ host))))

abbrev pub supported_versions_ext : List ℕ
supported_versions_ext = u16 0x002b ++ (u16 5 ++ (4 ∷ 0x03 ∷ 0x04 ∷ 0x03 ∷ 0x03 ∷ []))

-- An extension whose body is a list with its length in front.
abbrev pub list_ext : ℕ → List ℕ → List ℕ
list_ext kind body = u16 kind ++ (u16 (2 + length body) ++ (u16 (length body) ++ body))

abbrev pub supported_groups_list : List ℕ
supported_groups_list = 0x00 ∷ 0x1d ∷ 0x00 ∷ 0x17 ∷ 0x00 ∷ 0x18 ∷ []

abbrev pub sig_algs_list : List ℕ
sig_algs_list =
    0x04 ∷ 0x03 ∷ 0x08 ∷ 0x04 ∷ 0x04 ∷ 0x01 ∷ 0x05 ∷ 0x01 ∷ 0x08 ∷ 0x05 ∷ 0x08 ∷ 0x06 ∷ []

abbrev pub alpn_protocols : List ℕ
alpn_protocols = 2 ∷ 0x68 ∷ 0x32 ∷ 8 ∷ 0x68 ∷ 0x74 ∷ 0x74 ∷ 0x70 ∷ 0x2f ∷ 0x31 ∷ 0x2e ∷ 0x31 ∷ []

abbrev pub key_share_entry : List ℕ → List ℕ
key_share_entry key = 0x00 ∷ 0x1d ∷ (u16 (length key) ++ key)

abbrev pub extensions : List ℕ → List ℕ → List ℕ
extensions host key =
    sni_ext host
    ++ (supported_versions_ext
        ++ (list_ext 0x000a supported_groups_list
            ++ (list_ext 0x000d sig_algs_list
                ++ (list_ext 0x0010 alpn_protocols ++ list_ext 0x0033 (key_share_entry key)))))

abbrev pub hello_body : List ℕ → List ℕ → List ℕ → List ℕ
hello_body random host key =
    0x03
    ∷ 0x03
    ∷ (random
        ++ (0x00
            ∷ (u16 (length (flat_map_u16 cipher_list))
                ++ (flat_map_u16 cipher_list
                    ++ (0x01
                        ∷ 0x00
                        ∷ (u16 (length (extensions host key)) ++ extensions host key))))))

-- A handshake message, and a record around it.
abbrev pub handshake_message : ℕ → List ℕ → List ℕ
handshake_message kind body = kind ∷ (u24 (length body) ++ body)

abbrev pub tls_record : ℕ → ℕ → List ℕ → List ℕ
tls_record kind minor payload = kind ∷ 0x03 ∷ minor ∷ (u16 (length payload) ++ payload)

unfoldable pub build_client_hello : List ℕ → List ℕ → List ℕ → List ℕ
build_client_hello random host key =
    tls_record 0x16 0x01 (handshake_message 0x01 (hello_body random host key))
