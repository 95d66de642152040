-- ===== src/TlsProbe/Parse/Encode.antt =====
-- The bytes of a ServerHello in one record, by the layout of TLS: what `parseServerHello` of
-- src/tls-probe.ts should read back. Each encoder puts its bytes in front of those that follow.
use agent_commerce_lab.Prelude.{
  ℕ, ◌+◌, ◌<◌, ◌≡◌, List, [], ◌∷◌, ◌++◌, length, All, ◌==◌, ◌*◌, if◌then◌else◌,
}
use agent_commerce_lab.TlsProbe.{u16, u24}

-- An extension: its type and its body.
pub record Extension : Type 0 where
  pub kind : ℕ
  pub body : List ℕ

pub record ServerHello : Type 0 where
  pub version : ℕ
  pub random : List ℕ
  pub session_id : List ℕ
  pub cipher_suite : ℕ
  pub compression : ℕ
  pub exts : List Extension

abbrev pub put_exts : List Extension → List ℕ → List ℕ
put_exts [] post = post
put_exts (e ∷ es) post = u16 e.kind ++ (u16 (length e.body) ++ (e.body ++ put_exts es post))

abbrev pub exts_size : List Extension → ℕ
exts_size [] = 0
exts_size (e ∷ es) = 4 + length e.body + exts_size es

abbrev pub body_size : ServerHello → ℕ
body_size m = 40 + length m.session_id + exts_size m.exts

-- The record of minor version `minor` around the message, and what follows it.
abbrev pub put_server_hello : ℕ → ServerHello → List ℕ → List ℕ
put_server_hello minor m post =
    0x16
    ∷ 0x03
    ∷ minor
    ∷ (u16 (4 + body_size m)
        ++ (0x02
            ∷ (u24 (body_size m)
                ++ (u16 m.version
                    ++ (m.random
                        ++ (length m.session_id
                            ∷ (m.session_id
                                ++ (u16 m.cipher_suite
                                    ++ (m.compression
                                        ∷ (u16 (exts_size m.exts) ++ put_exts m.exts post))))))))))

-- The version that a body of `supported_versions` names, if it has two bytes.
abbrev pub body_version : List ℕ → ℕ → ℕ
body_version (a ∷ b ∷ s) version = a * 256 + b
body_version _ version = version

-- The negotiated version: that of the last `supported_versions` extension, else the given one.
abbrev pub negotiated : ℕ → List Extension → ℕ
negotiated version [] = version
negotiated version (e ∷ es) =
    negotiated (if e.kind == 0x002b then body_version e.body version else version) es

-- The sizes fit their fields.
pub record IsServerHello (m : ServerHello) : Type 0 where
  pub version_fits : m.version < 65536
  pub random_size : length m.random ≡ 32
  pub session_fits : length m.session_id < 256
  pub cipher_fits : m.cipher_suite < 65536
  pub kinds_fit : All (λ (e : Extension). e.kind < 65536) m.exts
  pub size_fits : 4 + body_size m < 65536
