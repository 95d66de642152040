-- ===== src/TlsProbe/Parse/Message.antt =====
-- The extensions and the body of an encoded ServerHello, as `parseServerHello` of src/tls-probe.ts reads
-- them.
use agent_commerce_lab.Prelude.{
  ℕ, zero, suc, ◌+◌, ◌<◌, ◌≡◌, refl, true, false, some, List, [], ◌∷◌, ◌++◌, length, All, arith,
  leb, ◌==◌, if◌then◌else◌,
}
use agent_commerce_lab.TlsProbe.{u16}
use agent_commerce_lab.TlsProbe.Parse.{read_u16, ext_version, ext_loop}
use agent_commerce_lab.TlsProbe.Parse.Encode.{
  Extension, put_exts, exts_size, body_version, negotiated,
}
use agent_commerce_lab.TlsProbe.Parse.Positions.{
  drop, get-drop, at_position, drop_past, read_u16-u16,
}

-- The bytes of one extension from `p` on.
record ReadsExtension (bytes : List ℕ) (p : ℕ) (e : Extension) (rest : List ℕ) : Type 0 where
  kind_read : read_u16 bytes p ≡ e.kind
  size_read : read_u16 bytes (p + 2) ≡ length e.body
  body_there : drop (p + 4) bytes ≡ e.body ++ rest
  behind : drop (p + 4 + length e.body) bytes ≡ rest

reads_extension :
    (bytes : List ℕ) (p : ℕ) (e : Extension) (rest : List ℕ)
    → e.kind < 65536
    → length e.body < 65536
    → drop p bytes ≡ u16 e.kind ++ (u16 (length e.body) ++ (e.body ++ rest))
    → ReadsExtension bytes p e rest
reads_extension bytes p e rest kind_fits size_fits h =
    let kind = read_u16-u16 p e.kind bytes (u16 (length e.body) ++ (e.body ++ rest)) kind_fits h in
    let size = read_u16-u16 (p + 2) (length e.body) bytes (e.body ++ rest) size_fits kind.1 in
    let body = at_position (p + 2 + 2) (p + 4) bytes (e.body ++ rest) (omega arith) size.1 in
    record {
      kind_read = kind.0;
      size_read = size.0;
      body_there = body;
      behind = drop_past (p + 4) bytes e.body rest body;
    }

body_version_read :
    (bytes : List ℕ) (p : ℕ) (body rest : List ℕ) (v : ℕ)
    → drop p bytes ≡ body ++ rest
    → (if leb 2 (length body) then read_u16 bytes p else v) ≡ body_version body v
body_version_read bytes p [] rest v h = refl
body_version_read bytes p (a ∷ []) rest v h = refl
body_version_read bytes p (a ∷ b ∷ s) rest v h =
    let first = get-drop p a bytes (b ∷ (s ++ rest)) h in
    let second =
      get-drop (p + 1) b bytes (s ++ rest)
        (at_position (suc p) (p + 1) bytes (b ∷ (s ++ rest)) (omega arith) first.1) in
    rw (first.0, second.0) (ground arith)

ext_version-read :
    (bytes : List ℕ) (p : ℕ) (e : Extension) (rest : List ℕ) (v : ℕ)
    → ReadsExtension bytes p e rest
    → ext_version bytes p v ≡ (if e.kind == 0x002b then body_version e.body v else v)
ext_version-read bytes p e rest v r =
    rw (r.kind_read, r.size_read)
      (ground (arith, body_version_read bytes (p + 4) e.body rest v r.body_there))

pub ext_loop-put_exts :
    (fuel : ℕ) (bytes : List ℕ) (ext_end p v : ℕ) (es : List Extension) (post : List ℕ)
    → drop p bytes ≡ put_exts es post
    → All (λ (e : Extension). e.kind < 65536) es
    → exts_size es < 65536
    → ext_end ≡ p + exts_size es
    → exts_size es < fuel
    → ext_loop fuel bytes ext_end p v ≡ some (negotiated v es)
unfolding ext_loop
ext_loop-put_exts zero bytes ext_end p v es post h kinds size e enough = absurd (omega arith)
ext_loop-put_exts (suc fuel) bytes ext_end p v [] post h kinds size e enough =
    let last : leb (p + 4) ext_end ≡ false = ground arith in rw last refl
ext_loop-put_exts (suc fuel) bytes ext_end p v (x ∷ es) post h kinds size e enough =
    let r = reads_extension bytes p x (put_exts es post) kinds.0 (omega arith) h in
    let more : leb (p + 4) ext_end ≡ true = ground arith in
    rw (more, ext_version-read bytes p x (put_exts es post) v r, r.size_read)
      (ext_loop-put_exts fuel bytes ext_end (p + 4 + length x.body)
        (if x.kind == 0x002b then body_version x.body v else v) es post r.behind kinds.1
        (omega arith) (omega arith) (omega arith))
