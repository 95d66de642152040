-- ===== src/TlsProbe/Parse/RoundTrip.antt =====
-- `parseServerHello` of src/tls-probe.ts reads back an encoded ServerHello.
use agent_commerce_lab.Prelude.{
  ℕ, zero, suc, ◌+◌, ◌≤◌, ◌<◌, ◌≡◌, refl, true, false, List, [], ◌∷◌, ◌++◌, length, length-append,
  arith, leb, ltb, ◌||◌, not, min,
}
use agent_commerce_lab.TlsProbe.{u16}
use agent_commerce_lab.TlsProbe.Parse.{
  ParsedHello, hello, Parsed, parsed, byte, read_u16, after_session, parse_body, message_loop,
  record_loop, parse_server_hello,
}
use agent_commerce_lab.TlsProbe.Parse.Encode.{
  Extension, ServerHello, put_exts, exts_size, body_size, put_server_hello, negotiated,
  IsServerHello,
}
use agent_commerce_lab.TlsProbe.Parse.Positions.{
  drop, get-drop, at_position, drop_past, read_u16-u16, read_u24-u24,
}
use agent_commerce_lab.TlsProbe.Parse.Message.{ext_loop-put_exts}

-- What stands behind the session id, and behind the random bytes.
abbrev put_tail : ServerHello → List ℕ → List ℕ
put_tail m post =
    u16 m.cipher_suite ++ (m.compression ∷ (u16 (exts_size m.exts) ++ put_exts m.exts post))

abbrev put_session : ServerHello → List ℕ → List ℕ
put_session m post = length m.session_id ∷ (m.session_id ++ put_tail m post)

module _ (m : ServerHello) (fits : IsServerHello m) (bytes post : List ℕ) where
  after_session-put :
      (fuel p body_end : ℕ)
      → drop p bytes ≡ put_tail m post
      → body_end ≡ p + 5 + exts_size m.exts
      → exts_size m.exts < fuel
      → after_session fuel bytes body_end m.version p
        ≡ parsed (hello (negotiated m.version m.exts) m.cipher_suite)
  after_session-put fuel p body_end h e enough =
      let cipher =
        read_u16-u16 p m.cipher_suite bytes
          (m.compression ∷ (u16 (exts_size m.exts) ++ put_exts m.exts post)) fits.cipher_fits h in
      let behind =
        get-drop (p + 2) m.compression bytes (u16 (exts_size m.exts) ++ put_exts m.exts post)
          cipher.1 in
      let size =
        read_u16-u16 (p + 3) (exts_size m.exts) bytes (put_exts m.exts post)
          (omega (arith, fits.size_fits))
          (at_position (suc (p + 2)) (p + 3) bytes (u16 (exts_size m.exts) ++ put_exts m.exts post)
            (omega arith) behind.1) in
      let room : leb (p + 3 + 2) body_end ≡ true = ground arith in
      let exts =
        ext_loop-put_exts fuel bytes (min (p + 3 + 2 + exts_size m.exts) body_end) (p + 3 + 2)
          m.version m.exts post size.1 fits.kinds_fit (omega (arith, fits.size_fits)) (omega arith)
          enough in
      rw (cipher.0, size.0, room, exts) refl

  parse_body-put :
      (fuel start : ℕ)
      → drop start bytes ≡ u16 m.version ++ (m.random ++ put_session m post)
      → exts_size m.exts < fuel
      → parse_body fuel bytes start (body_size m)
        ≡ parsed (hello (negotiated m.version m.exts) m.cipher_suite)
  unfolding parse_body
  parse_body-put fuel start h enough =
      let version =
        read_u16-u16 start m.version bytes (m.random ++ put_session m post) fits.version_fits h in
      let session =
        at_position (start + 2 + length m.random) (start + 34) bytes (put_session m post)
          (omega (arith, fits.random_size))
          (drop_past (start + 2) bytes m.random (put_session m post) version.1) in
      let n =
        get-drop (start + 34) (length m.session_id) bytes (m.session_id ++ put_tail m post)
          session in
      let tail =
        at_position (suc (start + 34) + length m.session_id)
          (start + 34 + (1 + length m.session_id)) bytes (put_tail m post) (omega arith)
          (drop_past (suc (start + 34)) bytes m.session_id (put_tail m post) n.1) in
      rw (version.0, n.0)
        (after_session-put fuel (start + 34 + (1 + length m.session_id)) (start + body_size m) tail
          (omega arith) enough)

length-put_exts :
    (es : List Extension) (post : List ℕ) → length (put_exts es post) ≡ exts_size es + length post
length-put_exts [] post = omega arith
length-put_exts (e ∷ es) post =
    omega (arith, length-append e.body (put_exts es post), length-put_exts es post)

-- A handshake record in front, of which a message is read.
handshake_record :
    (bytes : List ℕ) (end : ℕ) (h : ParsedHello)
    → byte bytes 0 ≡ 0x16
    → end ≡ 5 + read_u16 bytes 3
    → end ≤ length bytes
    → message_loop (suc (length bytes)) bytes end 5 ≡ parsed h
    → parse_server_hello bytes ≡ parsed h
unfolding parse_server_hello record_loop
handshake_record bytes end h kind e whole message =
    let there : (ltb (length bytes) (0 + 5) || ltb (length bytes) (0 + 5 + read_u16 bytes (0 + 3)))
        ≡ false =
      ground arith in
    let read : message_loop (suc (length bytes)) bytes (0 + 5 + read_u16 bytes (0 + 3)) (0 + 5)
        ≡ parsed h =
      rw e at message in
    rw (there, kind) (rw read refl)

-- The record is there as a whole.
pub length-put_server_hello :
    (minor : ℕ) (m : ServerHello) (post : List ℕ)
    → length m.random ≡ 32
    → length (put_server_hello minor m post) ≡ 9 + body_size m + length post
length-put_server_hello minor m post h = omega (
  arith,
  h,
  length-append m.random (put_session m post),
  length-append m.session_id (put_tail m post),
  length-put_exts m.exts post,
)

module _ (minor : ℕ) (m : ServerHello) (post : List ℕ) (fits : IsServerHello m) where
  abbrev sent : List ℕ
  sent = put_server_hello minor m post

  abbrev answer : Parsed
  answer = parsed (hello (negotiated m.version m.exts) m.cipher_suite)

  message_loop-put : (fuel : ℕ) → 1 ≤ fuel → message_loop fuel sent (9 + body_size m) 5 ≡ answer
  unfolding message_loop
  message_loop-put zero h = absurd (omega arith)
  message_loop-put (suc fuel) h =
      let size =
        read_u24-u24 6 (body_size m) sent (u16 m.version ++ (m.random ++ put_session m post))
          (omega (arith, fits.size_fits)) refl in
      let total = length-put_server_hello minor m post fits.random_size in
      let fits_record : (not (leb (5 + 4) (9 + body_size m))
            || ltb (9 + body_size m) (5 + 4 + body_size m))
          ≡ false =
        ground arith in
      rw (size.0, fits_record)
        (parse_body-put m fits sent post (suc (length sent)) 9 refl (omega (arith, total)))

  -- The parser reads the negotiated version and the cipher suite of a ServerHello back from its bytes,
  -- whatever its session id and its extensions are and whatever bytes follow the record. The version is
  -- that of the last `supported_versions` extension with two bytes, else that of the message.
  pub parse-put_server_hello :
      parse_server_hello (put_server_hello minor m post)
      ≡ parsed (hello (negotiated m.version m.exts) m.cipher_suite)
  parse-put_server_hello =
      let size = read_u16-u16 3 (4 + body_size m) sent (drop 5 sent) fits.size_fits refl in
      let total = length-put_server_hello minor m post fits.random_size in
      handshake_record sent (9 + body_size m) (hello (negotiated m.version m.exts) m.cipher_suite)
        refl (omega (arith, size.0)) (omega (arith, total))
        (message_loop-put (suc (length sent)) (omega arith))
