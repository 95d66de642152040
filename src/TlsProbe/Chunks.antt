-- ===== src/TlsProbe/Chunks.antt =====
-- The probe of src/tls-probe.ts on a ServerHello that arrives in pieces.
use agent_commerce_lab.Prelude.{
  ℕ, zero, suc, ◌+◌, ◌≤◌, ◌<◌, ◌≡◌, refl, sym, ap, ◌∙◌, true, ◌||◌, String, List, [], ◌∷◌, ◌++◌,
  map, append_assoc, append-nil, length, length-append, get_elem?, arith, ltb, Bool-cases, inl, inr,
}
use agent_commerce_lab.TlsProbe.{build_client_hello}
use agent_commerce_lab.TlsProbe.Parse.{
  hello, parsed, incomplete, read_u16, record_loop, parse_server_hello,
}
use agent_commerce_lab.TlsProbe.Parse.Encode.{
  ServerHello, IsServerHello, body_size, put_server_hello, negotiated,
}
use agent_commerce_lab.TlsProbe.Parse.Positions.{drop, read_u16-u16}
use agent_commerce_lab.TlsProbe.Parse.RoundTrip.{length-put_server_hello, parse-put_server_hello}
use agent_commerce_lab.TlsProbe.Probe.{
  chunk, socket_reads, read_loop, hello_result, TlsWorld, probe_tls,
}

abbrev pub concat : List (List ℕ) → List ℕ
concat [] = []
concat (c ∷ cs) = c ++ concat cs

get-append :
    (i : ℕ) (front back : List ℕ)
    → i < length front
    → get_elem? (front ++ back) i ≡ get_elem? front i
get-append i [] back h = absurd (omega arith)
get-append zero (x ∷ front) back h = refl
get-append (suc i) (x ∷ front) back h = get-append i front back (omega arith)

-- Nothing of a record that is not there as a whole is read.
short_record :
    (front back : List ℕ)
    → length front < 5 + read_u16 (front ++ back) 3
    → parse_server_hello front ≡ incomplete
unfolding parse_server_hello record_loop
short_record front back h =
    let short : (ltb (length front) (0 + 5) || ltb (length front) (0 + 5 + read_u16 front (0 + 3)))
        ≡ true =
      elim (Bool-cases (ltb (length front) 5)) [
        | inl few ↦ rw few refl
        | inr header ↦
            let third = get-append 3 front back (ground arith) in
            let fourth = get-append 4 front back (ground arith) in
            rw header (ground (arith, third, fourth))
      ] in
    rw short refl

append_short : (front back : List ℕ) → length (front ++ back) ≤ length front → back ≡ []
append_short front [] h = refl
append_short front (x ∷ back) h = absurd (omega (arith, length-append front (x ∷ back)))

module _ (minor : ℕ) (m : ServerHello) (fits : IsServerHello m) where
  read_loop-put :
      (acc : List ℕ) (cs : List (List ℕ))
      → acc ++ concat cs ≡ put_server_hello minor m []
      → length acc < length (put_server_hello minor m [])
      → read_loop acc (map chunk cs) ≡ hello_result (negotiated m.version m.exts) m.cipher_suite
  read_loop-put acc [] h short = absurd (omega (arith, ap length (sym (append-nil acc) ∙ h)))
  read_loop-put acc (c ∷ cs) h short =
      let whole : (acc ++ c) ++ concat cs ≡ put_server_hello minor m [] =
        rw (append_assoc acc c (concat cs)) h in
      let size =
        read_u16-u16 3 (4 + body_size m) (put_server_hello minor m [])
          (drop 5 (put_server_hello minor m [])) fits.size_fits refl in
      let total = length-put_server_hello minor m [] fits.random_size in
      elim (Bool-cases (ltb (length (acc ++ c)) (length (put_server_hello minor m [])))) [
        | inl more ↦
            let nothing =
              short_record (acc ++ c) (concat cs) (rw whole (ground (arith, size.0, total))) in
            rw nothing (read_loop-put (acc ++ c) cs whole (ground arith))
        | inr all_there ↦
            let end = append_short (acc ++ c) (concat cs) (rw whole (ground arith)) in
            let bytes : acc ++ c ≡ put_server_hello minor m [] =
              sym (append-nil (acc ++ c)) ∙ rw end at whole in
            let answer : parse_server_hello (acc ++ c)
                ≡ parsed (hello (negotiated m.version m.exts) m.cipher_suite) =
              rw bytes (parse-put_server_hello minor m [] fits) in
            rw answer refl
      ]

  -- However a server cuts the record of its ServerHello into pieces, the probe reports the negotiated
  -- version and the cipher suite of the message.
  pub probe_tls-chunks :
      (w : TlsWorld) (hostname : String) (cs : List (List ℕ))
      → w.connect hostname (build_client_hello w.random (w.encode hostname) w.public_key)
        ≡ socket_reads (map chunk cs)
      → concat cs ≡ put_server_hello minor m []
      → probe_tls w hostname ≡ hello_result (negotiated m.version m.exts) m.cipher_suite
  unfolding probe_tls
  probe_tls-chunks w hostname cs connects h =
      rw connects
        (read_loop-put [] cs h (omega (arith, length-put_server_hello minor m [] fits.random_size)))
