-- ===== src/TlsProbe/Tests.antt =====
-- The probe of src/tls-probe.ts on a ServerHello of TLS 1.3.
use agent_commerce_lab.Prelude.{
  ℕ, zero, suc, ◌≡◌, refl, ◌≢◌, List, [], ◌∷◌, ◌++◌, arith, some, true, map,
}
use agent_commerce_lab.Prelude.Match.{codes}
use agent_commerce_lab.TlsProbe.Probe.{TlsWorld, chunk, socket_reads, hello_result, probe_tls}
use agent_commerce_lab.TlsProbe.Chunks.{probe_tls-chunks}
use agent_commerce_lab.TlsProbe.Parse.{
  hello, parsed, stuck, parse_server_hello, record_loop, message_loop, parse_body, ext_loop,
}
use agent_commerce_lab.TlsProbe.Parse.Encode.{ServerHello, IsServerHello, put_server_hello}
use agent_commerce_lab.TlsProbe.Parse.RoundTrip.{parse-put_server_hello}
use agent_commerce_lab.TlsProbe.Parse.Ends.{parse_server_hello-ne-stuck}

abbrev eight : ℕ → List ℕ
eight n = n ∷ n ∷ n ∷ n ∷ n ∷ n ∷ n ∷ n ∷ []

-- TLS 1.3 by its extension, behind a key share, with a session id of two bytes.
abbrev modern : ServerHello
modern = record {
  version = 0x0303;
  random = eight 7 ++ (eight 1 ++ (eight 200 ++ eight 9));
  session_id = 5 ∷ 6 ∷ [];
  cipher_suite = 0x1302;
  compression = 0;
  exts =
      record { kind = 0x0033; body = 0x00 ∷ 0x1d ∷ [] }
      ∷ record { kind = 0x002b; body = 0x03 ∷ 0x04 ∷ [] }
      ∷ [];
}

modern-IsServerHello : IsServerHello modern
modern-IsServerHello = record {
  version_fits = omega arith;
  random_size = refl;
  session_fits = omega arith;
  cipher_fits = omega arith;
  kinds_fit = (omega arith, (omega arith, tt));
  size_fits = omega arith;
}

parse-put_server_hello_example :
    parse_server_hello (put_server_hello 3 modern (0x14 ∷ 3 ∷ [])) ≡ parsed (hello 0x0304 0x1302)
parse-put_server_hello_example =
    parse-put_server_hello 3 modern (0x14 ∷ 3 ∷ []) modern-IsServerHello

parse_server_hello-ne-stuck_example : parse_server_hello (0x16 ∷ 3 ∷ 3 ∷ 0 ∷ 0 ∷ 0x15 ∷ []) ≢ stuck
parse_server_hello-ne-stuck_example = parse_server_hello-ne-stuck (0x16 ∷ 3 ∷ 3 ∷ 0 ∷ 0 ∷ 0x15 ∷ [])

-- The parser computes.
parse_test : parse_server_hello (put_server_hello 3 modern []) ≡ parsed (hello 0x0304 0x1302)
unfolding parse_server_hello record_loop message_loop parse_body ext_loop
parse_test = refl

-- A server that sends the record in three pieces.
abbrev split_at : ℕ → List ℕ → List ℕ × List ℕ
split_at zero xs = ([], xs)
split_at (suc n) [] = ([], [])
split_at (suc n) (x ∷ xs) = (x ∷ (split_at n xs).0, (split_at n xs).1)

abbrev pieces : List (List ℕ)
pieces =
    let first = split_at 4 (put_server_hello 3 modern []) in
    let second = split_at 20 first.1 in first.0 ∷ second.0 ∷ second.1 ∷ []

abbrev server : TlsWorld
server = record {
  random = eight 0;
  public_key = eight 1;
  encode = codes;
  connect = λ host sent. socket_reads (map chunk pieces);
}

probe_tls-chunks_example : probe_tls server "example.com" ≡ hello_result 0x0304 0x1302
probe_tls-chunks_example =
    probe_tls-chunks 3 modern modern-IsServerHello server "example.com" pieces refl refl

hello_result_test : (hello_result 0x0304 0x1302).cipher_suite_id ≡ some "0x1302"
hello_result_test = refl

weak_test : (hello_result 0x0303 0x002f).weak ≡ true
weak_test = refl
