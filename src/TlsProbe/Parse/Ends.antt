-- ===== src/TlsProbe/Parse/Ends.antt =====
-- The loops of `parseServerHello` of src/tls-probe.ts end on any bytes.
use agent_commerce_lab.Prelude.{
  ℕ, zero, suc, ◌+◌, ◌≤◌, ◌<◌, ◌≡◌, ◌≢◌, refl, Bool, true, false, ◌||◌, not, Option, none, some,
  List, length, get_elem?, leb, ltb, ◌==◌, min, arith, Bool-cases, inl, inr, is_some,
}
use agent_commerce_lab.TlsProbe.Parse.{
  Parsed, parsed, incomplete, stuck, byte, read_u16, read_u24, ext_version, ext_loop, hello_of,
  after_session, session_at, parse_body, message_loop, or_next, record_loop, parse_server_hello,
}

ext_loop-returns :
    (fuel : ℕ) (bytes : List ℕ) (ext_end p version : ℕ)
    → 1 ≤ fuel
    → ext_end < fuel + p
    → is_some (ext_loop fuel bytes ext_end p version) ≡ true
unfolding ext_loop
ext_loop-returns zero bytes ext_end p version h enough = absurd (omega arith)
ext_loop-returns (suc fuel) bytes ext_end p version h enough =
    elim (Bool-cases (leb (p + 4) ext_end)) [
      | inl more ↦ rw more (
          ext_loop-returns fuel bytes ext_end (p + 4 + read_u16 bytes (p + 2))
            (ext_version bytes p version) (ground arith) (ground arith))
      | inr last ↦ rw last refl
    ]

is_stuck : Parsed → Bool
is_stuck stuck = true
is_stuck _ = false

hello_of-returns :
    (cipher : ℕ) (o : Option ℕ) → is_some o ≡ true → is_stuck (hello_of cipher o) ≡ false
unfolding is_stuck
hello_of-returns cipher none h = cc
hello_of-returns cipher (some v) h = refl

after_session-returns :
    (fuel : ℕ) (bytes : List ℕ) (body_end legacy p : ℕ)
    → body_end < fuel
    → is_stuck (after_session fuel bytes body_end legacy p) ≡ false
after_session-returns fuel bytes body_end legacy p enough =
    hello_of-returns (read_u16 bytes p) _ (elim (Bool-cases (leb (p + 3 + 2) body_end)) [
      | inr none_there ↦ rw none_there refl
      | inl more ↦ rw more (
          ext_loop-returns fuel bytes (min (p + 3 + 2 + read_u16 bytes (p + 3)) body_end)
            (p + 3 + 2) legacy (omega arith) (omega arith))
    ])

parse_body-returns :
    (fuel : ℕ) (bytes : List ℕ) (start len : ℕ)
    → start + len < fuel
    → is_stuck (parse_body fuel bytes start len) ≡ false
unfolding parse_body is_stuck
parse_body-returns fuel bytes start len enough = by_length (get_elem? bytes (start + 34))
  where
    by_length :
        (o : Option ℕ)
        → is_stuck (session_at fuel bytes (start + len) (read_u16 bytes start) (start + 34) o)
          ≡ false
    by_length none = refl
    by_length (some n) =
        after_session-returns fuel bytes (start + len) (read_u16 bytes start) (start + 34 + (1 + n))
          enough

message_loop-returns :
    (fuel : ℕ) (bytes : List ℕ) (record_end at : ℕ)
    → record_end ≤ length bytes
    → 1 ≤ fuel
    → record_end < fuel + at
    → is_stuck (message_loop fuel bytes record_end at) ≡ false
unfolding message_loop
message_loop-returns zero bytes record_end at inside h enough = absurd (omega arith)
message_loop-returns (suc fuel) bytes record_end at inside h enough =
    let len = read_u24 bytes (at + 1) in
    elim (Bool-cases (not (leb (at + 4) record_end) || ltb record_end (at + 4 + len))) [
      | inl left ↦ rw left (unfold is_stuck in refl)
      | inr fits ↦
          let within : at + 4 + len ≤ record_end = ground arith in
          rw fits (elim (Bool-cases (byte bytes at == 0x02)) [
            | inl server_hello ↦
                rw server_hello
                  (parse_body-returns (suc (length bytes)) bytes (at + 4) len (omega arith))
            | inr other ↦ rw other (
                message_loop-returns fuel bytes record_end (at + 4 + len) inside (omega arith)
                  (omega arith))
          ])
    ]

or_next-returns :
    (p q : Parsed) → is_stuck p ≡ false → is_stuck q ≡ false → is_stuck (or_next p q) ≡ false
unfolding is_stuck
or_next-returns incomplete q hp hq = hq
or_next-returns (parsed h) q hp hq = refl
or_next-returns stuck q hp hq = cc

record_loop-returns :
    (fuel : ℕ) (bytes : List ℕ) (offset : ℕ)
    → 1 ≤ fuel
    → length bytes < fuel + offset
    → is_stuck (record_loop fuel bytes offset) ≡ false
unfolding record_loop
record_loop-returns zero bytes offset h enough = absurd (omega arith)
record_loop-returns (suc fuel) bytes offset h enough =
    let end = offset + 5 + read_u16 bytes (offset + 3) in
    elim (Bool-cases (ltb (length bytes) (offset + 5) || ltb (length bytes) end)) [
      | inl short ↦ rw short (unfold is_stuck in refl)
      | inr whole ↦
          let inside : end ≤ length bytes = ground arith in
          let next = record_loop-returns fuel bytes end (omega arith) (omega arith) in
          rw whole (elim (Bool-cases (byte bytes offset == 0x15)) [
            | inl warns ↦ rw warns (unfold is_stuck in refl)
            | inr other ↦ rw other (elim (Bool-cases (byte bytes offset == 0x16)) [
              | inl handshake ↦ rw handshake (
                  or_next-returns (message_loop (suc (length bytes)) bytes end (offset + 5))
                    (record_loop fuel bytes end)
                    (message_loop-returns (suc (length bytes)) bytes end (offset + 5) inside
                      (omega arith) (omega arith))
                    next)
              | inr skipped ↦ rw skipped next
            ])
          ])
    ]

is_stuck_sound : (p : Parsed) → is_stuck p ≡ false → p ≢ stuck
unfolding is_stuck
is_stuck_sound p h e = cc

-- The parser ends on every list of bytes: none of its loops runs out of fuel.
pub parse_server_hello-ne-stuck : (bytes : List ℕ) → parse_server_hello bytes ≢ stuck
unfolding parse_server_hello
parse_server_hello-ne-stuck bytes =
    is_stuck_sound (record_loop (suc (length bytes)) bytes 0)
      (record_loop-returns (suc (length bytes)) bytes 0 (omega arith) (omega arith))
