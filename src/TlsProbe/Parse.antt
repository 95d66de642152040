-- ===== src/TlsProbe/Parse.antt =====
-- `parseServerHello` of src/tls-probe.ts. A byte past the end is `undefined`: 0 in a shift, and no number
-- in an addition, where the position behind it compares with nothing and reads as 0. The three loops
-- over records, messages and extensions run on fuel.
pub mod Ends
pub mod Positions
pub mod Encode
pub mod Message
pub mod RoundTrip
use agent_commerce_lab.Prelude.{
  ℕ, zero, suc, ◌+◌, ◌*◌, Bool, true, false, ◌&&◌, ◌||◌, not, Option, none, some, List, [], ◌∷◌,
  length, get_elem?, or_else, leb, ltb, ◌==◌, min, if◌then◌else◌,
}

pub data ParsedHello : Type 0 where
  hello : ℕ → ℕ → ParsedHello
  alert : ParsedHello

-- What the parser returns: a message, null, or out of fuel.
pub data Parsed : Type 0 where
  parsed : ParsedHello → Parsed
  incomplete : Parsed
  stuck : Parsed

-- `bytes[i]` as an operand of `<<` and `|`.
abbrev pub byte : List ℕ → ℕ → ℕ
byte bytes i = or_else (get_elem? bytes i) 0

abbrev pub read_u16 : List ℕ → ℕ → ℕ
read_u16 bytes i = byte bytes i * 256 + byte bytes (i + 1)

abbrev pub read_u24 : List ℕ → ℕ → ℕ
read_u24 bytes i = byte bytes i * 65536 + byte bytes (i + 1) * 256 + byte bytes (i + 2)

-- `while (p + 4 <= extEnd)`: the version so far, `none` out of fuel.
abbrev pub ext_version : List ℕ → ℕ → ℕ → ℕ
ext_version bytes p version =
    if read_u16 bytes p == 0x002b && leb 2 (read_u16 bytes (p + 2))
    then read_u16 bytes (p + 4)
    else version

unfoldable pub ext_loop : ℕ → List ℕ → ℕ → ℕ → ℕ → Option ℕ
ext_loop zero bytes ext_end p version = none
ext_loop (suc fuel) bytes ext_end p version =
    let rest =
      ext_loop fuel bytes ext_end (p + 4 + read_u16 bytes (p + 2)) (ext_version bytes p version) in
    if leb (p + 4) ext_end then rest else some version

abbrev pub hello_of : ℕ → Option ℕ → Parsed
hello_of cipher none = stuck
hello_of cipher (some version) = parsed (hello version cipher)

-- Behind the session id, at `p`.
abbrev pub after_session : ℕ → List ℕ → ℕ → ℕ → ℕ → Parsed
after_session fuel bytes body_end legacy p =
    let q = p + 3 in
    hello_of (read_u16 bytes p) (
      if leb (q + 2) body_end
      then ext_loop fuel bytes (min (q + 2 + read_u16 bytes q) body_end) (q + 2) legacy
      else some legacy)

-- The body of a ServerHello. Without the byte of the session id's length the cipher suite is 0.
abbrev pub session_at : ℕ → List ℕ → ℕ → ℕ → ℕ → Option ℕ → Parsed
session_at fuel bytes body_end legacy p none = parsed (hello legacy 0)
session_at fuel bytes body_end legacy p (some n) =
    after_session fuel bytes body_end legacy (p + (1 + n))

unfoldable pub parse_body : ℕ → List ℕ → ℕ → ℕ → Parsed
parse_body fuel bytes start len =
    session_at fuel bytes (start + len) (read_u16 bytes start) (start + 34)
      (get_elem? bytes (start + 34))

-- `while (hsOffset + 4 <= recordEnd)`: a message, or `incomplete` where the loop is left.
unfoldable pub message_loop : ℕ → List ℕ → ℕ → ℕ → Parsed
message_loop zero bytes record_end at = stuck
message_loop (suc fuel) bytes record_end at =
    let len = read_u24 bytes (at + 1) in
    let rest = message_loop fuel bytes record_end (at + 4 + len) in
    if not (leb (at + 4) record_end) || ltb record_end (at + 4 + len)
    then incomplete
    else if byte bytes at == 0x02
    then parse_body (suc (length bytes)) bytes (at + 4) len
    else rest

-- The outcome of a handshake record: the loop over the records goes on behind it.
abbrev pub or_next : Parsed → Parsed → Parsed
or_next incomplete rest = rest
or_next (parsed h) rest = parsed h
or_next stuck rest = stuck

unfoldable pub record_loop : ℕ → List ℕ → ℕ → Parsed
record_loop zero bytes offset = stuck
record_loop (suc fuel) bytes offset =
    let start = offset + 5 in
    let end = start + read_u16 bytes (offset + 3) in
    let rest = record_loop fuel bytes end in
    if ltb (length bytes) start || ltb (length bytes) end
    then incomplete
    else if byte bytes offset == 0x15
    then parsed alert
    else if byte bytes offset == 0x16
    then or_next (message_loop (suc (length bytes)) bytes end start) rest
    else rest

unfoldable pub parse_server_hello : List ℕ → Parsed
parse_server_hello bytes = record_loop (suc (length bytes)) bytes 0
