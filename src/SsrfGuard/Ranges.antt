-- ===== src/SsrfGuard/Ranges.antt =====
-- The blocked ranges of src/ssrf-guard.ts byte by byte.
use agent_commerce_lab.Prelude.{
  ℕ, ◌+◌, ◌*◌, ◌/◌, ◌≤◌, ◌≡◌, false, ◌&&◌, ◌||◌, refl, leb, ◌==◌, arith,
}
use agent_commerce_lab.SsrfGuard.{IPv4, in_blocked_range}

-- Four bytes.
pub record IsIPv4 (ip : IPv4) : Type 0 where
  pub a_byte : ip.a ≤ 255
  pub b_byte : ip.b ≤ 255
  pub c_byte : ip.c ≤ 255
  pub d_byte : ip.d ≤ 255

first_byte :
    (a b c d : ℕ)
    → b ≤ 255
    → c ≤ 255
    → d ≤ 255
    → (a * 16777216 + b * 65536 + c * 256 + d) / 16777216 ≡ a
first_byte a b c d hb hc hd = omega arith

two_bytes :
    (a b c d : ℕ)
    → c ≤ 255
    → d ≤ 255
    → (a * 16777216 + b * 65536 + c * 256 + d) / 65536 ≡ a * 256 + b
two_bytes a b c d hc hd = omega arith

twelve_bits :
    (a b c d : ℕ)
    → c ≤ 255
    → d ≤ 255
    → (a * 16777216 + b * 65536 + c * 256 + d) / 1048576 ≡ a * 16 + b / 16
twelve_bits a b c d hc hd = omega arith

same_two : (a b x y : ℕ) → b ≤ 255 → y ≤ 255 → (a * 256 + b == x * 256 + y) ≡ (a == x && b == y)
same_two a b x y hb hy = ground arith

same_twelve : (a b : ℕ) → b ≤ 255 → (a * 16 + b / 16 == 2753) ≡ (a == 172 && leb 16 b && leb b 31)
same_twelve a b hb = ground arith

-- An address of four bytes is in a blocked range exactly if it is 10.*, 172.16.* to 172.31.*, 192.168.*,
-- 127.* or 169.254.*.
pub in_blocked_range_lem :
    (ip : IPv4)
    → IsIPv4 ip
    → in_blocked_range ip ≡ (
        ip.a == 10
        || ((ip.a == 172 && leb 16 ip.b && leb ip.b 31)
            || ((ip.a == 192 && ip.b == 168)
                || (ip.a == 127 || ((ip.a == 169 && ip.b == 254) || false)))))
unfolding in_blocked_range
in_blocked_range_lem ip h =
    rw
      (
        first_byte ip.a ip.b ip.c ip.d h.b_byte h.c_byte h.d_byte,
        twelve_bits ip.a ip.b ip.c ip.d h.c_byte h.d_byte,
        two_bytes ip.a ip.b ip.c ip.d h.c_byte h.d_byte,
        same_twelve ip.a ip.b h.b_byte,
        same_two ip.a ip.b 192 168 h.b_byte (omega arith),
        same_two ip.a ip.b 169 254 h.b_byte (omega arith),
      )
      refl
