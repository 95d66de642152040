-- ===== src/Autonomous/Payment/Nonces.antt =====
-- The nonces of src/autonomous/state-machine.ts: they differ between attempts, and between a
-- transaction and its alternative; so a transaction whose nonces are unused never throws.
use agent_commerce_lab.Prelude.{
  ℕ, zero, suc, ◌+◌, ◌≤◌, ◌≡◌, ◌≢◌, refl, sym, ap, ◌∙◌, inl, inr, false, String, arith, Bool-cases,
}
use agent_commerce_lab.Prelude.Text.{◌<>◌, decimal, decimal_injective}
use agent_commerce_lab.Autonomous.Types.{
  Draft, ServiceId, SettlementStatus, settled, pending, failed, unknown, Verified, verified_settled,
  verified_failed, TransactionInput,
}
use agent_commerce_lab.Autonomous.Ledger.{
  Ledger, record_row, can_issue_payment, nonce_used, has_nonce,
}
use agent_commerce_lab.Autonomous.Ledger.Laws.{stored, nonce_used-record_row}
use agent_commerce_lab.Autonomous.Session.{Session, Thrown, returned, threw}
use agent_commerce_lab.Autonomous.Payment.{
  PayResult, Turn, done, again, broke, nonce_for, pay_row, verify_row, after_verify, verify_turn,
  after_pay, pay_turn, after_turn, pay_from, pay_with_retries,
}
use Prim.Native.Char.{Char, code}
use Prim.Native.String
use text.Mathlib.TextEquality.{eq_iff}
use text.Mathlib.TextLemmas.{append_cancel_left, append_assoc, cons-append}

-- Different attempts of a transaction have different nonces.
pub nonce_for_injective : (tx : String) (a b : ℕ) → nonce_for tx a ≡ nonce_for tx b → a ≡ b
unfolding nonce_for
nonce_for_injective tx a b e = decimal_injective a b (
    append_cancel_left ":pay:" (decimal a) (decimal b)
      (append_cancel_left tx (":pay:" <> decimal a) (":pay:" <> decimal b) e))

first_code : String → ℕ
first_code String.[] = 0
first_code (String.◌∷◌ c s) = code c

first_code-append : (c : Char) (s t : String) → first_code (String.◌∷◌ c s <> t) ≡ code c
unfolding first_code
first_code-append c s t = rw cons-append refl

-- No nonce of an alternative is a nonce of its transaction.
pub nonce_for_alternative : (tx : String) (j k : ℕ) → nonce_for (tx <> "-alt") j ≢ nonce_for tx k
unfolding nonce_for first_code
nonce_for_alternative tx j k e =
    let rest : String.◌++◌ "-alt" (":pay:" <> decimal j) ≡ ":pay:" <> decimal k =
      append_cancel_left tx _ _ (sym (append_assoc tx "-alt" (":pay:" <> decimal j)) ∙ e) in
    let codes : ◌≡◌ {A = ℕ} 45 58 =
      sym (first_code-append _ "alt" (":pay:" <> decimal j))
      ∙ ap first_code rest
      ∙ first_code-append _ "pay:" (decimal k) in
    absurd (omega arith)

-- A row without this nonce leaves it unused.
pub unused-record_row :
    (n : String) (d : Draft) (l : Ledger)
    → has_nonce n (stored d l) ≡ false
    → nonce_used n l ≡ false
    → nonce_used n (record_row d l) ≡ false
unused-record_row n d l h u = rw (nonce_used-record_row n d l, u) h

-- None of the nonces of a transaction from an attempt on is used.
abbrev pub UnusedFrom : ℕ → String → Ledger → Type 0
UnusedFrom from tx l = (k : ℕ) → from ≤ k → nonce_used (nonce_for tx k) l ≡ false

abbrev pub IsReturned : {A : Type 0} → Thrown A → Type 0
IsReturned (returned a) = Unit
IsReturned (threw m) = ⊥

abbrev NoThrow : Turn → Type 0
NoThrow (broke m) = ⊥
NoThrow _ = Unit

module _ (input : TransactionInput) (tx : String) (service : ServiceId) (price : ℕ) where
  has_nonce-pay_row :
      (n : String) (attempt : ℕ) (outcome : SettlementStatus) (l : Ledger)
      → nonce_for tx attempt ≢ n
      → has_nonce n (stored (pay_row input tx service price attempt outcome) l) ≡ false
  has_nonce-pay_row n attempt outcome l h = ground (arith, eq_iff (nonce_for tx attempt) n)

  after_verify-keeps :
      (n : String) (attempt : ℕ) (v : Verified) (t : Session)
      → nonce_used n t.ledger ≡ false
      → let (turn, s') = after_verify input tx service price attempt v t in
        (nonce_used n s'.ledger ≡ false) × NoThrow turn
  unfolding after_verify
  after_verify-keeps n attempt verified_settled t u = (u, tt)
  after_verify-keeps n attempt verified_failed t u = (u, tt)

  verify_turn-keeps :
      (n : String) (attempt : ℕ) (outcome : SettlementStatus) (s : Session)
      → nonce_used n s.ledger ≡ false
      → let (turn, s') = verify_turn input tx service price attempt outcome s in
        (nonce_used n s'.ledger ≡ false) × NoThrow turn
  unfolding verify_turn
  verify_turn-keeps n attempt outcome s u =
      let v = input.world.verify_settlement service attempt in
      after_verify-keeps n attempt v _
        (unused-record_row n (verify_row input tx service price attempt v) s.ledger refl u)

  after_pay-keeps :
      (n : String) (attempt : ℕ) (outcome : SettlementStatus) (s : Session)
      → nonce_used n s.ledger ≡ false
      → let (turn, s') = after_pay input tx service price attempt outcome s in
        (nonce_used n s'.ledger ≡ false) × NoThrow turn
  unfolding after_pay
  after_pay-keeps n attempt settled s u = (u, tt)
  after_pay-keeps n attempt failed s u = (u, tt)
  after_pay-keeps n attempt pending s u = verify_turn-keeps n attempt pending s u
  after_pay-keeps n attempt unknown s u = verify_turn-keeps n attempt unknown s u

  -- A round with an unused nonce does not throw, and uses no other nonce.
  pay_turn-keeps :
      (n : String) (attempt : ℕ) (s : Session)
      → nonce_used (nonce_for tx attempt) s.ledger ≡ false
      → nonce_for tx attempt ≢ n
      → nonce_used n s.ledger ≡ false
      → let (turn, s') = pay_turn input tx service price attempt s in
        (nonce_used n s'.ledger ≡ false) × NoThrow turn
  unfolding pay_turn
  pay_turn-keeps n attempt s own other u =
      let guard = can_issue_payment tx s.ledger in
      let outcome = input.world.payment_outcome service attempt in
      let row = pay_row input tx service price attempt outcome in
      elim (Bool-cases input.policy.kill_switch.autonomous_commerce_enabled) [
        | inr off ↦ rw off (unused-record_row n _ s.ledger refl u, tt)
        | inl on ↦ rw on (elim (Bool-cases guard.ok) [
          | inr refused ↦ rw refused (unused-record_row n _ s.ledger refl u, tt)
          | inl allowed ↦
              rw (allowed, own)
                (after_pay-keeps n attempt outcome _ (
                  unused-record_row n row s.ledger
                    (has_nonce-pay_row n attempt outcome s.ledger other) u))
        ])
      ]

  after_turn-keeps :
      (n : String) (more : Session → Thrown PayResult × Session) (turn : Turn) (s' : Session)
      → (nonce_used n s'.ledger ≡ false) × NoThrow turn
      → (let (r, s2) = more s' in (nonce_used n s2.ledger ≡ false) × IsReturned r)
      → let (r, s2) = after_turn input tx service price more turn s' in
        (nonce_used n s2.ledger ≡ false) × IsReturned r
  after_turn-keeps n more (done r) s' h k = h
  after_turn-keeps n more again s' h k = k
  after_turn-keeps n more (broke m) s' h k = absurd h.1

  after_turn-returns :
      (more : Session → Thrown PayResult × Session) (turn : Turn) (s' : Session)
      → NoThrow turn
      → IsReturned (more s').0
      → IsReturned (after_turn input tx service price more turn s').0
  after_turn-returns more (done r) s' h k = tt
  after_turn-returns more again s' h k = k
  after_turn-returns more (broke m) s' h k = h

  -- After a round the nonces of the later attempts are unused still.
  later_unused :
      (attempt : ℕ) (s : Session)
      → UnusedFrom attempt tx s.ledger
      → UnusedFrom (attempt + 1) tx (pay_turn input tx service price attempt s).1.ledger
  later_unused attempt s own k more =
      (pay_turn-keeps (nonce_for tx k) attempt s (own attempt (omega arith))
        (λ e. absurd (omega (arith, more, nonce_for_injective tx attempt k e)))
        (own k (omega (arith, more)))).0

  pay_turn-returns :
      (attempt : ℕ) (s : Session)
      → UnusedFrom attempt tx s.ledger
      → NoThrow (pay_turn input tx service price attempt s).0
  pay_turn-returns attempt s own =
      (pay_turn-keeps (nonce_for tx (attempt + 1)) attempt s (own attempt (omega arith))
        (λ e. absurd (omega (arith, nonce_for_injective tx attempt (attempt + 1) e)))
        (own (attempt + 1) (omega arith))).1

  pay_from-returns :
      (rounds attempt : ℕ) (s : Session)
      → UnusedFrom attempt tx s.ledger
      → IsReturned (pay_from input tx service price rounds attempt s).0
  unfolding pay_from
  pay_from-returns zero attempt s own = tt
  pay_from-returns (suc rounds) attempt s own =
      let (turn, s') = pay_turn input tx service price attempt s in
      after_turn-returns (pay_from input tx service price rounds (attempt + 1)) turn s'
        (pay_turn-returns attempt s own)
        (pay_from-returns rounds (attempt + 1) s' (later_unused attempt s own))

  pay_from-keeps :
      (n : String) (rounds attempt : ℕ) (s : Session)
      → UnusedFrom attempt tx s.ledger
      → ((k : ℕ) → nonce_for tx k ≢ n)
      → nonce_used n s.ledger ≡ false
      → let (r, s') = pay_from input tx service price rounds attempt s in
        (nonce_used n s'.ledger ≡ false) × IsReturned r
  unfolding pay_from
  pay_from-keeps n zero attempt s own other u = (u, tt)
  pay_from-keeps n (suc rounds) attempt s own other u =
      let (turn, s') = pay_turn input tx service price attempt s in
      let now = own attempt (omega arith) in
      let h = pay_turn-keeps n attempt s now (other attempt) u in
      after_turn-keeps n (pay_from input tx service price rounds (attempt + 1)) turn s' h
        (pay_from-keeps n rounds (attempt + 1) s' (later_unused attempt s own) other h.0)

  -- With all nonces of the transaction unused, paying returns, and uses no nonce of another
  -- transaction.
  pub pay_with_retries-keeps :
      (n : String) (s : Session)
      → UnusedFrom 1 tx s.ledger
      → ((k : ℕ) → nonce_for tx k ≢ n)
      → nonce_used n s.ledger ≡ false
      → let (r, s') = pay_with_retries input tx service price s in
        (nonce_used n s'.ledger ≡ false) × IsReturned r
  unfolding pay_with_retries
  pay_with_retries-keeps n s own other u =
      pay_from-keeps n (1 + input.policy.retry_limits.max_payment_retries) 1 s own other u

  pub pay_with_retries-returns :
      (s : Session)
      → UnusedFrom 1 tx s.ledger
      → IsReturned (pay_with_retries input tx service price s).0
  unfolding pay_with_retries
  pay_with_retries-returns s own =
      pay_from-returns (1 + input.policy.retry_limits.max_payment_retries) 1 s own
