-- ===== src/Batch/Results.antt =====
-- What the worker pool of src/batch.ts returns.
use agent_commerce_lab.Prelude.{
  ℕ, suc, ◌+◌, ◌*◌, ◌<◌, Bool, true, false, String, List, [], ◌∷◌, ◌++◌, ◌≡◌, refl, ap, map, length,
  arith,
}
use agent_commerce_lab.Batch.Pool.{
  BatchResultItem, deadline_item, Slot, running, finished, Pool, Step, claim, expire, finish,
  pass_deadline,
}

-- The domain of a slot, as its request names it.
abbrev pub slot_domain : Slot → String
slot_domain (running d) = d
slot_domain (finished item) = item.domain

abbrev pub count_running : List Slot → ℕ
count_running [] = 0
count_running (running d ∷ slots) = suc (count_running slots)
count_running (finished item ∷ slots) = count_running slots

pub count_running-append :
    (xs ys : List Slot) → count_running (xs ++ ys) ≡ count_running xs + count_running ys
count_running-append [] ys = omega arith
count_running-append (running d ∷ xs) ys = omega (arith, count_running-append xs ys)
count_running-append (finished i ∷ xs) ys = count_running-append xs ys

pub domains-append :
    (xs ys : List Slot) → map slot_domain (xs ++ ys) ≡ map slot_domain xs ++ map slot_domain ys
domains-append [] ys = refl
domains-append (x ∷ xs) ys = ap (λ zs. slot_domain x ∷ zs) (domains-append xs ys)

-- The steps that are left: two for a waiting domain, one for a running scan, one for the deadline.
abbrev pub clock : Bool → ℕ
clock true = 0
clock false = 1

abbrev pub steps_left : Pool → ℕ
steps_left s = 2 * length s.waiting + count_running s.claimed + clock s.late

module _ (scan : String → BatchResultItem) where
  -- Each step of the pool lowers the steps that are left: two for a waiting domain, one for a running
  -- scan, one for the deadline.
  pub step-steps_left : (s t : Pool) → Step scan s t → steps_left t < steps_left s
  step-steps_left s t (claim slots d ds w) =
      omega (arith, count_running-append slots (running d ∷ []))
  step-steps_left s t (expire slots d ds w) =
      omega (arith, count_running-append slots (finished (deadline_item d) ∷ []))
  step-steps_left s t (finish xs ys d ds w late) = omega (
    arith,
    count_running-append xs (running d ∷ ys),
    count_running-append xs (finished (scan d) ∷ ys),
  )
  step-steps_left s t (pass_deadline slots ds w) = omega arith
