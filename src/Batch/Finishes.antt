-- ===== src/Batch/Finishes.antt =====
-- The worker pool of src/batch.ts can always go on to the end.
use agent_commerce_lab.Prelude.{
  ℕ, zero, suc, ◌+◌, ◌≤◌, ◌≡◌, refl, sym, ap, ◌∙◌, ◌⊎◌, inl, inr, Bool, true, false, Option, String,
  List, [], ◌∷◌, ◌++◌, map, arith, append-nil,
}
use agent_commerce_lab.Batch.Pool.{
  BatchResultItem, Scanned, scan_one, Slot, running, finished, Pool, pool, workers, start, Step,
  claim, expire, finish, Reaches, here, next, deadline_item,
}
use agent_commerce_lab.Batch.Results.{slot_domain, count_running, steps_left, step-steps_left}
use agent_commerce_lab.Batch.Complete.{
  IsPoolOf, Step-IsPoolOf, Reaches-IsPoolOf, start-IsPoolOf, scan_one-domain,
}

module _ (scan : String → BatchResultItem) where
  -- Some scan runs, or none does.
  running-cases :
      (slots : List Slot)
      → (count_running slots ≡ 0)
        ⊎ ((before : List Slot) × (d : String) × (after : List Slot) × (slots
              ≡ before ++ running d ∷ after))
  running-cases [] = inl refl
  running-cases (running d ∷ slots) = inr ([], d, slots, refl)
  running-cases (finished item ∷ slots) = elim (running-cases slots) [
    | inl nothing ↦ inl nothing
    | inr (before, d, after, e) ↦
        inr (finished item ∷ before, d, after, ap (λ zs. finished item ∷ zs) e)
  ]

  -- A worker that waits takes a domain, or gives it up past the deadline.
  take_next :
      (slots : List Slot) (d : String) (ds : List String) (w : ℕ) (late : Bool)
      → 1 ≤ w
      → (t : Pool) × Step scan (pool slots (d ∷ ds) w late) t
  take_next slots d ds zero late h = absurd (omega arith)
  take_next slots d ds (suc w) false h =
      (pool (slots ++ running d ∷ []) ds w false, claim slots d ds w)
  take_next slots d ds (suc w) true h =
      (pool (slots ++ finished (deadline_item d) ∷ []) ds (suc w) true, expire slots d ds w)

  finish_one :
      (slots before after : List Slot) (d : String) (ds : List String) (w : ℕ) (late : Bool)
      → slots ≡ before ++ running d ∷ after
      → (t : Pool) × Step scan (pool slots ds w late) t
  finish_one slots before after d ds w late e =
      rw e (
        pool (before ++ finished (scan d) ∷ after) ds (suc w) late,
        finish before after d ds w late,
      )

  -- A pool with a worker is done, or has a step.
  progress :
      (slots : List Slot) (ds : List String) (w : ℕ) (late : Bool)
      → 1 ≤ w + count_running slots
      → ((ds ≡ []) × (count_running slots ≡ 0)) ⊎ ((t : Pool) × Step scan (pool slots ds w late) t)
  progress slots ds w late h = elim (running-cases slots) [
    | inr (before, d, after, e) ↦ inr (finish_one slots before after d ds w late e)
    | inl nothing ↦ by_waiting ds nothing
  ]
    where
      by_waiting :
          (ds : List String)
          → count_running slots ≡ 0
          → ((ds ≡ []) × (count_running slots ≡ 0))
            ⊎ ((t : Pool) × Step scan (pool slots ds w late) t)
      by_waiting [] nothing = inl (refl, nothing)
      by_waiting (d ∷ ds) nothing = inr (take_next slots d ds w late (omega (arith, h, nothing)))

  go_first : {s t u : Pool} → Step scan s t → Reaches scan t u → Reaches scan s u
  go_first st here = next here st
  go_first st (next r step) = next (go_first st r) step

  module _ (own : (d : String) → (scan d).domain ≡ d) (c : ℕ) (domains : List String) where
    abbrev Ends : Pool → Type 0
    Ends s =
        (t : Pool) × Reaches scan s t
        × (t.waiting ≡ [])
        × (count_running t.claimed ≡ 0)
        × (map slot_domain t.claimed ≡ domains)

    one_worker : 1 ≤ workers c domains
    one_worker = omega arith

    done_or_step : (s : Pool) → IsPoolOf scan c domains s → Ends s ⊎ ((t : Pool) × Step scan s t)
    done_or_step s h =
        elim (progress s.claimed s.waiting s.idle s.late
          (omega (arith, h.all_workers, one_worker))) [
            | inr step ↦ inr step
            | inl (none_waits, none_runs) ↦
                let in_order : map slot_domain s.claimed ++ [] ≡ domains =
                  rw none_waits at h.in_order in
                inl (
                  s,
                  here,
                  none_waits,
                  none_runs,
                  sym (append-nil (map slot_domain s.claimed)) ∙ in_order,
                )
          ]

    goes_on : (n : ℕ) (s : Pool) → steps_left s ≤ n → IsPoolOf scan c domains s → Ends s
    goes_on zero s bound h = elim (done_or_step s h) [
      | inl end ↦ end
      | inr (t, step) ↦ absurd (omega (arith, step-steps_left scan s t step))
    ]
    goes_on (suc n) s bound h = elim (done_or_step s h) [
      | inl end ↦ end
      | inr (t, step) ↦
          let rest =
            goes_on n t (omega (arith, step-steps_left scan s t step))
              (Step-IsPoolOf scan own c domains s t step h) in
          (rest.0, go_first step rest.1, rest.2, rest.3, rest.4)
    ]

-- From every pool that a batch can reach, however its workers took turns so far and whether or not the
-- deadline has passed, steps lead to a pool where no domain waits and no scan runs, and the results name
-- the domains of the request in their order.
pub batch_finishes :
    (protocol_of : String → Option String) (run_snapshot : String → Scanned) (c : ℕ)
    (domains : List String) (s : Pool)
    → Reaches (scan_one protocol_of run_snapshot) (start c domains) s
    → (t : Pool) × Reaches (scan_one protocol_of run_snapshot) s t
      × (t.waiting ≡ [])
      × (count_running t.claimed ≡ 0)
      × (map slot_domain t.claimed ≡ domains)
batch_finishes protocol_of run_snapshot c domains s r =
    let scan = scan_one protocol_of run_snapshot in
    let own = scan_one-domain protocol_of run_snapshot in
    goes_on scan own c domains (steps_left s) s (omega arith)
      (Reaches-IsPoolOf scan own c domains r (start-IsPoolOf scan own c domains))
