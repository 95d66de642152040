-- ===== src/Batch/Complete.antt =====
-- The invariant of the worker pool of src/batch.ts and what a finished batch holds.
use agent_commerce_lab.Prelude.{
  ℕ, ◌+◌, ◌≤◌, Option, some, none, String, List, [], ◌∷◌, ◌++◌, ◌≡◌, ◌⊎◌, inl, inr, refl, sym, ap,
  ◌∙◌, map, append_assoc, All, All-append, arith,
}
use agent_commerce_lab.Batch.Pool.{
  BatchResultItem, deadline_item, Scanned, snapshot_taken, scan_threw, item_of, scan_checked,
  parse_http_url, scan_one, Slot, running, finished, Pool, workers, start, Step, claim, expire,
  finish, pass_deadline, Reaches, here, next,
}
use agent_commerce_lab.Batch.Results.{
  slot_domain, count_running, count_running-append, domains-append,
}

All-back : (P : Slot → Type 0) (xs ys : List Slot) → All P (xs ++ ys) → All P ys
All-back P [] ys h = h
All-back P (x ∷ xs) ys h = All-back P xs ys h.1

All-front : (P : Slot → Type 0) (xs ys : List Slot) → All P (xs ++ ys) → All P xs
All-front P [] ys h = tt
All-front P (x ∷ xs) ys h = (h.0, All-front P xs ys h.1)

module _ (scan : String → BatchResultItem) where
  -- A stored result is that of the scan of its domain, or the deadline's.
  abbrev pub IsAnswered : Slot → Type 0
  IsAnswered (running d) = Unit
  IsAnswered (finished item) = (item ≡ scan item.domain) ⊎ (item ≡ deadline_item item.domain)

  -- The slots and the waiting domains are the domains in their order, each worker waits or scans, and
  -- the stored results are answers.
  pub record IsPoolOf (c : ℕ) (domains : List String) (s : Pool) : Type 0 where
    pub in_order : map slot_domain s.claimed ++ s.waiting ≡ domains
    pub all_workers : s.idle + count_running s.claimed ≡ workers c domains
    pub answered : All IsAnswered s.claimed

  one_more :
      (slots : List Slot) (x : Slot) (ds : List String)
      → map slot_domain (slots ++ x ∷ []) ++ ds ≡ map slot_domain slots ++ slot_domain x ∷ ds
  one_more slots x ds =
      ap (λ zs. zs ++ ds) (domains-append slots (x ∷ []))
      ∙ append_assoc (map slot_domain slots) (slot_domain x ∷ []) ds

  module _ (own : (d : String) → (scan d).domain ≡ d) (c : ℕ) (domains : List String) where
    same_place :
        (xs ys : List Slot) (d : String)
        → map slot_domain (xs ++ finished (scan d) ∷ ys) ≡ map slot_domain (xs ++ running d ∷ ys)
    same_place xs ys d =
        domains-append xs (finished (scan d) ∷ ys)
        ∙ (ap (λ n. map slot_domain xs ++ n ∷ map slot_domain ys) (own d)
            ∙ sym (domains-append xs (running d ∷ ys)))

    pub Step-IsPoolOf : (s t : Pool) → Step scan s t → IsPoolOf c domains s → IsPoolOf c domains t
    Step-IsPoolOf s t (claim slots d ds w) h = record {
      in_order = one_more slots (running d) ds ∙ h.in_order;
      all_workers = omega (arith, h.all_workers, count_running-append slots (running d ∷ []));
      answered = All-append IsAnswered slots _ h.answered (tt, tt);
    }
    Step-IsPoolOf s t (expire slots d ds w) h = record {
      in_order = one_more slots (finished (deadline_item d)) ds ∙ h.in_order;
      all_workers =
          omega
            (arith, h.all_workers, count_running-append slots (finished (deadline_item d) ∷ []));
      answered = All-append IsAnswered slots _ h.answered (inr refl, tt);
    }
    Step-IsPoolOf s t (finish xs ys d ds w late) h = record {
      in_order = ap (λ zs. zs ++ ds) (same_place xs ys d) ∙ h.in_order;
      all_workers = omega (
        arith,
        h.all_workers,
        count_running-append xs (running d ∷ ys),
        count_running-append xs (finished (scan d) ∷ ys),
      );
      answered =
          All-append IsAnswered xs _ (All-front IsAnswered xs (running d ∷ ys) h.answered)
            (inl (ap scan (sym (own d))), (All-back IsAnswered xs (running d ∷ ys) h.answered).1);
    }
    Step-IsPoolOf s t (pass_deadline slots ds w) h = record {
      in_order = h.in_order;
      all_workers = h.all_workers;
      answered = h.answered;
    }

    pub Reaches-IsPoolOf :
        {s t : Pool} → Reaches scan s t → IsPoolOf c domains s → IsPoolOf c domains t
    Reaches-IsPoolOf here h = h
    Reaches-IsPoolOf (next r st) h = Step-IsPoolOf _ _ st (Reaches-IsPoolOf r h)

    pub start-IsPoolOf : IsPoolOf c domains (start c domains)
    start-IsPoolOf = record { in_order = refl; all_workers = omega arith; answered = tt }

item_of-domain :
    (protocol_of : String → Option String) (run_snapshot : String → Scanned) (d : String)
    (r : Scanned)
    → (item_of protocol_of run_snapshot d r).domain ≡ d
item_of-domain protocol_of run_snapshot d (snapshot_taken s) = refl
item_of-domain protocol_of run_snapshot d (scan_threw e) = refl

checked_domain :
    (protocol_of : String → Option String) (run_snapshot : String → Scanned) (d : String)
    (o : Option String)
    → (scan_checked protocol_of run_snapshot d o).domain ≡ d
checked_domain protocol_of run_snapshot d none =
    item_of-domain protocol_of run_snapshot d (run_snapshot d)
checked_domain protocol_of run_snapshot d (some e) = refl

pub scan_one-domain :
    (protocol_of : String → Option String) (run_snapshot : String → Scanned) (d : String)
    → (scan_one protocol_of run_snapshot d).domain ≡ d
unfolding scan_one
scan_one-domain protocol_of run_snapshot d =
    checked_domain protocol_of run_snapshot d (parse_http_url protocol_of run_snapshot d)

-- However the workers take turns, the pool never scans more domains at once than it has workers, the
-- slots followed by the waiting domains name the domains of the request in their order, and a stored
-- result is that of the scan of its domain or the deadline's.
pub batch_in_order :
    (protocol_of : String → Option String) (run_snapshot : String → Scanned) (c : ℕ)
    (domains : List String) (s : Pool)
    → Reaches (scan_one protocol_of run_snapshot) (start c domains) s
    → (count_running s.claimed ≤ workers c domains)
      × (map slot_domain s.claimed ++ s.waiting ≡ domains)
      × All (IsAnswered (scan_one protocol_of run_snapshot)) s.claimed
batch_in_order protocol_of run_snapshot c domains s r =
    let scan = scan_one protocol_of run_snapshot in
    let h =
      Reaches-IsPoolOf scan (scan_one-domain protocol_of run_snapshot) c domains r
        (start-IsPoolOf scan (scan_one-domain protocol_of run_snapshot) c domains) in
    (omega (arith, h.all_workers), h.in_order, h.answered)
