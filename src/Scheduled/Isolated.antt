-- ===== src/Scheduled/Isolated.antt =====
-- One failing domain leaves the other scans of src/scheduled.ts as they are.
use agent_commerce_lab.Prelude.{
  ◌≡◌, refl, sym, ap, ◌∙◌, String, List, [], ◌∷◌, ◌++◌, none, some, false,
}
use agent_commerce_lab.Batch.Pool.{scan_threw}
use agent_commerce_lab.Scheduled.{
  ScheduledScanResult, Stores, ScheduledWorld, scan_domain, run_scheduled_scans,
}

abbrev pub failed_scan : String → String → ScheduledScanResult
failed_scan url e = record { domain = url; ok = false; error = some e; change = none; alert = none }

module _ (w : ScheduledWorld) where
  abbrev pub results : List String → Stores → List ScheduledScanResult
  results urls s = (run_scheduled_scans w urls s).0

  abbrev pub stores_after : List String → Stores → Stores
  stores_after urls s = (run_scheduled_scans w urls s).1

  run_scheduled_scans-append :
      (xs ys : List String) (s : Stores)
      → (results (xs ++ ys) s ≡ results xs s ++ results ys (stores_after xs s))
        × (stores_after (xs ++ ys) s ≡ stores_after ys (stores_after xs s))
  unfolding run_scheduled_scans
  run_scheduled_scans-append [] ys s = (refl, refl)
  run_scheduled_scans-append (x ∷ xs) ys s =
      let first = scan_domain w x (w.scan x) s in
      let rest = run_scheduled_scans-append xs ys first.1 in
      (ap (λ rs. first.0 ∷ rs) rest.0, rest.1)

  failed_first :
      (url : String) (ys : List String) (s : Stores) (e : String)
      → w.scan url ≡ scan_threw e
      → run_scheduled_scans w (url ∷ ys) s ≡ (failed_scan url e ∷ results ys s, stores_after ys s)
  unfolding run_scheduled_scans scan_domain
  failed_first url ys s e throws = rw throws refl

  -- Where the scan of a domain throws, both stores end as they do without the domain, and the results are
  -- those without the domain, with its failure at its place.
  pub run_scheduled_scans_isolates :
      (xs : List String) (url : String) (ys : List String) (s : Stores) (e : String)
      → w.scan url ≡ scan_threw e
      → (stores_after (xs ++ url ∷ ys) s ≡ stores_after (xs ++ ys) s)
        × (results (xs ++ url ∷ ys) s
            ≡ results xs s ++ failed_scan url e ∷ results ys (stores_after xs s))
        × (results (xs ++ ys) s ≡ results xs s ++ results ys (stores_after xs s))
  run_scheduled_scans_isolates xs url ys s e throws =
      let with_url = run_scheduled_scans-append xs (url ∷ ys) s in
      let without = run_scheduled_scans-append xs ys s in
      let failed = failed_first url ys (stores_after xs s) e throws in
      (
        with_url.1 ∙ (ap (λ (p : List ScheduledScanResult × Stores). p.1) failed ∙ sym without.1),
        with_url.0 ∙ ap (λ (p : List ScheduledScanResult × Stores). results xs s ++ p.0) failed,
        without.0,
      )
