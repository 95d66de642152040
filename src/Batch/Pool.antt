-- ===== src/Batch/Pool.antt =====
-- `scanOne` and `runBatchSnapshots` of src/batch.ts. The workers share the index of the next domain; a
-- step of the pool is one worker's step, in any order. The URL parser and the scan of a domain are
-- parameters, and the clock passes the deadline at any time.
use agent_commerce_lab.Prelude.{
  ℕ, suc, Bool, true, false, ◌||◌, Option, none, some, String, List, [], ◌∷◌, ◌++◌, min, max,
  length, if◌then◌else◌,
}
use agent_commerce_lab.Prelude.Text.{◌<>◌, str_eq}
use agent_commerce_lab.History.Types.{SecuritySnapshot}

pub record BatchResultItem : Type 0 where
  pub domain : String
  pub ok : Bool
  pub snapshot : Option SecuritySnapshot
  pub error : Option String

-- What a call of the scan comes to: a snapshot, or an exception with its message.
pub data Scanned : Type 0 where
  snapshot_taken : SecuritySnapshot → Scanned
  scan_threw : String → Scanned

abbrev pub item_error : String → String → BatchResultItem
item_error domain e = record { domain = domain; ok = false; snapshot = none; error = some e }

abbrev pub deadline_item : String → BatchResultItem
deadline_item domain = item_error domain "batch deadline exceeded"

module _ (protocol_of : String → Option String) (run_snapshot : String → Scanned) where
  -- The error of a text that is no http URL.
  abbrev pub parse_http_url : String → Option String
  parse_http_url domain = elim (protocol_of domain) [
    | none ↦ some ("invalid URL \"" <> domain <> "\"")
    | some p ↦
        if str_eq p "http:" || str_eq p "https:"
        then none
        else some ("invalid URL \"" <> domain <> "\": only http/https URLs are supported")
  ]

  abbrev pub item_of : String → Scanned → BatchResultItem
  item_of domain (snapshot_taken s) = record {
    domain = domain;
    ok = true;
    snapshot = some s;
    error = none;
  }
  item_of domain (scan_threw e) = item_error domain e

  abbrev pub scan_checked : String → Option String → BatchResultItem
  scan_checked domain (some e) = item_error domain e
  scan_checked domain none = item_of domain (run_snapshot domain)

  unfoldable pub scan_one : String → BatchResultItem
  scan_one domain = scan_checked domain (parse_http_url domain)

-- A claimed index: its scan runs, or its result is stored.
pub data Slot : Type 0 where
  running : String → Slot
  finished : BatchResultItem → Slot

-- The slots of the claimed indices, the domains behind them, the workers that wait for an index, and
-- whether the deadline has passed.
pub record Pool : Type 0 where
  pub claimed : List Slot
  pub waiting : List String
  pub idle : ℕ
  pub late : Bool

abbrev pub pool : List Slot → List String → ℕ → Bool → Pool
pool claimed waiting idle late = record {
  claimed = claimed;
  waiting = waiting;
  idle = idle;
  late = late;
}

-- `Math.max(1, Math.min(concurrency, domains.length))`
abbrev pub workers : ℕ → List String → ℕ
workers concurrency domains = max 1 (min concurrency (length domains))

abbrev pub start : ℕ → List String → Pool
start concurrency domains = pool [] domains (workers concurrency domains) false

module _ (scan : String → BatchResultItem) where
  pub data Step : Pool → Pool → Type 0 where
    claim :
        (slots : List Slot) (d : String) (ds : List String) (w : ℕ)
        → Step (pool slots (d ∷ ds) (suc w) false) (pool (slots ++ running d ∷ []) ds w false)
    expire :
        (slots : List Slot) (d : String) (ds : List String) (w : ℕ)
        → Step
            (pool slots (d ∷ ds) (suc w) true)
            (pool (slots ++ finished (deadline_item d) ∷ []) ds (suc w) true)
    finish :
        (before after : List Slot) (d : String) (ds : List String) (w : ℕ) (late : Bool)
        → Step
            (pool (before ++ running d ∷ after) ds w late)
            (pool (before ++ finished (scan d) ∷ after) ds (suc w) late)
    pass_deadline :
        (slots : List Slot) (ds : List String) (w : ℕ)
        → Step (pool slots ds w false) (pool slots ds w true)

  pub data Reaches (s : Pool) : Pool → Type 0 where
    here : Reaches s s
    next : {t u : Pool} → Reaches s t → Step t u → Reaches s u
