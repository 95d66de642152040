-- ===== src/Worker/Review.antt =====
-- The review of findings in src/index.ts: `GET /findings` and `POST /findings/review`. The table is the
-- list of its rows.
use agent_commerce_lab.Prelude.{
  ℕ, Bool, ◌&&◌, ◌||◌, Option, none, some, String, List, [], ◌∷◌, ◌++◌, any, map, or_else,
  if◌then◌else◌,
}
use agent_commerce_lab.Prelude.Text.{◌<>◌, str_eq}
use agent_commerce_lab.ContentCheck.Types.{ContentFinding, ContentResult}
use agent_commerce_lab.History.Types.{SecuritySnapshot, SnapshotRow}
use agent_commerce_lab.History.Diff.{finding_type_text}
use agent_commerce_lab.History.Lists.{get_latest_snapshot_raw}

pub record ReviewRow : Type 0 where
  pub domain : String
  pub finding_key : String
  pub status : String
  pub ruled_by : Option String
  pub ruled_at : Option String
  pub notes : Option String

-- The body of a review, each field `none` where it is missing or no text.
pub record ReviewBody : Type 0 where
  pub domain : Option String
  pub finding_key : Option String
  pub status : Option String
  pub notes : Option String

-- What the JSON parser makes of a body: nothing, null, or a value with its fields.
pub data ReviewJson : Type 0 where
  not_json : ReviewJson
  null_body : ReviewJson
  review_fields : ReviewBody → ReviewJson

-- Which statement of the review fails.
pub record ReviewFaults : Type 0 where
  pub select_fails : Bool
  pub write_fails : Bool

-- The reply, or an exception that the route does not catch.
pub data ReviewReply : Type 0 where
  review_threw : ReviewReply
  review_error : ℕ → String → ReviewReply
  review_done : String → String → String → String → ReviewReply

abbrev pub is_row : String → String → ReviewRow → Bool
is_row domain key r = str_eq r.domain domain && str_eq r.finding_key key

-- `UPDATE findings_review SET … WHERE domain = ?1 AND finding_key = ?2`
abbrev pub update_rows : ReviewRow → List ReviewRow → List ReviewRow
update_rows new [] = []
update_rows new (r ∷ rs) =
    (if is_row new.domain new.finding_key r then new else r) ∷ update_rows new rs

-- SELECT, then UPDATE or INSERT.
unfoldable pub upsert_review : ReviewRow → List ReviewRow → List ReviewRow
upsert_review new table =
    if any (is_row new.domain new.finding_key) table
    then update_rows new table
    else table ++ new ∷ []

abbrev pub is_status : String → Bool
is_status s = str_eq s "confirmed" || str_eq s "false-positive" || str_eq s "pending"

-- `new Map(rows.map((r) => [r.finding_key, r]))`: the last row of a key counts.
abbrev pub ruling_of : String → String → List ReviewRow → Option ReviewRow
ruling_of domain key [] = none
ruling_of domain key (r ∷ rs) = elim (ruling_of domain key rs) [
  | some later ↦ some later
  | none ↦ if is_row domain key r then some r else none
]

pub record ReviewedFinding : Type 0 where
  pub finding : ContentFinding
  pub finding_key : String
  pub review : ReviewRow

abbrev pub finding_key_of : ContentFinding → String
finding_key_of f = finding_type_text f.kind <> ":" <> f.fact_key

-- A finding without a ruling is pending.
abbrev pub pending : String → String → ReviewRow
pending domain key = record {
  domain = domain;
  finding_key = key;
  status = "pending";
  ruled_by = none;
  ruled_at = none;
  notes = none;
}

abbrev pub reviewed : String → List ReviewRow → ContentFinding → ReviewedFinding
reviewed domain table f =
    let key = finding_key_of f in
    record {
      finding = f;
      finding_key = key;
      review = or_else (ruling_of domain key table) (pending domain key);
    }

pub data FindingsReply : Type 0 where
  no_content_scan : String → FindingsReply
  findings_found : String → String → List ReviewedFinding → FindingsReply

abbrev pub findings_of_content :
    String → List ReviewRow → SecuritySnapshot → Option ContentResult → FindingsReply
findings_of_content key table s none = no_content_scan key
findings_of_content key table s (some c) =
    findings_found key s.timestamp (map (reviewed key table) c.findings)

abbrev pub findings_of_raw : String → List ReviewRow → Option SecuritySnapshot → FindingsReply
findings_of_raw key table none = no_content_scan key
findings_of_raw key table (some s) = findings_of_content key table s s.content

module _ (domain_key : String → String) where
  -- `GET /findings` behind the test of its parameter, where no read fails.
  unfoldable pub get_findings : List SnapshotRow → List ReviewRow → String → FindingsReply
  get_findings snapshots table domain =
      let key = domain_key domain in
      findings_of_raw key table (get_latest_snapshot_raw snapshots key)

  abbrev pub review_row : String → String → String → String → Option String → ReviewRow
  review_row now domain finding_key status notes = record {
    domain = domain_key domain;
    finding_key = finding_key;
    status = status;
    ruled_by = some "reviewer";
    ruled_at = some now;
    notes = notes;
  }

  -- The SELECT, which is not in the `try` block, and the write.
  abbrev pub write_review :
      ReviewFaults → String → ReviewRow → List ReviewRow → ReviewReply × List ReviewRow
  write_review faults now row table =
      if faults.select_fails
      then (review_threw, table)
      else if faults.write_fails
      then (review_error 500 "review storage unavailable", table)
      else (review_done row.domain row.finding_key row.status now, upsert_review row table)

  abbrev pub review_status :
      ReviewFaults
      → String
      → String
      → String
      → Option String
      → Option String
      → List ReviewRow
      → ReviewReply × List ReviewRow
  review_status faults now domain finding_key none notes table =
      (review_error 400 "status must be confirmed | false-positive | pending", table)
  review_status faults now domain finding_key (some status) notes table =
      if is_status status
      then write_review faults now (review_row now domain finding_key status notes) table
      else (review_error 400 "status must be confirmed | false-positive | pending", table)

  abbrev pub review_keys :
      ReviewFaults
      → String
      → ReviewBody
      → Option String
      → Option String
      → List ReviewRow
      → ReviewReply × List ReviewRow
  review_keys faults now b (some domain) (some key) table =
      review_status faults now domain key b.status b.notes table
  review_keys faults now b _ _ table =
      (review_error 400 "domain and findingKey are required strings", table)

  -- `POST /findings/review`. The fields of null are read without a test.
  unfoldable pub post_review :
      ReviewFaults → String → ReviewJson → List ReviewRow → ReviewReply × List ReviewRow
  post_review faults now not_json table =
      (review_error 400 "request body must be valid JSON", table)
  post_review faults now null_body table = (review_threw, table)
  post_review faults now (review_fields b) table =
      review_keys faults now b b.domain b.finding_key table
