-- ===== src/History/Types.antt =====
-- The types of src/history.ts, with the SecuritySnapshot of src/snapshot.ts that it compares. A
-- value that a change reports is a null, a Boolean, a number, a text, a content result or the claims
-- of a fact.
use agent_commerce_lab.Prelude.{ℕ, Bool, Option, String, List}
use agent_commerce_lab.Prelude.Int.{ℤ}
use agent_commerce_lab.ContentCheck.Types.{ContentResult, ContentStatus, Grade}
use agent_commerce_lab.Verdict.{HeaderScore, Verdict, VerdictStatus}

pub data SnapshotStatus : Type 0 where
  complete partial failed : SnapshotStatus

pub data Materiality : Type 0 where
  critical material informational : Materiality

pub data FieldValue : Type 0 where
  null_value : FieldValue
  bool_value : Bool → FieldValue
  number_value : ℕ → FieldValue
  text_value : String → FieldValue
  content_value : ContentResult → FieldValue
  claims_value : List String → FieldValue

pub record ChangedField : Type 0 where
  pub field_name : String
  pub old_value : FieldValue
  pub new_value : FieldValue
  pub materiality : Materiality

pub record CompareResult : Type 0 where
  pub comparable : Bool
  pub reason : String
  pub changed_fields : List ChangedField
  pub score_delta : Option ℤ
  pub verdict_moved : Bool

pub record HttpInfo : Type 0 where
  pub status : Option ℕ
  pub ok : Bool
  pub redirect_chain : List String
  pub final_url : Option String
  pub error : Option String

pub record TlsInfo : Type 0 where
  pub used_https : Bool
  pub protocol : Option String
  pub cipher_suite : Option String
  pub cipher_suite_id : Option String
  pub weak_cipher : Bool
  pub probe_error : Option String

pub record DnsRecords : Type 0 where
  pub a : List String
  pub aaaa : List String
  pub mx : List String
  pub txt : List String

pub record DnsCheckResult : Type 0 where
  pub has_a : Bool
  pub has_aaaa : Bool
  pub has_mx : Bool
  pub has_txt : Bool
  pub records : DnsRecords
  pub note : String

pub record SecurityHeaders : Type 0 where
  pub strict_transport_security : Option String
  pub content_security_policy : Option String
  pub x_frame_options : Option String
  pub x_content_type_options : Option String
  pub referrer_policy : Option String
  pub permissions_policy : Option String

pub record TechObservations : Type 0 where
  pub server : Option String
  pub powered_by : Option String
  pub powered_by_cloudflare : Bool
  pub cms_guess : Option String

pub record SecuritySnapshot : Type 0 where
  pub target : String
  pub timestamp : String
  pub http : HttpInfo
  pub tls : TlsInfo
  pub dns : DnsCheckResult
  pub security_headers : SecurityHeaders
  pub header_score : HeaderScore
  pub tech_observations : TechObservations
  pub findings : List String
  pub verdict : Verdict
  pub content : Option ContentResult

pub record SnapshotVersionMeta : Type 0 where
  pub id : ℕ
  pub scanned_at : String
  pub scanner_version : String
  pub scoring_version : String

-- The summary columns of a stored snapshot; a flag column is 1 or 0.
pub record SnapshotColumns : Type 0 where
  pub http_status : Option ℕ
  pub used_https : ℕ
  pub tls_protocol : Option String
  pub weak_cipher : ℕ
  pub header_score : ℕ
  pub header_grade : Grade
  pub verdict_status : VerdictStatus
  pub verdict_score : ℕ
  pub content_score : Option ℕ
  pub content_grade : Option Grade
  pub content_status : Option ContentStatus
  pub content_pages_scanned : Option ℕ

-- A row of the snapshots table. The raw column holds the snapshot itself, not its JSON text.
pub record SnapshotRow : Type 0 where
  pub meta : SnapshotVersionMeta
  pub domain : String
  pub status : SnapshotStatus
  pub columns : SnapshotColumns
  pub raw_snapshot : SecuritySnapshot

-- A row of the changes table. The field column holds the changed fields, not their JSON text.
pub record ChangeRow : Type 0 where
  pub change_id : ℕ
  pub domain : String
  pub from_snapshot_id : ℕ
  pub to_snapshot_id : ℕ
  pub detected_at : String
  pub comparable : ℕ
  pub changed_fields : List ChangedField
  pub score_delta : Option ℤ
  pub verdict_moved : ℕ

-- The response: the comparison, the id of a written change, and the two snapshots by id and versions.
pub record ChangeResponse : Type 0 where
  pub comparison : CompareResult
  pub detected_at : String
  pub change_id : Option ℕ
  pub from_meta : Option SnapshotVersionMeta
  pub to_meta : Option SnapshotVersionMeta
