-- ===== src/Evidence/Models.antt =====
-- packages/evidence_ledger/models.py. A time is the number of seconds from the epoch, in which the
-- verifier reads a time with no zone as UTC. What the verifier writes as an error is a value with the
-- parts of its text.
use nautilus_builder.Prelude.{ℕ, Bool, Option, String, ◌||◌, ◌==◌, string_eq}
use nautilus_builder.Json.{Payload}

pub data ArtifactType : Type 0 where
  strategy_spec compiled_strategy_ir feature_dependency_graph risk_contract : ArtifactType
  replay_manifest backtest_result catalog_dataset_manifest : ArtifactType
  data_tester_report exec_tester_report reconciliation_report manual_review : ArtifactType
  promotion_request promotion_decision : ArtifactType

pub data VerificationStatus : Type 0 where
  unverified verified failed expired missing : VerificationStatus
  scope_mismatch schema_mismatch hash_mismatch : VerificationStatus

pub data Problem : Type 0 where
  unknown_source : String → Problem
  project_differs : String → String → Problem
  expired_at : ℕ → Problem
  hash_empty hash_not_hex : Problem
  hash_length : ℕ → Problem
  checksum_differs : String → String → Problem
  unreadable : String → Problem

pub record EvidenceRef : Type 0 where
  pub evidence_id : String
  pub project_id : String
  pub strategy_lineage_id : Option String
  pub strategy_version_id : Option String
  pub artifact_type : ArtifactType
  pub source_system : String
  pub uri : String
  pub sha256 : String
  pub schema_version : String
  pub created_at : Option ℕ
  pub producer : String
  pub status : String
  pub verification_status : VerificationStatus
  pub verification_error : Option Problem
  pub expires_at : Option ℕ
  pub metadata : Payload

-- `Field(min_length=1)` fails on a text of the reference.
unfoldable pub invalid_ref : EvidenceRef → Bool
invalid_ref r = r.evidence_id == "" || r.project_id == "" || r.source_system == "" || r.uri == ""
