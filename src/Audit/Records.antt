-- ===== src/Audit/Records.antt =====
-- services/audit/app/db/models/audit_event.py, and the results of the repository. A moment is a
-- number of microseconds.
use theft_detection_platform.Prelude.{ℕ, String, Bool, Option, List, Bytes}
use theft_detection_platform.Prelude.Table.{Table}

pub record AuditEvent : Type 0 where
  pub sequence_number : ℕ
  pub event_id : String
  pub schema_version : ℕ
  pub occurred_at : ℕ
  pub persisted_at : ℕ
  pub source_service : ℕ
  pub actor : String
  pub severity : ℕ
  pub trace_id : String
  pub payload_kind : ℕ
  pub hash_algorithm : ℕ
  pub event_bytes : Option Bytes
  pub leaf_hash : Bytes
  pub prev_hash : Bytes
  pub chain_hash : Bytes
  pub erased_at : Option ℕ
  pub erasure_reason : ℕ
  pub subjects : List String

pub record AuditChainSegment : Type 0 where
  pub segment_id : ℕ
  pub first_sequence_number : ℕ
  pub last_sequence_number : ℕ
  pub first_prev_hash : Bytes
  pub terminal_chain_hash : Bytes
  pub row_count : ℕ
  pub hash_algorithm : ℕ
  pub covers_from : ℕ
  pub covers_to : ℕ
  pub sealed_at : ℕ
  pub checkpoint_id : Option ℕ

pub record AuditCheckpoint : Type 0 where
  pub checkpoint_id : ℕ
  pub tail_sequence_number : ℕ
  pub tail_chain_hash : Bytes
  pub tree_size : ℕ
  pub hash_algorithm : ℕ
  pub signature_algorithm : ℕ
  pub signature : Bytes
  pub key_id : Bytes
  pub signed_at : ℕ
  pub prev_checkpoint_hash : Bytes
  pub checkpoint_hash : Bytes

-- The three tables of the service's database.
pub record Tables : Type 1 where
  pub events : Table AuditEvent
  pub segments : Table AuditChainSegment
  pub checkpoints : Table AuditCheckpoint

pub record AuditDb (T : Tables) : Type 0 where
  pub events : Table.State T.events
  pub segments : Table.State T.segments
  pub checkpoints : Table.State T.checkpoints

-- The arguments of `AuditRepository.append`, and what PostgreSQL gives the new row.
pub record NewEvent : Type 0 where
  pub event_id : String
  pub occurred_at : ℕ
  pub source_service : ℕ
  pub actor : String
  pub severity : ℕ
  pub trace_id : String
  pub payload_kind : ℕ
  pub schema_version : ℕ
  pub event_bytes : Bytes
  pub hash_algorithm : ℕ

pub record AppendResult : Type 0 where
  pub sequence_number : ℕ
  pub leaf_hash : Bytes
  pub chain_hash : Bytes
  pub persisted_at : ℕ
  pub duplicate : Bool

-- `VERIFY_FAILURE_…`
pub data VerifyFailure : Type 0 where
  none_found linkage_mismatch leaf_mismatch chain_mismatch : VerifyFailure
  missing_payload algorithm_unsupported : VerifyFailure
  checkpoint_signature_invalid checkpoint_divergence : VerifyFailure

pub record VerifyResult : Type 0 where
  pub chain_intact : Bool
  pub break_at_sequence_number : Option ℕ
  pub failure_kind : VerifyFailure
  pub events_verified : ℕ
  pub erased_rows_verified : ℕ
  pub checkpoints_verified : ℕ

pub record TailState : Type 0 where
  pub prev_hash : Bytes
  pub tree_size : ℕ
  pub tail_sequence_number : ℕ
