-- ===== src/Audit/Checkpoint.antt =====
-- services/audit/app/services/checkpoint_service.py, with `append_checkpoint` and
-- `checkpoints_in_order` of repositories/audit_repository.py. Ed25519 is a parameter: the signer.
pub mod Chained
use theft_detection_platform.Prelude.{
  ℕ, zero, suc, ◌+◌, Bool, true, false, not, Option, none, some, List, [], ◌∷◌, ◌++◌, Bytes,
  bytes_eq, ◌==◌, if◌then◌else◌, Result, ok, err, ◌>>=◌,
}
use theft_detection_platform.Prelude.Table.{Table}
use theft_detection_platform.Audit.Chain.{
  ChainError, default_hash_algorithm, genesis_checkpoint, checkpoint_payload,
  compute_checkpoint_hash, checkpoint_matches,
}
use theft_detection_platform.Audit.Records.{
  AuditEvent, AuditCheckpoint, Tables, AuditDb, TailState, VerifyFailure, none_found,
  checkpoint_signature_invalid, checkpoint_divergence,
}
use theft_detection_platform.Audit.Repository.{tail_state, latest_checkpoint, event_at}

pub record Signer : Type 0 where
  pub key_id : Bytes
  pub signature_algorithm : ℕ
  pub sign : (payload : Bytes) → Bytes
  pub verify : (payload signature key_id : Bytes) → Bool

pub record CheckpointResult : Type 0 where
  pub failure_kind : VerifyFailure
  pub checkpoints_verified : ℕ
  pub break_at_checkpoint_id : Option ℕ

-- The payload of a row, by `build_checkpoint_payload`.
abbrev pub payload_of : AuditCheckpoint → Result ChainError Bytes
payload_of row =
    checkpoint_payload row.key_id row.tree_size row.tail_sequence_number row.tail_chain_hash
      row.prev_checkpoint_hash row.signature_algorithm row.hash_algorithm

module _ (sha256 : Bytes → Bytes) (signer : Signer) where
  -- The tests on one row: the failure, or none. `find` is `event_at`.
  unfoldable pub check_checkpoint :
      (ℕ → Option AuditEvent) → Bytes → AuditCheckpoint → Result ChainError (Option VerifyFailure)
  check_checkpoint find expected_prev row = do
    payload ← payload_of row
    matches ← checkpoint_matches sha256 payload row.checkpoint_hash row.hash_algorithm
    if not matches
        then ok (some checkpoint_divergence)
        else if not (bytes_eq row.prev_checkpoint_hash expected_prev)
        then ok (some checkpoint_divergence)
        else if not (signer.verify payload row.signature row.key_id)
        then ok (some checkpoint_signature_invalid)
        else elim (find row.tail_sequence_number) [
          | none ↦ ok none
          | some event ↦
              if not (bytes_eq event.chain_hash row.tail_chain_hash)
              then ok (some checkpoint_divergence)
              else ok none
        ]

  -- The loop over the rows.
  unfoldable pub verify_checkpoint_rows :
      (ℕ → Option AuditEvent)
      → Bytes
      → List AuditCheckpoint
      → ℕ
      → Result ChainError CheckpointResult
  verify_checkpoint_rows find expected_prev [] verified = ok (record {
    failure_kind = none_found;
    checkpoints_verified = verified;
    break_at_checkpoint_id = none;
  })
  verify_checkpoint_rows find expected_prev (row ∷ rest) verified = do
    checked ← check_checkpoint find expected_prev row
    elim checked [
      | some failure ↦ ok (record {
        failure_kind = failure;
        checkpoints_verified = verified;
        break_at_checkpoint_id = some row.checkpoint_id;
      })
      | none ↦ verify_checkpoint_rows find row.checkpoint_hash rest (verified + 1)
    ]

  module _ (T : Tables) where
    -- In ascending order of `checkpoint_id`, which PostgreSQL assigns.
    abbrev pub checkpoints_in_order : AuditDb T → List AuditCheckpoint
    checkpoints_in_order db = Table.rows T.checkpoints db.checkpoints

    unfoldable pub verify_checkpoints : AuditDb T → Result ChainError CheckpointResult
    verify_checkpoints db =
        verify_checkpoint_rows (event_at T db) genesis_checkpoint (checkpoints_in_order db) 0

    -- The row that `append_checkpoint` adds.
    abbrev pub checkpoint_row :
        (checkpoint_id signed_at : ℕ)
        → TailState
        → (prev_hash signature checkpoint_hash : Bytes) → AuditCheckpoint
    checkpoint_row checkpoint_id signed_at tail prev_hash signature checkpoint_hash = record {
      checkpoint_id = checkpoint_id;
      tail_sequence_number = tail.tail_sequence_number;
      tail_chain_hash = tail.prev_hash;
      tree_size = tail.tree_size;
      hash_algorithm = default_hash_algorithm;
      signature_algorithm = signer.signature_algorithm;
      signature = signature;
      key_id = signer.key_id;
      signed_at = signed_at;
      prev_checkpoint_hash = prev_hash;
      checkpoint_hash = checkpoint_hash;
    }

    -- `create_checkpoint` from the point where the previous hash is known.
    unfoldable pub sign_checkpoint :
        (checkpoint_id signed_at : ℕ)
        → TailState
        → Bytes
        → AuditDb T
        → Result ChainError (AuditDb T × Option ℕ)
    sign_checkpoint checkpoint_id signed_at tail prev_hash db = do
      payload ←
          checkpoint_payload signer.key_id tail.tree_size tail.tail_sequence_number tail.prev_hash
            prev_hash signer.signature_algorithm default_hash_algorithm
      checkpoint_hash ← compute_checkpoint_hash sha256 payload default_hash_algorithm
      ok (
        record db {
          checkpoints =
              Table.insert T.checkpoints
                (checkpoint_row checkpoint_id signed_at tail prev_hash (signer.sign payload)
                  checkpoint_hash)
                db.checkpoints;
        },
        some checkpoint_id,
      )

    -- The database afterwards, and the identity of the new checkpoint, where one is written.
    unfoldable pub create_checkpoint :
        (checkpoint_id signed_at : ℕ) → AuditDb T → Result ChainError (AuditDb T × Option ℕ)
    unfolding sign_checkpoint
    create_checkpoint checkpoint_id signed_at db = do
      tail ← tail_state T db
      if tail.tree_size == 0 then ok (db, none) else elim (latest_checkpoint T db) [
        | none ↦ sign_checkpoint checkpoint_id signed_at tail genesis_checkpoint db
        | some previous ↦
            if previous.tail_sequence_number == tail.tail_sequence_number
            then ok (db, none)
            else sign_checkpoint checkpoint_id signed_at tail previous.checkpoint_hash db
      ]
