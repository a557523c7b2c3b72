-- ===== src/Audit/Verify.antt =====
-- `_seed_expected_prev` and `verify` of services/audit/app/repositories/audit_repository.py.
pub mod Linked
use theft_detection_platform.Prelude.{
  ℕ, suc, ◌+◌, Bool, true, false, not, ◌&&◌, Option, none, some, List, [], ◌∷◌, Bytes, bytes_eq,
  filter, Result, ok, ◌>>=◌, leb, if◌then◌else◌, head?,
}
use theft_detection_platform.Audit.Chain.{
  ChainError, default_hash_algorithm, genesis_prev_hash, is_supported, leaf_matches, chain_matches,
}
use theft_detection_platform.Audit.Records.{
  AuditEvent, Tables, AuditDb, VerifyFailure, none_found, linkage_mismatch, leaf_mismatch,
  chain_mismatch, missing_payload, algorithm_unsupported, VerifyResult,
}
use theft_detection_platform.Audit.Repository.{event_rows, last_segment, predecessor}

-- What the body of the loop does with one row: return a result, or go on with new counts.
pub data RowCheck : Type 0 where
  stop : VerifyResult → RowCheck
  go : ℕ → ℕ → RowCheck

abbrev broken : AuditEvent → VerifyFailure → ℕ → ℕ → RowCheck
broken row failure verified erased = stop (record {
  chain_intact = false;
  break_at_sequence_number = some row.sequence_number;
  failure_kind = failure;
  events_verified = verified;
  erased_rows_verified = erased;
  checkpoints_verified = 0;
})

abbrev pub in_range : Option ℕ → Option ℕ → AuditEvent → Bool
in_range from to row =
    (elim from [ none ↦ true | some n ↦ leb n row.sequence_number ])
    && (elim to [ none ↦ true | some n ↦ leb row.sequence_number n ])

module _ (sha256 : Bytes → Bytes) where
  -- The test of `chain_matches` at the end of the body.
  unfoldable pub check_chain : AuditEvent → ℕ → ℕ → Result ChainError RowCheck
  check_chain row verified erased = do
    matches ← chain_matches sha256 row.prev_hash row.leaf_hash row.chain_hash row.hash_algorithm
    ok (if matches then go verified erased else broken row chain_mismatch verified erased)

  -- The branch on `event_bytes`, and what follows it.
  unfoldable pub check_payload : AuditEvent → ℕ → ℕ → Result ChainError RowCheck
  unfolding check_chain
  check_payload row verified erased = elim row.event_bytes [
    | none ↦ elim row.erased_at [
      | none ↦ ok (broken row missing_payload verified erased)
      | some _ ↦ check_chain row verified (erased + 1)
    ]
    | some event_bytes ↦ do
      matches ← leaf_matches sha256 event_bytes row.leaf_hash row.hash_algorithm
      if matches
          then check_chain row (verified + 1) erased
          else ok (broken row leaf_mismatch verified erased)
  ]

  unfoldable pub check_row : Bytes → AuditEvent → ℕ → ℕ → Result ChainError RowCheck
  unfolding check_payload
  check_row expected_prev row verified erased =
      if not (is_supported row.hash_algorithm)
      then ok (broken row algorithm_unsupported verified erased)
      else if not (bytes_eq row.prev_hash expected_prev)
      then ok (broken row linkage_mismatch verified erased)
      else check_payload row verified erased

  -- The loop over the selected rows.
  unfoldable pub verify_rows : Bytes → List AuditEvent → ℕ → ℕ → Result ChainError VerifyResult
  verify_rows expected_prev [] verified erased = ok (record {
    chain_intact = true;
    break_at_sequence_number = none;
    failure_kind = none_found;
    events_verified = verified;
    erased_rows_verified = erased;
    checkpoints_verified = 0;
  })
  verify_rows expected_prev (row ∷ rest) verified erased = do
    checked ← check_row expected_prev row verified erased
    elim checked [
      | stop result ↦ ok result
      | go verified' erased' ↦ verify_rows row.chain_hash rest verified' erased'
    ]

  module _ (T : Tables) where
    unfoldable pub seed_expected_prev : AuditDb T → Option ℕ → Result ChainError Bytes
    seed_expected_prev db none = elim (head? (event_rows T db)) [
      | none ↦ genesis_prev_hash default_hash_algorithm
      | some head ↦ elim (last_segment T db) [
        | none ↦ genesis_prev_hash default_hash_algorithm
        | some segment ↦
            if bytes_eq segment.terminal_chain_hash head.prev_hash
            then ok segment.terminal_chain_hash
            else genesis_prev_hash default_hash_algorithm
      ]
    ]
    seed_expected_prev db (some from) = elim (predecessor T db from) [
      | some row ↦ ok row.chain_hash
      | none ↦ elim (last_segment T db) [
        | some segment ↦ ok segment.terminal_chain_hash
        | none ↦ genesis_prev_hash default_hash_algorithm
      ]
    ]

    unfoldable pub verify : AuditDb T → Option ℕ → Option ℕ → Result ChainError VerifyResult
    verify db from to = do
      expected_prev ← seed_expected_prev db from
      verify_rows expected_prev (filter (in_range from to) (event_rows T db)) 0 0
