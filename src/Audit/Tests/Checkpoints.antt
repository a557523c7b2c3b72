-- ===== src/Audit/Tests/Checkpoints.antt =====
-- A checkpoint of the log with two rows; the payload itself stands for its signature.
use theft_detection_platform.Prelude.{
  ℕ, ◌≡◌, refl, Option, some, [], ◌∷◌, bytes_eq, bytes_eq_refl, ok, err, Result,
}
use theft_detection_platform.Audit.Chain.{
  ChainError, checkpoint_payload, compute_checkpoint_hash, checkpoint_matches, digest, digest_size,
  length_prefixed, u64, to_bytes8, check_width, genesis_prev_hash,
}
use theft_detection_platform.Audit.Records.{AuditDb}
use theft_detection_platform.Audit.Repository.{
  tail_state, last_event, last_segment, count, latest_checkpoint, event_at,
}
use theft_detection_platform.Audit.Checkpoint.{
  Signer, check_checkpoint, verify_checkpoint_rows, verify_checkpoints, sign_checkpoint,
  create_checkpoint,
}
use theft_detection_platform.Audit.Checkpoint.Chained.{valid, create_checkpoint-verify_checkpoints}
use theft_detection_platform.Audit.Tests.{tables, toy_hash, two, two-IsIntact}

-- Everything that a run calls.
program : Unit {0}
unfolding bytes_eq checkpoint_payload compute_checkpoint_hash checkpoint_matches digest digest_size
    length_prefixed u64 to_bytes8 check_width genesis_prev_hash tail_state last_event last_segment
    count latest_checkpoint event_at check_checkpoint verify_checkpoint_rows verify_checkpoints
    sign_checkpoint create_checkpoint
program = tt

abbrev signer : Signer
signer = record {
  key_id = 107 ∷ [];
  signature_algorithm = 1;
  sign = λ p. p;
  verify = λ p s k. bytes_eq p s;
}

abbrev written : Result ChainError (AuditDb tables × Option ℕ)
written = create_checkpoint toy_hash signer tables 1 50 two

-- The database with the checkpoint.
abbrev sealed_log : AuditDb tables
sealed_log = elim written [ ok r ↦ r.0 | err e ↦ two ]

written_lem : create_checkpoint toy_hash signer tables 1 50 two ≡ ok (sealed_log, some 1)
unfolding program
written_lem = refl

unsigned : verify_checkpoints toy_hash signer tables two ≡ ok (valid 0)
unfolding program
unsigned = refl

create_checkpoint-verify_checkpoints_example :
    verify_checkpoints toy_hash signer tables sealed_log ≡ ok (valid 1)
create_checkpoint-verify_checkpoints_example =
    create_checkpoint-verify_checkpoints toy_hash signer tables two 1 50 0 two-IsIntact
      (λ p. bytes_eq_refl p) unsigned written_lem
