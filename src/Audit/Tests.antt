-- ===== src/Audit/Tests.antt =====
-- Runs of the audit models on small logs, and the theorems at concrete inputs. `toy_hash` stands
-- for SHA-256.
mod Checkpoints
use theft_detection_platform.Prelude.{
  ℕ, ◌+◌, ◌*◌, ◌≡◌, refl, ◌⊎◌, false, Option, none, some, List, [], ◌∷◌, ◌++◌, Bytes, arith, ok,
  take, replicate, String, All, bytes_eq,
}
use theft_detection_platform.Prelude.Table.{list_table}
use theft_detection_platform.Audit.Chain.{
  checkpoint_payload, compute_leaf_hash, compute_chain_hash, digest, digest_size, length_prefixed,
  u64, to_bytes8, check_width, genesis_prev_hash, is_supported, leaf_matches, chain_matches,
}
use theft_detection_platform.Audit.Chain.Encoding.{Payload, checkpoint_payload-injective}
use theft_detection_platform.Audit.Records.{
  AuditEvent, AuditChainSegment, AuditCheckpoint, Tables, AuditDb, NewEvent, VerifyResult,
  leaf_mismatch,
}
use theft_detection_platform.Audit.Repository.{
  append, append_locked, new_row, tail_state, find_by_event_id, last_event, last_segment, count,
  extract_subjects, erase_subject_payloads, event_rows,
}
use theft_detection_platform.Audit.Retention.{
  SegmentCandidate, SealOutcome, RetentionSettings, next_segment, seal_and_drop, oldest_live,
  sealed_through, due_rows, from_rows, candidate, retention_cutoff, covering, drop_range,
  check_survivor, new_segment,
}
use theft_detection_platform.Audit.Repository.{latest_checkpoint, erasable, erase_row}
use theft_detection_platform.Audit.Verify.{verify, verify_rows, check_row}
use theft_detection_platform.Audit.Verify.Linked.{
  IsSound, IsLinked, tail_hash, intact, verify_rows-IsLinked, IsLinked-verify_rows, first_break,
}
use theft_detection_platform.Audit.Integrity.{IsIntact, IsIntact-verify}
use theft_detection_platform.Audit.Integrity.Append.{append-IsIntact}
use theft_detection_platform.Audit.Integrity.Erase.{
  IsForgotten, erase_subject_payloads-IsIntact, erase_subject_payloads-IsForgotten,
}
use theft_detection_platform.Audit.Integrity.Candidate.{retention_run-IsIntact}
use theft_detection_platform.Audit.Integrity.Tamper.{Collision, IsSameLog, tamper_evident}

abbrev tables : Tables
tables = record {
  events = list_table AuditEvent;
  segments = list_table AuditChainSegment;
  checkpoints = list_table AuditCheckpoint;
}

abbrev toy_hash : Bytes → Bytes
toy_hash x = take 32 (x ++ replicate 32 0)

abbrev no_subjects : Bytes → Option (String × Option (List String))
no_subjects _ = some ("u1", none)

abbrev empty : AuditDb tables
empty = record { events = []; segments = []; checkpoints = [] }

abbrev payload : Payload
payload = record {
  key = 107 ∷ [];
  size = 3;
  tail = 5;
  tail_hash = replicate 32 1;
  prev_hash = replicate 32 0;
  signature = 1;
  hash = 1;
}

-- Everything that a run calls.
program : Unit {0}
unfolding checkpoint_payload compute_leaf_hash compute_chain_hash digest digest_size length_prefixed
    u64 to_bytes8 check_width genesis_prev_hash is_supported leaf_matches chain_matches append
    append_locked new_row tail_state find_by_event_id last_event last_segment count extract_subjects
    erase_subject_payloads next_segment seal_and_drop oldest_live sealed_through due_rows from_rows
    candidate retention_cutoff covering drop_range check_survivor new_segment latest_checkpoint
    erasable erase_row verify verify_rows check_row bytes_eq
program = tt

abbrev event : NewEvent
event = record {
  event_id = "e1";
  occurred_at = 10;
  source_service = 2;
  actor = "u1";
  severity = 1;
  trace_id = "";
  payload_kind = 3;
  schema_version = 1;
  event_bytes = 7 ∷ [];
  hash_algorithm = 1;
}

abbrev row_at : ℕ → String → Bytes → Bytes → ℕ → AuditEvent
row_at number id prev chain now = record {
  sequence_number = number;
  event_id = id;
  schema_version = 1;
  occurred_at = 10;
  persisted_at = now;
  source_service = 2;
  actor = "u1";
  severity = 1;
  trace_id = "";
  payload_kind = 3;
  hash_algorithm = 1;
  event_bytes = some (7 ∷ []);
  leaf_hash = replicate 8 0 ++ (1 ∷ 7 ∷ replicate 22 0);
  prev_hash = prev;
  chain_hash = chain;
  erased_at = none;
  erasure_reason = 0;
  subjects = "u1" ∷ [];
}

abbrev chain_1 : Bytes
chain_1 = 1 ∷ replicate 31 0

abbrev chain_2 : Bytes
chain_2 = 1 ∷ 1 ∷ replicate 30 0

abbrev first_row : AuditEvent
first_row = row_at 4 "e1" (replicate 32 0) chain_1 20

abbrev second_row : AuditEvent
second_row = row_at 5 "e2" chain_1 chain_2 (20 + 3 * 86400000000)

abbrev one : AuditDb tables
one = record empty { events = first_row ∷ [] }

abbrev two : AuditDb tables
two = record empty { events = first_row ∷ second_row ∷ [] }

appended :
    append tables no_subjects toy_hash event 4 20 empty empty
    ≡ ok (
      one,
      record {
        sequence_number = 4;
        leaf_hash = first_row.leaf_hash;
        chain_hash = chain_1;
        persisted_at = 20;
        duplicate = false;
      },
    )
unfolding program
appended = refl

empty-IsIntact : IsIntact tables toy_hash empty
empty-IsIntact = record { linked = tt; ascending = tt }

append-IsIntact_example : IsIntact tables toy_hash one
unfolding program
append-IsIntact_example =
    append-IsIntact tables toy_hash no_subjects event 4 20 empty empty appended
      (λ t e. ground arith) empty-IsIntact

abbrev both : List AuditEvent
both = first_row ∷ second_row ∷ []

accepted : verify_rows toy_hash (replicate 32 0) both 0 0 ≡ ok (intact 2 0)
unfolding program
accepted = refl

both-IsLinked : IsLinked toy_hash (replicate 32 0) both
both-IsLinked = verify_rows-IsLinked toy_hash (replicate 32 0) both 0 0 accepted refl

two-IsIntact : IsIntact tables toy_hash two
unfolding program
two-IsIntact = record { linked = both-IsLinked; ascending = ground arith }

verify_rows-IsLinked_example : IsLinked toy_hash (replicate 32 0) (first_row ∷ [])
unfolding program
verify_rows-IsLinked_example =
    verify_rows-IsLinked toy_hash (replicate 32 0) (first_row ∷ []) 0 0 {r = intact 1 0} refl refl

abbrev forged : AuditEvent
forged = record second_row { event_bytes = some (8 ∷ []) }

abbrev refused : VerifyResult
refused = record {
  chain_intact = false;
  break_at_sequence_number = some 5;
  failure_kind = leaf_mismatch;
  events_verified = 1;
  erased_rows_verified = 0;
  checkpoints_verified = 0;
}

first_break_example :
    (good : List AuditEvent) × (bad : AuditEvent) × (rest : List AuditEvent) × (first_row ∷ forged
        ∷ []
      ≡ good ++ bad ∷ rest)
    × IsLinked toy_hash (replicate 32 0) good
    × (some 5 ≡ some bad.sequence_number)
    × (¬ IsSound toy_hash (tail_hash (replicate 32 0) good) bad)
unfolding program
first_break_example =
    first_break toy_hash (replicate 32 0) (first_row ∷ forged ∷ []) 0 0 {r = refused} refl refl

IsIntact-verify_example : verify toy_hash tables two none none ≡ ok (intact 2 0)
IsIntact-verify_example = IsIntact-verify tables toy_hash two two-IsIntact

erase_subject_payloads-IsIntact_example :
    IsIntact tables toy_hash (erase_subject_payloads tables "u1" 4 99 two).0
erase_subject_payloads-IsIntact_example =
    erase_subject_payloads-IsIntact tables toy_hash "u1" 4 99 two two-IsIntact

erase_subject_payloads-IsForgotten_example :
    All (IsForgotten "u1") (event_rows tables (erase_subject_payloads tables "u1" 4 99 two).0)
erase_subject_payloads-IsForgotten_example =
    erase_subject_payloads-IsForgotten tables "u1" 4 99 two
      ((λ h. ground arith), ((λ h. ground arith), tt))

abbrev settings : RetentionSettings
settings = record { retention_days = 1; segment_interval_days = 1; retention_max_rows_per_run = 10 }

abbrev sealed_row : SegmentCandidate
sealed_row = record {
  first_sequence_number = 4;
  last_sequence_number = 4;
  first_prev_hash = replicate 32 0;
  terminal_chain_hash = chain_1;
  row_count = 1;
  hash_algorithm = 1;
  covers_from = 20;
  covers_to = 20;
}

abbrev sealed_db : AuditDb tables
sealed_db = record {
  events = second_row ∷ [];
  segments =
      record {
        segment_id = 1;
        first_sequence_number = 4;
        last_sequence_number = 4;
        first_prev_hash = replicate 32 0;
        terminal_chain_hash = chain_1;
        row_count = 1;
        hash_algorithm = 1;
        covers_from = 20;
        covers_to = 20;
        sealed_at = 77;
        checkpoint_id = none;
      }
      ∷ [];
  checkpoints = [];
}

abbrev sealed_out : SealOutcome
sealed_out = record {
  segment_id = 1;
  first_sequence_number = 4;
  last_sequence_number = 4;
  row_count = 1;
  terminal_chain_hash = chain_1;
  covers_from = 20;
  covers_to = 20;
  checkpoint_id = none;
}

selected : next_segment tables settings (20 + 5 * 86400000000) two ≡ ok (some sealed_row)
unfolding program
selected = refl

sealed : seal_and_drop tables sealed_row 1 77 two ≡ ok (sealed_db, sealed_out)
unfolding program
sealed = refl

retention_run-IsIntact_example : IsIntact tables toy_hash sealed_db
retention_run-IsIntact_example =
    retention_run-IsIntact tables toy_hash settings (20 + 5 * 86400000000) two 1 77 selected sealed
      (omega arith) (omega arith) two-IsIntact

tamper_evident_example :
    ((replicate {A = ℕ} 32 0 ≡ replicate 32 0) × IsSameLog toy_hash both both) ⊎ Collision toy_hash
tamper_evident_example =
    tamper_evident toy_hash (replicate 32 0) (replicate 32 0) both both both-IsLinked both-IsLinked
      refl refl

checkpoint_payload-injective_example : payload ≡ payload
unfolding program
checkpoint_payload-injective_example =
    checkpoint_payload-injective payload payload
      (2
        ∷ (to_bytes8 1
            ++ (to_bytes8 1
                ++ (to_bytes8 1
                    ++ (107
                        ∷ (to_bytes8 3
                            ++ (to_bytes8 5
                                ++ (to_bytes8 32
                                    ++ (replicate 32 1 ++ (to_bytes8 32 ++ replicate 32 0))))))))))
      refl refl
