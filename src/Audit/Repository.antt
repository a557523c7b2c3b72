-- ===== src/Audit/Repository.antt =====
-- services/audit/app/repositories/audit_repository.py. The rows of `audit_events` stand in
-- ascending order of `sequence_number`, which PostgreSQL assigns; a moment that the database or
-- the clock supplies is an argument.
use theft_detection_platform.Prelude.{
  ℕ, String, Bool, true, false, not, ◌&&◌, Option, none, some, List, [], ◌∷◌, ◌++◌, Bytes, length,
  find?, get_last?, filter, any, Result, ok, ◌>>=◌, ltb, ◌==◌, str_eq, if◌then◌else◌, is_some,
  max_by,
}
use theft_detection_platform.Audit.Chain.{
  ChainError, default_hash_algorithm, genesis_prev_hash, compute_leaf_hash, compute_chain_hash,
}
use theft_detection_platform.Audit.Records.{
  AuditEvent, AuditChainSegment, AuditCheckpoint, Tables, AuditDb, NewEvent, AppendResult,
  TailState,
}

-- The loop over `_SUBJECT_FIELDS` of `extract_subjects`.
add_subjects : List String → List String → List String
add_subjects found [] = found
add_subjects found (value ∷ rest) =
    add_subjects
      (if not (str_eq value "") && not (any (str_eq value) found)
        then found ++ value ∷ []
        else found)
      rest

-- `parse` is protobuf's `ParseFromString`: the actor, and the values of the four fields of the
-- payload, where there is one.
unfoldable pub extract_subjects :
    (Bytes → Option (String × Option (List String))) → Bytes → List String
unfolding add_subjects
extract_subjects parse event_bytes = elim (parse event_bytes) [
  | none ↦ []
  | some (actor, payload) ↦
      let found = if str_eq actor "" then [] else actor ∷ [] in
      elim payload [ none ↦ found | some values ↦ add_subjects found values ]
]

-- The `INSERT` of `append`: PostgreSQL assigns `sequence_number` and `persisted_at`.
unfoldable pub new_row :
    (Bytes → Option (String × Option (List String)))
    → NewEvent
    → Bytes
    → Bytes
    → Bytes
    → ℕ
    → ℕ
    → AuditEvent
new_row parse e leaf_hash prev_hash chain_hash sequence_number persisted_at = record {
  sequence_number = sequence_number;
  event_id = e.event_id;
  schema_version = e.schema_version;
  occurred_at = e.occurred_at;
  persisted_at = persisted_at;
  source_service = e.source_service;
  actor = e.actor;
  severity = e.severity;
  trace_id = e.trace_id;
  payload_kind = e.payload_kind;
  hash_algorithm = e.hash_algorithm;
  event_bytes = some e.event_bytes;
  leaf_hash = leaf_hash;
  prev_hash = prev_hash;
  chain_hash = chain_hash;
  erased_at = none;
  erasure_reason = 0;
  subjects = extract_subjects parse e.event_bytes;
}

-- `row.subjects.any(subject_id)` and `erased_at IS NULL`
unfoldable pub erasable : String → AuditEvent → Bool
erasable subject_id e = any (str_eq subject_id) e.subjects && not (is_some e.erased_at)

unfoldable pub erase_row : ℕ → ℕ → AuditEvent → AuditEvent
erase_row now reason e = record e {
  event_bytes = none;
  erased_at = some now;
  erasure_reason = reason;
}

abbrev pub already_stored : AuditEvent → AppendResult
already_stored existing = record {
  sequence_number = existing.sequence_number;
  leaf_hash = existing.leaf_hash;
  chain_hash = existing.chain_hash;
  persisted_at = existing.persisted_at;
  duplicate = true;
}

module _ (T : Tables) where
  open T use {events as event_table, segments as segment_table, checkpoints as checkpoint_table}

  abbrev pub event_rows : AuditDb T → List AuditEvent
  event_rows db = event_table.rows db.events

  unfoldable pub find_by_event_id : AuditDb T → String → Option AuditEvent
  find_by_event_id db event_id = find? (λ e. str_eq e.event_id event_id) (event_rows db)

  -- The last row in ascending order, `ORDER BY sequence_number DESC LIMIT 1`.
  unfoldable pub last_event : AuditDb T → Option AuditEvent
  last_event db = get_last? (event_rows db)

  unfoldable pub last_segment : AuditDb T → Option AuditChainSegment
  last_segment db = max_by (λ g. g.last_sequence_number) (segment_table.rows db.segments)

  unfoldable pub predecessor : AuditDb T → ℕ → Option AuditEvent
  predecessor db sequence_number =
      get_last? (filter (λ e. ltb e.sequence_number sequence_number) (event_rows db))

  unfoldable pub count : AuditDb T → ℕ
  count db = length (event_rows db)

  unfoldable pub count_since : AuditDb T → ℕ → ℕ
  count_since db sequence_number =
      length (filter (λ e. ltb sequence_number e.sequence_number) (event_rows db))

  unfoldable pub event_at : AuditDb T → ℕ → Option AuditEvent
  event_at db sequence_number = find? (λ e. e.sequence_number == sequence_number) (event_rows db)

  unfoldable pub tail_state : AuditDb T → Result ChainError TailState
  unfolding last_event last_segment count
  tail_state db = elim (last_event db) [
    | some row ↦ ok (record {
      prev_hash = row.chain_hash;
      tree_size = count db;
      tail_sequence_number = row.sequence_number;
    })
    | none ↦ elim (last_segment db) [
      | some segment ↦ ok (record {
        prev_hash = segment.terminal_chain_hash;
        tree_size = count db;
        tail_sequence_number = segment.last_sequence_number;
      })
      | none ↦ do
        genesis ← genesis_prev_hash default_hash_algorithm
        ok (record { prev_hash = genesis; tree_size = 0; tail_sequence_number = 0 })
    ]
  ]

  module _ (parse : Bytes → Option (String × Option (List String))) (sha256 : Bytes → Bytes) where
    -- What `append` does once it holds the advisory lock.
    unfoldable pub append_locked :
        NewEvent → ℕ → ℕ → AuditDb T → Result ChainError (AuditDb T × AppendResult)
    unfolding find_by_event_id new_row
    append_locked e sequence_number persisted_at db = elim (find_by_event_id db e.event_id) [
      | some existing ↦ ok (db, already_stored existing)
      | none ↦ do
        tail ← tail_state db
        leaf_hash ← compute_leaf_hash sha256 e.event_bytes e.hash_algorithm
        chain_hash ← compute_chain_hash sha256 tail.prev_hash leaf_hash e.hash_algorithm
        ok (
          record db {
            events =
                event_table.insert
                  (new_row parse e leaf_hash tail.prev_hash chain_hash sequence_number persisted_at)
                  db.events;
          },
          record {
            sequence_number = sequence_number;
            leaf_hash = leaf_hash;
            chain_hash = chain_hash;
            persisted_at = persisted_at;
            duplicate = false;
          },
        )
    ]

    -- `seen` is the database at the first look, before the lock; `locked` is the database once
    -- the lock is held, after what other writers have committed in between.
    unfoldable pub append :
        NewEvent → ℕ → ℕ → (seen locked : AuditDb T) → Result ChainError (AuditDb T × AppendResult)
    unfolding append_locked
    append e sequence_number persisted_at seen locked = elim (find_by_event_id seen e.event_id) [
      | some existing ↦ ok (locked, already_stored existing)
      | none ↦ append_locked e sequence_number persisted_at locked
    ]

  -- The database afterwards, and the number of rows that the statement changed.
  unfoldable pub erase_subject_payloads : String → ℕ → ℕ → AuditDb T → AuditDb T × ℕ
  unfolding erasable erase_row
  erase_subject_payloads subject_id reason now db = (
    record db {
      events = event_table.update (erasable subject_id) (erase_row now reason) db.events;
    },
    length (filter (erasable subject_id) (event_rows db)),
  )

  unfoldable pub latest_checkpoint : AuditDb T → Option AuditCheckpoint
  latest_checkpoint db = get_last? (checkpoint_table.rows db.checkpoints)

  unfoldable pub checkpoint_by_id : AuditDb T → ℕ → Option AuditCheckpoint
  checkpoint_by_id db checkpoint_id =
      find? (λ c. c.checkpoint_id == checkpoint_id) (checkpoint_table.rows db.checkpoints)
