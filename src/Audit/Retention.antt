-- ===== src/Audit/Retention.antt =====
-- services/audit/app/services/retention.py. A moment is a number of microseconds; the settings
-- `retention_days`, `segment_interval_days` and `retention_max_rows_per_run` are arguments.
use theft_detection_platform.Prelude.{
  ℕ, ◌+◌, ◌*◌, ◌-◌, Bool, not, ◌&&◌, Option, none, some, List, Bytes, bytes_eq, length, filter,
  take, get_last?, head?, all, find?, Result, ok, err, ◌>>=◌, ◌>>◌, raise_if, ltb, leb, ◌==◌,
  if◌then◌else◌,
}
use theft_detection_platform.Audit.Records.{AuditEvent, AuditChainSegment, Tables, AuditDb}
use theft_detection_platform.Audit.Repository.{event_rows, last_segment, latest_checkpoint}

-- `RetentionError`, by its message.
pub data RetentionError : Type 0 where
  linkage_broken mixed_algorithms not_covered : RetentionError
  wrong_row_count no_survivor survivor_unlinked : RetentionError

pub record SegmentCandidate : Type 0 where
  pub first_sequence_number : ℕ
  pub last_sequence_number : ℕ
  pub first_prev_hash : Bytes
  pub terminal_chain_hash : Bytes
  pub row_count : ℕ
  pub hash_algorithm : ℕ
  pub covers_from : ℕ
  pub covers_to : ℕ

pub record SealOutcome : Type 0 where
  pub segment_id : ℕ
  pub first_sequence_number : ℕ
  pub last_sequence_number : ℕ
  pub row_count : ℕ
  pub terminal_chain_hash : Bytes
  pub covers_from : ℕ
  pub covers_to : ℕ
  pub checkpoint_id : Option ℕ

pub record RetentionSettings : Type 0 where
  pub retention_days : ℕ
  pub segment_interval_days : ℕ
  pub retention_max_rows_per_run : ℕ

-- `timedelta(days=n)`
abbrev pub days : ℕ → ℕ
days n = n * 86400000000

unfoldable pub retention_cutoff : RetentionSettings → ℕ → ℕ
retention_cutoff settings now = now - days settings.retention_days

-- The rows of the candidate's range.
abbrev pub in_segment : SegmentCandidate → AuditEvent → Bool
in_segment c e =
    leb c.first_sequence_number e.sequence_number && leb e.sequence_number c.last_sequence_number

-- The `INSERT`; PostgreSQL assigns `segment_id` and `sealed_at`.
unfoldable pub new_segment : SegmentCandidate → Option ℕ → ℕ → ℕ → AuditChainSegment
new_segment c checkpoint_id segment_id sealed_at = record {
  segment_id = segment_id;
  first_sequence_number = c.first_sequence_number;
  last_sequence_number = c.last_sequence_number;
  first_prev_hash = c.first_prev_hash;
  terminal_chain_hash = c.terminal_chain_hash;
  row_count = c.row_count;
  hash_algorithm = c.hash_algorithm;
  covers_from = c.covers_from;
  covers_to = c.covers_to;
  sealed_at = sealed_at;
  checkpoint_id = checkpoint_id;
}

-- `first` stands at the head of the rows, `last` at their end.
unfoldable pub candidate : AuditEvent → AuditEvent → List AuditEvent → SegmentCandidate
candidate first last rows = record {
  first_sequence_number = first.sequence_number;
  last_sequence_number = last.sequence_number;
  first_prev_hash = first.prev_hash;
  terminal_chain_hash = last.chain_hash;
  row_count = length rows;
  hash_algorithm = first.hash_algorithm;
  covers_from = first.persisted_at;
  covers_to = last.persisted_at;
}

module _ (T : Tables) where
  open T use {events as event_table, segments as segment_table, checkpoints as checkpoint_table}

  unfoldable pub sealed_through : AuditDb T → ℕ
  sealed_through db = elim (last_segment T db) [ none ↦ 0 | some g ↦ g.last_sequence_number ]

  unfoldable pub oldest_live : AuditDb T → ℕ → Option AuditEvent
  oldest_live db after = find? (λ e. ltb after e.sequence_number) (event_rows T db)

  -- The rows that the query of `next_segment` returns.
  unfoldable pub due_rows : RetentionSettings → AuditDb T → ℕ → ℕ → List AuditEvent
  due_rows settings db sealed window_end = take settings.retention_max_rows_per_run (
      filter (λ e. ltb sealed e.sequence_number && ltb e.persisted_at window_end) (event_rows T db))

  -- What `next_segment` does with those rows.
  unfoldable pub from_rows :
      AuditDb T → List AuditEvent → Result RetentionError (Option SegmentCandidate)
  unfolding candidate
  from_rows db rows = elim (head? rows) [
    | none ↦ ok none
    | some first ↦ elim (get_last? rows) [
      | none ↦ ok none
      | some last ↦ elim (oldest_live db last.sequence_number) [
        | none ↦ ok none
        | some successor ↦
            if not (bytes_eq successor.prev_hash last.chain_hash)
            then err linkage_broken
            else if not (all (λ e. e.hash_algorithm == first.hash_algorithm) rows)
            then err mixed_algorithms
            else ok (some (candidate first last rows))
      ]
    ]
  ]

  unfoldable pub next_segment :
      RetentionSettings → ℕ → AuditDb T → Result RetentionError (Option SegmentCandidate)
  next_segment settings now db = elim (oldest_live db (sealed_through db)) [
    | none ↦ ok none
    | some oldest ↦
        let window_end = oldest.persisted_at + days settings.segment_interval_days in
        if ltb (retention_cutoff settings now) window_end
        then ok none
        else from_rows db (due_rows settings db (sealed_through db) window_end)
  ]

  -- The checkpoint that covers the candidate, where there is any checkpoint.
  unfoldable pub covering : AuditDb T → SegmentCandidate → Result RetentionError (Option ℕ)
  covering db c = elim (latest_checkpoint T db) [
    | none ↦ ok none
    | some checkpoint ↦
        if ltb checkpoint.tail_sequence_number c.last_sequence_number
        then err not_covered
        else ok (some checkpoint.checkpoint_id)
  ]

  unfoldable pub drop_range : SegmentCandidate → Option ℕ → ℕ → ℕ → AuditDb T → AuditDb T
  unfolding new_segment
  drop_range c checkpoint_id segment_id sealed_at db = record db {
    events = event_table.delete (in_segment c) db.events;
    segments = segment_table.insert (new_segment c checkpoint_id segment_id sealed_at) db.segments;
  }

  -- The tests after the `DELETE`; a `RetentionError` rolls the transaction back.
  unfoldable pub check_survivor : SegmentCandidate → AuditDb T → Result RetentionError (Unit {0})
  check_survivor c db = elim (oldest_live db c.last_sequence_number) [
    | none ↦ err no_survivor
    | some survivor ↦
        raise_if (not (bytes_eq survivor.prev_hash c.terminal_chain_hash)) survivor_unlinked
  ]

  unfoldable pub seal_and_drop :
      SegmentCandidate → ℕ → ℕ → AuditDb T → Result RetentionError (AuditDb T × SealOutcome)
  unfolding covering drop_range check_survivor
  seal_and_drop c segment_id sealed_at db = do
    checkpoint_id ← covering db c
    let dropped = length (filter (in_segment c) (event_rows T db))
    raise_if (not (dropped == c.row_count)) wrong_row_count
    let after = drop_range c checkpoint_id segment_id sealed_at db
    check_survivor c after
    ok (
      after,
      record {
        segment_id = segment_id;
        first_sequence_number = c.first_sequence_number;
        last_sequence_number = c.last_sequence_number;
        row_count = c.row_count;
        terminal_chain_hash = c.terminal_chain_hash;
        covers_from = c.covers_from;
        covers_to = c.covers_to;
        checkpoint_id = checkpoint_id;
      },
    )
