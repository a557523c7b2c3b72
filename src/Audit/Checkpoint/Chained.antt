-- ===== src/Audit/Checkpoint/Chained.antt =====
-- Writing and verifying checkpoints, services/audit/app/services/checkpoint_service.py.
use theft_detection_platform.Prelude.{
  ℕ, ◌+◌, ◌<◌, ◌≡◌, refl, sym, subst, true, false, inl, inr, Option, none, some, List, [], ◌∷◌,
  ◌++◌, Bytes, arith, bytes_eq_iff, bytes_eq_refl, ◌==◌, ok, Result-cases, Option-cases, Bool-cases,
  find?, get_last?, get_last?-eq-none,
}
use theft_detection_platform.Prelude.Table.{Table}
use theft_detection_platform.Audit.Chain.{
  default_hash_algorithm, genesis_checkpoint, checkpoint_payload, compute_checkpoint_hash,
  checkpoint_matches,
}
use theft_detection_platform.Audit.Records.{
  AuditEvent, AuditCheckpoint, Tables, AuditDb, TailState, none_found,
}
use theft_detection_platform.Audit.Repository.{
  event_rows, tail_state, last_event, count, latest_checkpoint, event_at,
}
use theft_detection_platform.Audit.Retention.{sealed_through}
use theft_detection_platform.Audit.Integrity.{IsAscending, IsIntact}
use theft_detection_platform.Audit.Checkpoint.{
  Signer, CheckpointResult, check_checkpoint, verify_checkpoint_rows, checkpoints_in_order,
  verify_checkpoints, checkpoint_row, sign_checkpoint, create_checkpoint,
}

abbrev pub valid : ℕ → CheckpointResult
valid n = record {
  failure_kind = none_found;
  checkpoints_verified = n;
  break_at_checkpoint_id = none;
}

-- The hash that the checkpoint behind `rows` has to name.
abbrev last_hash : Bytes → List AuditCheckpoint → Bytes
last_hash expected [] = expected
last_hash expected (row ∷ rest) = last_hash row.checkpoint_hash rest

last_hash-get_last? :
    (expected : Bytes) (rows : List AuditCheckpoint) {last : AuditCheckpoint}
    → get_last? rows ≡ some last
    → last_hash expected rows ≡ last.checkpoint_hash
last_hash-get_last? expected [] h = absurd (ground arith)
last_hash-get_last? expected (row ∷ []) h = ground arith
last_hash-get_last? expected (row ∷ r ∷ rest) {last} h =
    last_hash-get_last? row.checkpoint_hash (r ∷ rest) {last = last} h

-- In ascending rows, the number of the last one finds it.
find?-get_last? :
    (low : ℕ) (rows : List AuditEvent) {last : AuditEvent}
    → IsAscending low rows
    → get_last? rows ≡ some last
    → (low < last.sequence_number)
      × (find? (λ e. e.sequence_number == last.sequence_number) rows ≡ some last)
find?-get_last? low [] rising h = absurd (ground arith)
find?-get_last? low (row ∷ []) rising h = (ground arith, ground (arith))
find?-get_last? low (row ∷ r ∷ rest) {last} rising h =
    let (above, at) = find?-get_last? row.sequence_number (r ∷ rest) {last = last} rising.1 h in
    (omega (arith, above, rising.0), ground (arith, above, at))

module _ (sha256 : Bytes → Bytes) (signer : Signer) where
  verify_rows_snoc :
      (find : ℕ → Option AuditEvent) (expected : Bytes) (rows : List AuditCheckpoint)
      (row : AuditCheckpoint) (verified n : ℕ)
      → verify_checkpoint_rows sha256 signer find expected rows verified ≡ ok (valid n)
      → check_checkpoint sha256 signer find (last_hash expected rows) row ≡ ok none
      → verify_checkpoint_rows sha256 signer find expected (rows ++ row ∷ []) verified
        ≡ ok (valid (n + 1))
  unfolding verify_checkpoint_rows
  verify_rows_snoc find expected [] row verified n h good = ground arith
  verify_rows_snoc find expected (r ∷ rest) row verified n h good =
      elim (Result-cases (check_checkpoint sha256 signer find expected r)) [
        | inr (e, raised) ↦ absurd (ground arith)
        | inl (some failure, broken) ↦ absurd (ground arith)
        | inl (none, passed) ↦
            rw (passed) (
              verify_rows_snoc find r.checkpoint_hash rest row (verified + 1) n (ground arith) good)
      ]

  module _ (T : Tables) (db : AuditDb T) where
    empty_tree :
        {tail : TailState}
        → last_event T db ≡ none
        → event_rows T db ≡ []
        → tail_state T db ≡ ok tail
        → (tail.tree_size == 0) ≡ false
        → ⊥
    unfolding tail_state count
    empty_tree {tail} empty none_left h full = ground arith

    tail_row :
        {tail : TailState}
        → IsIntact T sha256 db
        → tail_state T db ≡ ok tail
        → (tail.tree_size == 0) ≡ false
        → (last : AuditEvent) × (event_at T db tail.tail_sequence_number ≡ some last)
          × (last.chain_hash ≡ tail.prev_hash)
    unfolding tail_state last_event count event_at
    tail_row {tail} intact h full = elim (Option-cases (last_event T db)) [
      | inr (last, found) ↦
          let (above, at) =
            find?-get_last? (sealed_through T db) (event_rows T db) {last = last} intact.ascending
              found in
          (last, ground (arith, at), ground arith)
      | inl empty ↦
          let none_left = get_last?-eq-none (event_rows T db) empty in
          absurd (empty_tree {tail = tail} empty none_left h full)
    ]

    written_passes :
        (checkpoint_id signed_at : ℕ) (prev : Bytes) {tail : TailState} {payload hash : Bytes}
        → IsIntact T sha256 db
        → ((p : Bytes) → signer.verify p (signer.sign p) signer.key_id ≡ true)
        → tail_state T db ≡ ok tail
        → (tail.tree_size == 0) ≡ false
        → checkpoint_payload signer.key_id tail.tree_size tail.tail_sequence_number tail.prev_hash
            prev signer.signature_algorithm default_hash_algorithm
          ≡ ok payload
        → compute_checkpoint_hash sha256 payload default_hash_algorithm ≡ ok hash
        → check_checkpoint sha256 signer (event_at T db) prev (
            checkpoint_row sha256 signer T checkpoint_id signed_at tail prev
              (signer.sign payload)
              hash)
          ≡ ok none
    unfolding check_checkpoint checkpoint_matches
    written_passes checkpoint_id signed_at prev {tail} {payload} {hash} intact signs tailed full
          made hashed =
        let (last, at, same) = tail_row intact tailed full in
        ground (
          arith,
          signs payload,
          bytes_eq_refl hash,
          bytes_eq_refl prev,
          bytes_eq_iff last.chain_hash tail.prev_hash,
        )

    abbrev added : AuditCheckpoint → AuditDb T
    added row = record db { checkpoints = Table.insert T.checkpoints row db.checkpoints }

    added_verifies :
        (row : AuditCheckpoint) (n : ℕ)
        → verify_checkpoints sha256 signer T db ≡ ok (valid n)
        → check_checkpoint sha256 signer
            (event_at T db)
            (last_hash genesis_checkpoint (checkpoints_in_order sha256 signer T db))
            row
          ≡ ok none
        → verify_checkpoints sha256 signer T (added row) ≡ ok (valid (n + 1))
    unfolding verify_checkpoints event_at
    added_verifies row n before good = rw (Table.rows-insert T.checkpoints) (
        verify_rows_snoc (event_at T db) genesis_checkpoint
          (checkpoints_in_order sha256 signer T db) row 0 n before good)

    first_hash :
        latest_checkpoint T db ≡ none
        → last_hash genesis_checkpoint (checkpoints_in_order sha256 signer T db)
          ≡ genesis_checkpoint
    unfolding latest_checkpoint
    first_hash never = rw (get_last?-eq-none (checkpoints_in_order sha256 signer T db) never) refl

    -- Signing behind a previous hash that is that of the last row.
    signed_verifies :
        (checkpoint_id signed_at n : ℕ) (prev : Bytes) {tail : TailState} {db' : AuditDb T}
        {id : Option ℕ}
        → IsIntact T sha256 db
        → ((p : Bytes) → signer.verify p (signer.sign p) signer.key_id ≡ true)
        → tail_state T db ≡ ok tail
        → (tail.tree_size == 0) ≡ false
        → last_hash genesis_checkpoint (checkpoints_in_order sha256 signer T db) ≡ prev
        → verify_checkpoints sha256 signer T db ≡ ok (valid n)
        → sign_checkpoint sha256 signer T checkpoint_id signed_at tail prev db ≡ ok (db', id)
        → verify_checkpoints sha256 signer T db' ≡ ok (valid (n + 1))
    unfolding sign_checkpoint
    signed_verifies checkpoint_id signed_at n prev {tail} {db'} intact signs tailed full behind
          before done =
        elim (Result-cases (
          checkpoint_payload signer.key_id tail.tree_size tail.tail_sequence_number tail.prev_hash
            prev signer.signature_algorithm default_hash_algorithm)) [
              | inr (e, raised) ↦ absurd (ground arith)
              | inl (payload, made) ↦
                  elim (Result-cases
                    (compute_checkpoint_hash sha256 payload default_hash_algorithm)) [
                      | inr (e, raised) ↦ absurd (ground arith)
                      | inl (hash, hashed) ↦
                          let row =
                            checkpoint_row sha256 signer T checkpoint_id signed_at tail prev
                              (signer.sign payload) hash in
                          let same : added row ≡ db' = ground arith in
                          subst (λ d. verify_checkpoints sha256 signer T d ≡ ok (valid (n + 1)))
                            same
                            (added_verifies row n before (
                              subst
                                (λ q.
                                  check_checkpoint sha256 signer (event_at T db) q row ≡ ok none)
                                (sym behind)
                                (written_passes checkpoint_id signed_at prev intact signs tailed
                                  full made hashed)))
                    ]
            ]

    -- Where the log is intact and its checkpoints verify, a checkpoint that is written verifies
    -- with them, if the signer's signatures verify under its own key.
    pub create_checkpoint-verify_checkpoints :
        (checkpoint_id signed_at n : ℕ) {db' : AuditDb T} {id : ℕ}
        → IsIntact T sha256 db
        → ((p : Bytes) → signer.verify p (signer.sign p) signer.key_id ≡ true)
        → verify_checkpoints sha256 signer T db ≡ ok (valid n)
        → create_checkpoint sha256 signer T checkpoint_id signed_at db ≡ ok (db', some id)
        → verify_checkpoints sha256 signer T db' ≡ ok (valid (n + 1))
    unfolding create_checkpoint latest_checkpoint
    create_checkpoint-verify_checkpoints checkpoint_id signed_at n {db'} {id} intact signs before
          done =
        elim (Result-cases (tail_state T db)) [
          | inr (e, raised) ↦ absurd (ground arith)
          | inl (tail, tailed) ↦ elim (Bool-cases (tail.tree_size == 0)) [
            | inl empty ↦ absurd (ground arith)
            | inr full ↦ elim (Option-cases (latest_checkpoint T db)) [
              | inl never ↦
                  signed_verifies checkpoint_id signed_at n genesis_checkpoint {tail = tail}
                    {id = some id} intact signs tailed full (first_hash never) before (ground arith)
              | inr (previous, found) ↦
                  signed_verifies checkpoint_id signed_at n previous.checkpoint_hash {tail = tail}
                    {id = some id} intact signs tailed full
                    (last_hash-get_last? genesis_checkpoint
                      (checkpoints_in_order sha256 signer T db) {last = previous} found)
                    before (ground arith)
            ]
          ]
        ]
