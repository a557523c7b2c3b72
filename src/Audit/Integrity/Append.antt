-- ===== src/Audit/Integrity/Append.antt =====
-- `append` of services/audit/app/repositories/audit_repository.py.
use theft_detection_platform.Prelude.{
  ℕ, ◌<◌, ◌≡◌, refl, subst, sym, Option, some, List, [], ◌∷◌, ◌++◌, Bytes, ok, arith, get_last?,
  Result-cases, Option-cases, inl, inr, get_last?-eq-none, String, ◌⊎◌,
}
use theft_detection_platform.Prelude.Table.{Table}
use theft_detection_platform.Audit.Chain.{
  digest_size, is_supported, genesis_prev_hash, compute_leaf_hash, compute_chain_hash,
}
use theft_detection_platform.Audit.Records.{
  AuditEvent, Tables, AuditDb, NewEvent, AppendResult, TailState,
}
use theft_detection_platform.Audit.Repository.{
  event_rows, last_segment, tail_state, append, append_locked, new_row, find_by_event_id,
}
use theft_detection_platform.Audit.Retention.{sealed_through}
use theft_detection_platform.Audit.Integrity.{IsAscending, anchor, IsIntact}
use theft_detection_platform.Audit.Verify.Linked.{
  IsSound, tail_hash, tail_hash_last, IsLinked-append_one,
}

-- The sequence number at the end of the rows.
abbrev pub tail_sequence : ℕ → List AuditEvent → ℕ
tail_sequence low [] = low
tail_sequence low (row ∷ rest) = tail_sequence row.sequence_number rest

tail_sequence_last :
    (low : ℕ) (rows : List AuditEvent) (row : AuditEvent)
    → get_last? rows ≡ some row
    → tail_sequence low rows ≡ row.sequence_number
tail_sequence_last low [] row h = ground arith
tail_sequence_last low (r ∷ []) row h = ground arith
tail_sequence_last low (r ∷ r' ∷ rest) row h =
    tail_sequence_last r.sequence_number (r' ∷ rest) row h

IsAscending-append_one :
    (low : ℕ) (rows : List AuditEvent) (row : AuditEvent)
    → IsAscending low rows
    → tail_sequence low rows < row.sequence_number
    → IsAscending low (rows ++ row ∷ [])
IsAscending-append_one low [] row h above = (above, tt)
IsAscending-append_one low (r ∷ rest) row h above =
    (h.0, IsAscending-append_one r.sequence_number rest row h.1 above)

module _ (T : Tables) (sha256 : Bytes → Bytes) where
  -- The tail is what the next row has to link to.
  tail-state :
      (db : AuditDb T) {t : TailState}
      → tail_state T db ≡ ok t
      → (t.prev_hash ≡ tail_hash (anchor T db) (event_rows T db))
        × (t.tail_sequence_number ≡ tail_sequence (sealed_through T db) (event_rows T db))
  unfolding tail_state sealed_through genesis_prev_hash digest_size
  tail-state db e = elim (Option-cases (get_last? (event_rows T db))) [
    | inl empty ↦ ground (arith, get_last?-eq-none (event_rows T db) empty)
    | inr (row, last) ↦ ground (
      arith,
      tail_hash_last (anchor T db) (event_rows T db) row last,
      tail_sequence_last (sealed_through T db) (event_rows T db) row last,
    )
  ]

  -- The row that `append` adds is sound behind the tail.
  new_row-IsSound :
      (parse : Bytes → Option (String × Option (List String))) (e : NewEvent)
      (leaf prev chain : Bytes) (seq now : ℕ)
      → compute_leaf_hash sha256 e.event_bytes e.hash_algorithm ≡ ok leaf
      → compute_chain_hash sha256 prev leaf e.hash_algorithm ≡ ok chain
      → IsSound sha256 prev (new_row parse e leaf prev chain seq now)
  unfolding new_row is_supported
  new_row-IsSound parse e leaf prev chain seq now hl hc = record {
    supported = unfold compute_chain_hash digest_size in ground arith;
    linked = refl;
    payload = λ b kept. ground arith;
    erased = λ gone. ground arith;
    chained = hc;
  }

  abbrev with_row : AuditDb T → AuditEvent → AuditDb T
  with_row db row = record db { events = Table.insert T.events row db.events }

  with_row-IsIntact :
      (db : AuditDb T) (row : AuditEvent)
      → IsSound sha256 (tail_hash (anchor T db) (event_rows T db)) row
      → tail_sequence (sealed_through T db) (event_rows T db) < row.sequence_number
      → IsIntact T sha256 db
      → IsIntact T sha256 (with_row db row)
  unfolding last_segment sealed_through
  with_row-IsIntact db row sound above h = record {
    linked =
        rw (Table.rows-insert T.events row db.events)
          (IsLinked-append_one (anchor T db) (event_rows T db) row h.linked sound);
    ascending =
        rw (Table.rows-insert T.events row db.events)
          (IsAscending-append_one (sealed_through T db) (event_rows T db) row h.ascending above);
  }

  module _ (parse : Bytes → Option (String × Option (List String))) (e : NewEvent) (seq now : ℕ)
      (db : AuditDb T) where
    -- How `append_locked` succeeds: it finds the event, or it adds one row behind the tail.
    append_locked_cases :
        {db' : AuditDb T} {r : AppendResult}
        → append_locked T parse sha256 e seq now db ≡ ok (db', r)
        → (db' ≡ db)
          ⊎ ((t : TailState) × (leaf : Bytes) × (chain : Bytes) × (tail_state T db ≡ ok t)
              × (compute_leaf_hash sha256 e.event_bytes e.hash_algorithm ≡ ok leaf)
              × (compute_chain_hash sha256 t.prev_hash leaf e.hash_algorithm ≡ ok chain)
              × (db' ≡ with_row db (new_row parse e leaf t.prev_hash chain seq now)))
    unfolding append_locked
    append_locked_cases {db'} {r} h = elim (Option-cases (find_by_event_id T db e.event_id)) [
      | inr (x, found) ↦ inl (ground arith)
      | inl fresh ↦ elim (Result-cases (tail_state T db)) [
        | inr (x, raised) ↦ absurd (ground arith)
        | inl (t, tailed) ↦
            elim (Result-cases (compute_leaf_hash sha256 e.event_bytes e.hash_algorithm)) [
              | inr (x, raised) ↦ absurd (ground arith)
              | inl (leaf, hashed) ↦
                  elim (Result-cases
                    (compute_chain_hash sha256 t.prev_hash leaf e.hash_algorithm)) [
                      | inr (x, raised) ↦ absurd (ground arith)
                      | inl (chain, chained) ↦
                          inr (t, leaf, chain, tailed, hashed, chained, ground arith)
                    ]
            ]
      ]
    ]

    append_locked-IsIntact :
        {db' : AuditDb T} {r : AppendResult}
        → append_locked T parse sha256 e seq now db ≡ ok (db', r)
        → ((t : TailState) → tail_state T db ≡ ok t → t.tail_sequence_number < seq)
        → IsIntact T sha256 db
        → IsIntact T sha256 db'
    append_locked-IsIntact {db'} {r} h above intact_before = elim (append_locked_cases h) [
      | inl same ↦ subst (IsIntact T sha256) (sym same) intact_before
      | inr (t, leaf, chain, tailed, hashed, chained, grown) ↦
          let (prev, number) = tail-state db tailed in
          let row = new_row parse e leaf t.prev_hash chain seq now in
          subst (IsIntact T sha256) (sym grown) (
            with_row-IsIntact db row
              (subst (λ p. IsSound sha256 p row) prev
                (new_row-IsSound parse e leaf t.prev_hash chain seq now hashed chained))
              (unfold new_row in omega (arith, above t tailed)) intact_before)
    ]

    -- A successful `append`, whatever its first look saw, keeps the log intact, if PostgreSQL
    -- assigns a sequence number above the tail's.
    pub append-IsIntact :
        (seen : AuditDb T) {db' : AuditDb T} {r : AppendResult}
        → append T parse sha256 e seq now seen db ≡ ok (db', r)
        → ((t : TailState) → tail_state T db ≡ ok t → t.tail_sequence_number < seq)
        → IsIntact T sha256 db
        → IsIntact T sha256 db'
    unfolding append
    append-IsIntact seen {db'} {r} h above before =
        elim (Option-cases (find_by_event_id T seen e.event_id)) [
          | inr (x, found) ↦ subst (IsIntact T sha256) (ground arith) before
          | inl fresh ↦ append_locked-IsIntact (rw (fresh, append) at h) above before
        ]
