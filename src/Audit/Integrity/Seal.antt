-- ===== src/Audit/Integrity/Seal.antt =====
-- `seal_and_drop` of services/audit/app/services/retention.py.
use theft_detection_platform.Prelude.{
  ℕ, suc, ◌-◌, ◌<◌, ◌≤◌, ◌≡◌, refl, sym, not, Option, none, some, List, [], ◌∷◌, ◌++◌, Bytes, ok,
  arith, ◌⊎◌, inl, inr, head?, filter, leb, max_by, length, Result-cases, bytes_eq_iff, subst,
  Bool-cases,
}
use theft_detection_platform.Prelude.Table.{Table}
use theft_detection_platform.Audit.Records.{AuditEvent, AuditChainSegment, Tables, AuditDb}
use theft_detection_platform.Audit.Repository.{event_rows, last_segment}
use theft_detection_platform.Audit.Retention.{
  SegmentCandidate, SealOutcome, sealed_through, oldest_live, covering, new_segment, in_segment,
  drop_range, check_survivor, seal_and_drop,
}
use theft_detection_platform.Audit.Integrity.{IsAscending, anchor, IsIntact}
use theft_detection_platform.Audit.Verify.Linked.{IsLinked}

-- A segment that ends after all others is the last one.
abbrev greatest : List AuditChainSegment → ℕ
greatest segments = elim (max_by (λ g. g.last_sequence_number) segments) [
  | none ↦ 0
  | some g ↦ g.last_sequence_number
]

max_by-append_one :
    (segments : List AuditChainSegment) (new : AuditChainSegment)
    → greatest segments < new.last_sequence_number
    → max_by (λ g. g.last_sequence_number) (segments ++ new ∷ []) ≡ some new
max_by-append_one [] new h = refl
max_by-append_one (g ∷ rest) new h = ground (arith, max_by-append_one rest new)

module _ (sha256 : Bytes → Bytes) (c : SegmentCandidate) where
  abbrev kept : List AuditEvent → List AuditEvent
  kept = filter (λ e. not (in_segment c e))

  kept_all :
      (low : ℕ) (rows : List AuditEvent)
      → c.last_sequence_number ≤ low
      → IsAscending low rows
      → kept rows ≡ rows
  kept_all low [] above h = refl
  kept_all low (row ∷ rest) above h =
      ground (arith, kept_all row.sequence_number rest (omega arith) h.1)

  abbrev Suffix : List AuditEvent → Type 0
  Suffix rows =
      (rows ≡ [])
      ⊎ ((head : AuditEvent) × (rest : List AuditEvent) × (rows ≡ head ∷ rest)
          × IsLinked sha256 head.prev_hash (head ∷ rest)
          × IsAscending c.last_sequence_number (head ∷ rest))

  -- What the deletion leaves of a chain is a chain from its own head.
  kept_suffix :
      (expected : Bytes) (low : ℕ) (rows : List AuditEvent)
      → c.first_sequence_number ≤ suc low
      → IsLinked sha256 expected rows
      → IsAscending low rows
      → Suffix (kept rows)
  kept_suffix expected low [] first linked rising = inl refl
  kept_suffix expected low (row ∷ rest) first linked rising =
      elim (Bool-cases (leb row.sequence_number c.last_sequence_number)) [
        | inl gone ↦
            subst (λ r. Suffix r) (ground arith)
              (kept_suffix row.chain_hash row.sequence_number rest (omega arith) linked.1 rising.1)
        | inr stays ↦ inr (
          row,
          rest,
          ground (arith, kept_all row.sequence_number rest (ground arith) rising.1),
          subst (λ q. IsLinked sha256 q (row ∷ rest)) (sym linked.0.linked) linked,
          (ground arith, rising.1),
        )
      ]

relow :
    (low first : ℕ) (rows : List AuditEvent)
    → ((row : AuditEvent) → head? rows ≡ some row → first ≤ row.sequence_number)
    → IsAscending low rows
    → IsAscending (first - 1) rows
relow low first [] starts h = tt
relow low first (row ∷ rest) starts h = (omega (arith, starts row refl, h.0), h.1)

module _ (T : Tables) (sha256 : Bytes → Bytes) (c : SegmentCandidate) (db : AuditDb T) where
  -- How `seal_and_drop` succeeds.
  seal_cases :
      (segment_id sealed_at : ℕ) {db' : AuditDb T} {out : SealOutcome}
      → seal_and_drop T c segment_id sealed_at db ≡ ok (db', out)
      → (covered : Option ℕ) × (db' ≡ drop_range T c covered segment_id sealed_at db)
        × (check_survivor T c (drop_range T c covered segment_id sealed_at db) ≡ ok tt)
        × (length (filter (in_segment c) (event_rows T db)) ≡ c.row_count)
  unfolding seal_and_drop
  seal_cases segment_id sealed_at h = elim (Result-cases (covering T db c)) [
    | inr (x, raised) ↦ absurd (ground arith)
    | inl (covered, found) ↦ (covered, ground arith, ground arith, ground arith)
  ]

  last_segment-drop_range :
      (covered : Option ℕ) (segment_id sealed_at : ℕ)
      → sealed_through T db < c.last_sequence_number
      → last_segment T (drop_range T c covered segment_id sealed_at db)
        ≡ some (new_segment c covered segment_id sealed_at)
  unfolding last_segment drop_range sealed_through
  last_segment-drop_range covered segment_id sealed_at above = rw (Table.rows-insert T.segments) (
      max_by-append_one (Table.rows T.segments db.segments)
        (new_segment c covered segment_id sealed_at) above)

  rows_drop :
      (covered : Option ℕ) (segment_id sealed_at : ℕ)
      → event_rows T (drop_range T c covered segment_id sealed_at db)
        ≡ kept sha256 c (event_rows T db)
  unfolding drop_range
  rows_drop covered segment_id sealed_at = Table.rows-delete T.events (in_segment c) db.events

  drop_range-IsIntact :
      (covered : Option ℕ) (segment_id sealed_at : ℕ)
      → Suffix sha256 c (event_rows T (drop_range T c covered segment_id sealed_at db))
      → check_survivor T c (drop_range T c covered segment_id sealed_at db) ≡ ok tt
      → sealed_through T db < c.last_sequence_number
      → IsIntact T sha256 (drop_range T c covered segment_id sealed_at db)
  unfolding check_survivor oldest_live sealed_through new_segment
  drop_range-IsIntact covered segment_id sealed_at (inl empty) survived above =
      absurd (ground arith)
  drop_range-IsIntact covered segment_id sealed_at (inr (head, rest, same, linked, rising)) survived
        above =
      let last = last_segment-drop_range covered segment_id sealed_at above in
      let terminal : head.prev_hash ≡ c.terminal_chain_hash =
        ground (arith, bytes_eq_iff head.prev_hash c.terminal_chain_hash) in
      let after = drop_range T c covered segment_id sealed_at db in
      let start : anchor T after ≡ c.terminal_chain_hash = ground (arith, last) in
      let through : sealed_through T after ≡ c.last_sequence_number = ground (arith, last) in
      record {
        linked =
            subst (λ a. IsLinked sha256 a (event_rows T after)) (sym start)
              (subst (λ rows. IsLinked sha256 c.terminal_chain_hash rows) (sym same)
                (subst (λ a. IsLinked sha256 a (head ∷ rest)) terminal linked));
        ascending =
            subst (λ n. IsAscending n (event_rows T after)) (sym through)
              (subst (λ rows. IsAscending c.last_sequence_number rows) (sym same) rising);
      }

  -- Sealing a segment that starts no later than the oldest row and ends after every sealed
  -- segment keeps the log intact.
  pub seal_and_drop-IsIntact :
      (segment_id sealed_at : ℕ) {db' : AuditDb T} {out : SealOutcome}
      → seal_and_drop T c segment_id sealed_at db ≡ ok (db', out)
      → ((row : AuditEvent)
          → head? (event_rows T db) ≡ some row
          → c.first_sequence_number ≤ row.sequence_number)
      → sealed_through T db < c.last_sequence_number
      → IsIntact T sha256 db
      → IsIntact T sha256 db'
  seal_and_drop-IsIntact segment_id sealed_at h starts above before =
      let (covered, same, survived, counted) = seal_cases segment_id sealed_at h in
      let suffix =
        kept_suffix sha256 c (anchor T db) (c.first_sequence_number - 1) (event_rows T db)
          (omega arith) before.linked
          (relow (sealed_through T db) c.first_sequence_number (event_rows T db) starts
            before.ascending) in
      subst (IsIntact T sha256) (sym same) (
        drop_range-IsIntact covered segment_id sealed_at
          (subst (Suffix sha256 c) (sym (rows_drop covered segment_id sealed_at)) suffix) survived
          above)
