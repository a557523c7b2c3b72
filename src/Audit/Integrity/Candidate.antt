-- ===== src/Audit/Integrity/Candidate.antt =====
-- `next_segment` of services/audit/app/services/retention.py, and the sealing of its candidate.
use theft_detection_platform.Prelude.{
  ℕ, suc, zero, ◌+◌, ◌-◌, ◌<◌, ◌≡◌, refl, Bool, ◌&&◌, some, List, [], ◌∷◌, Bytes, ok, arith, inl,
  inr, All, head?, filter, ltb, Option-cases, Bool-cases, get_last?, take, subst,
}
use theft_detection_platform.Audit.Records.{AuditEvent, Tables, AuditDb}
use theft_detection_platform.Audit.Repository.{event_rows}
use theft_detection_platform.Audit.Retention.{
  SegmentCandidate, SealOutcome, RetentionSettings, sealed_through, oldest_live, due_rows,
  from_rows, next_segment, seal_and_drop, candidate, days,
}
use theft_detection_platform.Audit.Integrity.{IsAscending, IsIntact}
use theft_detection_platform.Audit.Integrity.Seal.{seal_and_drop-IsIntact}

All-take {ℓ} : {A : Type ℓ} (P : A → Type 0) (n : ℕ) (xs : List A) → All P xs → All P (take n xs)
All-take P zero xs h = tt
All-take P (suc n) [] h = tt
All-take P (suc n) (x ∷ xs) h = (h.0, All-take P n xs h.1)

All-get_last? {ℓ} :
    {A : Type ℓ} (P : A → Type 0) (xs : List A) {x : A} → All P xs → get_last? xs ≡ some x → P x
All-get_last? P [] h e = absurd (ground arith)
All-get_last? P (y ∷ []) h e = subst P (ground arith) h.0
All-get_last? P (y ∷ z ∷ xs) h e = All-get_last? P (z ∷ xs) h.1 e

abbrev due : ℕ → ℕ → AuditEvent → Bool
due sealed window_end e = ltb sealed e.sequence_number && ltb e.persisted_at window_end

due_above :
    (sealed window_end : ℕ) (rows : List AuditEvent)
    → All (λ e. sealed < e.sequence_number) (filter (due sealed window_end) rows)
due_above sealed window_end [] = tt
due_above sealed window_end (row ∷ rest) = elim (Bool-cases (due sealed window_end row)) [
  | inl keep ↦ rw keep (ground arith, due_above sealed window_end rest)
  | inr drop ↦ rw drop (due_above sealed window_end rest)
]

module _ (T : Tables) (settings : RetentionSettings) (now : ℕ) (db : AuditDb T) where
  from_rows_cases :
      (rows : List AuditEvent) {c : SegmentCandidate}
      → from_rows T db rows ≡ ok (some c)
      → (first : AuditEvent) × (last : AuditEvent) × (head? rows ≡ some first)
        × (get_last? rows ≡ some last)
        × (c ≡ candidate first last rows)
  unfolding from_rows
  from_rows_cases rows h = elim (Option-cases (head? rows)) [
    | inl empty ↦ absurd (ground arith)
    | inr (first, at_head) ↦ elim (Option-cases (get_last? rows)) [
      | inl empty ↦ absurd (ground arith)
      | inr (last, at_end) ↦ (first, last, at_head, at_end, ground arith)
    ]
  ]

  -- The rows that the candidate is made of: the oldest row decides the window.
  chosen : AuditEvent → List AuditEvent
  chosen oldest =
      due_rows T settings db (sealed_through T db)
        (oldest.persisted_at + days settings.segment_interval_days)

  next_segment_rows :
      (row : AuditEvent) (rest : List AuditEvent) {c : SegmentCandidate}
      → event_rows T db ≡ row ∷ rest
      → sealed_through T db < row.sequence_number
      → next_segment T settings now db ≡ ok (some c)
      → from_rows T db (chosen row) ≡ ok (some c)
  unfolding next_segment oldest_live chosen
  next_segment_rows row rest same above h = ground arith

  head-chosen :
      (row : AuditEvent) (rest : List AuditEvent)
      → event_rows T db ≡ row ∷ rest
      → sealed_through T db < row.sequence_number
      → 0 < settings.segment_interval_days
      → 0 < settings.retention_max_rows_per_run
      → head? (chosen row) ≡ some row
  unfolding chosen due_rows
  head-chosen row rest same above interval many =
      let e : settings.retention_max_rows_per_run ≡ suc (settings.retention_max_rows_per_run - 1) =
        omega arith in
      rw (same, e) (ground arith)

  last-chosen :
      (row last : AuditEvent)
      → get_last? (chosen row) ≡ some last
      → sealed_through T db < last.sequence_number
  unfolding chosen due_rows
  last-chosen row last at_end =
      let sealed = sealed_through T db in
      All-get_last? (λ e. sealed < e.sequence_number) (chosen row)
        (All-take (λ e. sealed < e.sequence_number) settings.retention_max_rows_per_run _
          (due_above sealed (row.persisted_at + days settings.segment_interval_days)
            (event_rows T db)))
        at_end

  -- The candidate starts at the oldest row, and ends after every sealed segment.
  bounds-candidate :
      (row : AuditEvent) {c : SegmentCandidate}
      → from_rows T db (chosen row) ≡ ok (some c)
      → head? (chosen row) ≡ some row
      → (c.first_sequence_number ≡ row.sequence_number)
        × (sealed_through T db < c.last_sequence_number)
  unfolding candidate
  bounds-candidate row made at_row =
      let (first, last, at_head, at_end, built) = from_rows_cases (chosen row) made in
      ground (arith, last-chosen row last at_end)

  seal_next :
      (sha256 : Bytes → Bytes) (rows : List AuditEvent) (segment_id sealed_at : ℕ)
      {c : SegmentCandidate} {db' : AuditDb T} {out : SealOutcome}
      → event_rows T db ≡ rows
      → IsIntact T sha256 db
      → IsAscending (sealed_through T db) rows
      → 0 < settings.segment_interval_days
      → 0 < settings.retention_max_rows_per_run
      → next_segment T settings now db ≡ ok (some c)
      → seal_and_drop T c segment_id sealed_at db ≡ ok (db', out)
      → IsIntact T sha256 db'
  unfolding next_segment oldest_live
  seal_next sha256 [] segment_id sealed_at same before rising interval many next done =
      absurd (ground arith)
  seal_next sha256 (row ∷ rest) segment_id sealed_at {c} same before rising interval many next
        done =
      let (first, above) =
        bounds-candidate row (next_segment_rows row rest same rising.0 next)
          (head-chosen row rest same rising.0 interval many) in
      seal_and_drop-IsIntact T sha256 c db segment_id sealed_at done (λ r e. ground arith) above
        before

-- A run of the retention, `next_segment` and then `seal_and_drop` of its candidate, keeps the log
-- intact, if the segments span at least a day and a run may drop at least one row.
pub retention_run-IsIntact :
    (T : Tables) (sha256 : Bytes → Bytes) (settings : RetentionSettings) (now : ℕ) (db : AuditDb T)
    (segment_id sealed_at : ℕ) {c : SegmentCandidate} {db' : AuditDb T} {out : SealOutcome}
    → next_segment T settings now db ≡ ok (some c)
    → seal_and_drop T c segment_id sealed_at db ≡ ok (db', out)
    → 0 < settings.segment_interval_days
    → 0 < settings.retention_max_rows_per_run
    → IsIntact T sha256 db
    → IsIntact T sha256 db'
retention_run-IsIntact T sha256 settings now db segment_id sealed_at next done interval many
      before =
    seal_next T settings now db sha256 (event_rows T db) segment_id sealed_at refl before
      before.ascending interval many next done
