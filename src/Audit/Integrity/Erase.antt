-- ===== src/Audit/Integrity/Erase.antt =====
-- `erase_subject_payloads` of services/audit/app/repositories/audit_repository.py.
use theft_detection_platform.Prelude.{
  ℕ, ◌≡◌, refl, String, Bool, true, none, List, [], ◌∷◌, map, Bytes, arith, any, str_eq, is_some,
  Bool-cases, inl, inr, All,
}
use theft_detection_platform.Prelude.Table.{Table, touch}
use theft_detection_platform.Audit.Records.{AuditEvent, Tables, AuditDb}
use theft_detection_platform.Audit.Repository.{
  event_rows, last_segment, erase_subject_payloads, erasable, erase_row,
}
use theft_detection_platform.Audit.Retention.{sealed_through}
use theft_detection_platform.Audit.Integrity.{IsAscending, anchor, IsIntact}
use theft_detection_platform.Audit.Verify.Linked.{IsSound, IsLinked}

-- Erased rows have no payload.
abbrev pub IsErasedClean : AuditEvent → Type 0
IsErasedClean row = is_some row.erased_at ≡ true → row.event_bytes ≡ none

module _ (sha256 : Bytes → Bytes) (p : AuditEvent → Bool) (reason now : ℕ) where
  abbrev erased : AuditEvent → AuditEvent
  erased = touch p (erase_row now reason)

  erased_keeps :
      (row : AuditEvent)
      → ((erased row).chain_hash ≡ row.chain_hash)
        × ((erased row).sequence_number ≡ row.sequence_number)
  unfolding erase_row
  erased_keeps row = ground arith

  erased-IsSound :
      (expected : Bytes) (row : AuditEvent)
      → IsSound sha256 expected row
      → IsSound sha256 expected (erased row)
  unfolding erase_row
  erased-IsSound expected row s = elim (Bool-cases (p row)) [
    | inl yes_ ↦ rw yes_ (record {
      supported = s.supported;
      linked = s.linked;
      payload = λ b kept. absurd (ground arith);
      erased = λ gone. refl;
      chained = s.chained;
    })
    | inr no_ ↦ rw no_ s
  ]

  erased-IsLinked :
      (expected : Bytes) (rows : List AuditEvent)
      → IsLinked sha256 expected rows
      → IsLinked sha256 expected (map erased rows)
  erased-IsLinked expected [] h = tt
  erased-IsLinked expected (row ∷ rest) h = (
    erased-IsSound expected row h.0,
    rw ((erased_keeps row).0) (erased-IsLinked row.chain_hash rest h.1),
  )

  erased-IsAscending :
      (low : ℕ) (rows : List AuditEvent) → IsAscending low rows → IsAscending low (map erased rows)
  erased-IsAscending low [] h = tt
  erased-IsAscending low (row ∷ rest) h =
      rw ((erased_keeps row).1) (h.0, erased-IsAscending row.sequence_number rest h.1)

module _ (T : Tables) (sha256 : Bytes → Bytes) (subject_id : String) (reason now : ℕ) where
  -- Erasing a subject's payloads keeps the log intact.
  pub erase_subject_payloads-IsIntact :
      (db : AuditDb T)
      → IsIntact T sha256 db
      → IsIntact T sha256 (erase_subject_payloads T subject_id reason now db).0
  unfolding erase_subject_payloads last_segment sealed_through
  erase_subject_payloads-IsIntact db h = record {
    linked = rw (Table.rows-update T.events) (
        erased-IsLinked sha256 (erasable subject_id) reason now (anchor T db) (event_rows T db)
          h.linked);
    ascending = rw (Table.rows-update T.events) (
        erased-IsAscending sha256 (erasable subject_id) reason now (sealed_through T db)
          (event_rows T db) h.ascending);
  }

-- No payload of the subject is left.
abbrev pub IsForgotten : String → AuditEvent → Type 0
IsForgotten subject_id row = any (str_eq subject_id) row.subjects ≡ true → row.event_bytes ≡ none

module _ (T : Tables) (subject_id : String) (reason now : ℕ) where
  erased-IsForgotten :
      (rows : List AuditEvent)
      → All IsErasedClean rows
      → All (IsForgotten subject_id) (map (touch (erasable subject_id) (erase_row now reason)) rows)
  unfolding erasable erase_row
  erased-IsForgotten [] clean = tt
  erased-IsForgotten (row ∷ rest) clean = ((λ h. ground arith), erased-IsForgotten rest clean.1)

  -- Where every erased row is without payload, no row that names the subject has a payload
  -- afterwards.
  pub erase_subject_payloads-IsForgotten :
      (db : AuditDb T)
      → All IsErasedClean (event_rows T db)
      → All
          (IsForgotten subject_id)
          (event_rows T (erase_subject_payloads T subject_id reason now db).0)
  unfolding erase_subject_payloads
  erase_subject_payloads-IsForgotten db clean =
      rw (Table.rows-update T.events) (erased-IsForgotten (event_rows T db) clean)
