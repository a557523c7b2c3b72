-- ===== src/Audit/Integrity.antt =====
-- The invariant of the tables of services/audit, and `verify` on them. The children are about the
-- writers of the log.
pub mod Append
pub mod Erase
pub mod Seal
pub mod Tamper
pub mod Candidate
use theft_detection_platform.Prelude.{
  ℕ, zero, suc, ◌+◌, ◌<◌, ◌≤◌, ◌≡◌, refl, ap, subst, sym, ◌∙◌, Bool, true, false, not, Option, none,
  some, List, [], ◌∷◌, ◌++◌, map, Bytes, Result, ok, ◌>>=◌, arith, length, get_last?, filter,
  is_some, if◌then◌else◌, bytes_eq_iff, Result-cases, Option-cases, inl, inr, get_last?-append_one,
  get_last?-eq-none, String, ◌⊎◌, length-append, replicate, head?,
}
use theft_detection_platform.Prelude.Table.{Table, touch}
use theft_detection_platform.Audit.Chain.{
  digest_size, is_supported, genesis_prev_hash, compute_leaf_hash, compute_chain_hash, digest,
  default_hash_algorithm, hash_size,
}
use theft_detection_platform.Audit.Records.{
  AuditEvent, AuditChainSegment, Tables, AuditDb, NewEvent, AppendResult, TailState,
}
use theft_detection_platform.Audit.Repository.{
  event_rows, last_event, last_segment, tail_state, count, append, append_locked, new_row,
  find_by_event_id, erase_subject_payloads, erasable, erase_row,
}
use theft_detection_platform.Audit.Retention.{sealed_through}
use theft_detection_platform.Audit.Verify.{verify, verify_rows, seed_expected_prev, in_range}
use theft_detection_platform.Audit.Verify.Linked.{
  IsSound, IsLinked, tail_hash, tail_hash_last, IsLinked-append_one, IsLinked-verify_rows, intact,
  payloads, erasures,
}

-- The sequence numbers rise, from above `low`.
abbrev pub IsAscending : ℕ → List AuditEvent → Type 0
IsAscending low [] = Unit
IsAscending low (row ∷ rest) = (low < row.sequence_number) × IsAscending row.sequence_number rest

module _ (T : Tables) where
  -- The hash that the oldest row links to: that of the last sealed segment, or the genesis hash.
  abbrev pub anchor : AuditDb T → Bytes
  anchor db = elim (last_segment T db) [
    | none ↦ replicate hash_size 0
    | some g ↦ g.terminal_chain_hash
  ]

  -- The live rows form a chain that starts where the sealed segments end.
  pub record IsIntact (sha256 : Bytes → Bytes) (db : AuditDb T) : Type 0 where
    pub linked : IsLinked sha256 (anchor db) (event_rows T db)
    pub ascending : IsAscending (sealed_through T db) (event_rows T db)

  module _ (sha256 : Bytes → Bytes) where
    seed_of_rows :
        (db : AuditDb T) (rows : List AuditEvent)
        → event_rows T db ≡ rows
        → IsLinked sha256 (anchor db) rows
        → (s : Bytes) × (seed_expected_prev sha256 T db none ≡ ok s) × IsLinked sha256 s rows
    unfolding seed_expected_prev genesis_prev_hash digest_size
    seed_of_rows db [] e h = (replicate hash_size 0, ground arith, tt)
    seed_of_rows db (row ∷ rest) e h = elim (Option-cases (last_segment T db)) [
      | inl never ↦ (replicate hash_size 0, ground arith, rw (never, anchor) at h)
      | inr (g, sealed) ↦ (
        g.terminal_chain_hash,
        ground (arith, h.0.linked, bytes_eq_iff g.terminal_chain_hash row.prev_hash),
        rw (sealed, anchor) at h,
      )
    ]

    verify_filter : (rows : List AuditEvent) → filter (in_range none none) rows ≡ rows
    verify_filter [] = refl
    verify_filter (row ∷ rest) = ap (◌∷◌ row) (verify_filter rest)

    -- On an intact log a full verification succeeds, and counts every live row once, as verified
    -- or as erased.
    pub IsIntact-verify :
        (db : AuditDb T)
        → IsIntact sha256 db
        → verify sha256 T db none none
          ≡ ok (intact (payloads (event_rows T db)) (erasures (event_rows T db)))
    unfolding verify
    IsIntact-verify db h =
        let (s, seeded, linked) = seed_of_rows db (event_rows T db) refl h.linked in
        rw (seeded, verify_filter)
          (IsLinked-verify_rows sha256 s (event_rows T db) 0 0 linked ∙ ground arith)
