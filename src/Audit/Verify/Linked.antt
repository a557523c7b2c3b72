-- ===== src/Audit/Verify/Linked.antt =====
-- Chains of rows, and the loop of `verify` of
-- services/audit/app/repositories/audit_repository.py.
use theft_detection_platform.Prelude.{
  ℕ, ◌+◌, ◌≡◌, ap, get_last?, refl, ◌∙◌, true, false, none, some, List, [], ◌∷◌, ◌++◌, Bytes, ok,
  arith, is_some, if◌then◌else◌, bytes_eq_iff, Result-cases, Option-cases, inl, inr,
}
use theft_detection_platform.Audit.Chain.{
  compute_leaf_hash, compute_chain_hash, is_supported, leaf_matches, chain_matches,
}
use theft_detection_platform.Audit.Records.{AuditEvent, VerifyResult, none_found}
use theft_detection_platform.Audit.Verify.{go, stop, check_row, verify_rows}

-- One row is sound behind `expected`: its algorithm is known, it links to its predecessor, its
-- payload has the leaf hash of the row or has been erased on record, and its chain hash is that of
-- its predecessor's and its leaf hash.
pub record IsSound (sha256 : Bytes → Bytes) (expected : Bytes) (row : AuditEvent) : Type 0 where
  pub supported : is_supported row.hash_algorithm ≡ true
  pub linked : row.prev_hash ≡ expected
  pub payload :
      (b : Bytes)
      → row.event_bytes ≡ some b
      → compute_leaf_hash sha256 b row.hash_algorithm ≡ ok row.leaf_hash
  pub erased : row.event_bytes ≡ none → is_some row.erased_at ≡ true
  pub chained :
      compute_chain_hash sha256 row.prev_hash row.leaf_hash row.hash_algorithm ≡ ok row.chain_hash

abbrev pub IsLinked : (Bytes → Bytes) → Bytes → List AuditEvent → Type 0
IsLinked sha256 expected [] = Unit
IsLinked sha256 expected (row ∷ rest) =
    IsSound sha256 expected row × IsLinked sha256 row.chain_hash rest

-- The hash that the row behind `rows` has to link to.
abbrev pub tail_hash : Bytes → List AuditEvent → Bytes
tail_hash expected [] = expected
tail_hash expected (row ∷ rest) = tail_hash row.chain_hash rest

-- How a row is counted.
abbrev pub as_payload : AuditEvent → ℕ
as_payload row = if is_some row.event_bytes then 1 else 0

abbrev pub as_erased : AuditEvent → ℕ
as_erased row = if is_some row.event_bytes then 0 else 1

abbrev pub intact : ℕ → ℕ → VerifyResult
intact v e = record {
  chain_intact = true;
  break_at_sequence_number = none;
  failure_kind = none_found;
  events_verified = v;
  erased_rows_verified = e;
  checkpoints_verified = 0;
}

abbrev pub payloads : List AuditEvent → ℕ
payloads [] = 0
payloads (row ∷ rest) = as_payload row + payloads rest

abbrev pub erasures : List AuditEvent → ℕ
erasures [] = 0
erasures (row ∷ rest) = as_erased row + erasures rest

module _ (sha256 : Bytes → Bytes) where
  IsSound-go :
      (expected : Bytes) (row : AuditEvent) (v e : ℕ)
      → IsSound sha256 expected row
      → check_row sha256 expected row v e ≡ ok (go (v + as_payload row) (e + as_erased row))
  unfolding check_row leaf_matches chain_matches
  IsSound-go expected row v e s = elim (Option-cases row.event_bytes) [
    | inl gone ↦ ground (
      arith,
      s.erased gone,
      bytes_eq_iff row.prev_hash expected,
      bytes_eq_iff row.chain_hash row.chain_hash,
    )
    | inr (b, kept) ↦ ground (
      arith,
      s.payload b kept,
      bytes_eq_iff row.prev_hash expected,
      bytes_eq_iff row.leaf_hash row.leaf_hash,
      bytes_eq_iff row.chain_hash row.chain_hash,
    )
  ]

  go-IsSound :
      (expected : Bytes) (row : AuditEvent) (v e v' e' : ℕ)
      → check_row sha256 expected row v e ≡ ok (go v' e')
      → IsSound sha256 expected row
  unfolding check_row leaf_matches chain_matches
  go-IsSound expected row v e v' e' h = record {
    supported = ground arith;
    linked = ground (arith, bytes_eq_iff row.prev_hash expected);
    payload = λ b kept. leaf_of_go b kept;
    erased = λ gone. ground arith;
    chained = chain_of_go;
  }
    where
      leaf_of_go :
          (b : Bytes)
          → row.event_bytes ≡ some b
          → compute_leaf_hash sha256 b row.hash_algorithm ≡ ok row.leaf_hash
      leaf_of_go b kept = elim (Result-cases (compute_leaf_hash sha256 b row.hash_algorithm)) [
        | inl (l, computed) ↦ ground (arith, bytes_eq_iff l row.leaf_hash)
        | inr (x, raised) ↦ ground arith
      ]

      chain_of_go :
          compute_chain_hash sha256 row.prev_hash row.leaf_hash row.hash_algorithm
          ≡ ok row.chain_hash
      chain_of_go =
          elim (Result-cases
            (compute_chain_hash sha256 row.prev_hash row.leaf_hash row.hash_algorithm)) [
              | inl (l, computed) ↦ ground (arith, bytes_eq_iff l row.chain_hash)
              | inr (x, raised) ↦ ground arith
            ]

  stop_broken :
      (expected : Bytes) (row : AuditEvent) (v e : ℕ) (r : VerifyResult)
      → check_row sha256 expected row v e ≡ ok (stop r)
      → (r.chain_intact ≡ false) × (r.break_at_sequence_number ≡ some row.sequence_number)
  unfolding check_row
  stop_broken expected row v e r h = ground arith

  -- The loop accepts every chain, whatever it has counted before, and counts its rows.
  pub IsLinked-verify_rows :
      (expected : Bytes) (rows : List AuditEvent) (v e : ℕ)
      → IsLinked sha256 expected rows
      → verify_rows sha256 expected rows v e ≡ ok (intact (v + payloads rows) (e + erasures rows))
  unfolding verify_rows
  IsLinked-verify_rows expected [] v e h = ground arith
  IsLinked-verify_rows expected (row ∷ rest) v e h = rw (IsSound-go expected row v e h.0) (
      IsLinked-verify_rows row.chain_hash rest (v + as_payload row) (e + as_erased row) h.1
      ∙ ground arith)

  -- The loop accepts nothing else.
  pub verify_rows-IsLinked :
      (expected : Bytes) (rows : List AuditEvent) (v e : ℕ) {r : VerifyResult}
      → verify_rows sha256 expected rows v e ≡ ok r
      → r.chain_intact ≡ true
      → IsLinked sha256 expected rows
  unfolding verify_rows
  verify_rows-IsLinked expected [] v e h good = tt
  verify_rows-IsLinked expected (row ∷ rest) v e h good =
      elim (Result-cases (check_row sha256 expected row v e)) [
        | inl (go v' e', passed) ↦ (
          go-IsSound expected row v e v' e' passed,
          verify_rows-IsLinked row.chain_hash rest v' e' (rw (passed) at h) good,
        )
        | inl (stop r', failed) ↦ absurd (ground (arith, stop_broken expected row v e r' failed))
        | inr (x, raised) ↦ absurd (ground arith)
      ]

  -- A result that is not intact names the first row that is not sound: the rows before it form a
  -- chain, and the row is not sound behind them.
  pub first_break :
      (expected : Bytes) (rows : List AuditEvent) (v e : ℕ) {r : VerifyResult}
      → verify_rows sha256 expected rows v e ≡ ok r
      → r.chain_intact ≡ false
      → (good : List AuditEvent) × (bad : AuditEvent) × (rest : List AuditEvent) × (rows
          ≡ good ++ bad ∷ rest)
        × IsLinked sha256 expected good
        × (r.break_at_sequence_number ≡ some bad.sequence_number)
        × (¬ IsSound sha256 (tail_hash expected good) bad)
  unfolding verify_rows
  first_break expected [] v e h bad = absurd (ground arith)
  first_break expected (row ∷ rest) v e h bad =
      elim (Result-cases (check_row sha256 expected row v e)) [
        | inl (go v' e', passed) ↦
            let (good, worst, more, split, linked, named, unsound) =
              first_break row.chain_hash rest v' e' (rw passed at h) bad in
            (
              row ∷ good,
              worst,
              more,
              ap (◌∷◌ row) split,
              (go-IsSound expected row v e v' e' passed, linked),
              named,
              unsound,
            )
        | inl (stop r', failed) ↦ (
          [],
          row,
          rest,
          refl,
          tt,
          ground (arith, stop_broken expected row v e r' failed),
          λ s. ground (arith, IsSound-go expected row v e s),
        )
        | inr (x, raised) ↦ absurd (ground arith)
      ]

pub tail_hash_last :
    (expected : Bytes) (rows : List AuditEvent) (row : AuditEvent)
    → get_last? rows ≡ some row
    → tail_hash expected rows ≡ row.chain_hash
tail_hash_last expected [] row h = ground arith
tail_hash_last expected (r ∷ []) row h = ground arith
tail_hash_last expected (r ∷ r' ∷ rest) row h = tail_hash_last r.chain_hash (r' ∷ rest) row h

-- A sound row at the end makes a longer chain.
pub IsLinked-append_one :
    {sha256 : Bytes → Bytes} (expected : Bytes) (rows : List AuditEvent) (row : AuditEvent)
    → IsLinked sha256 expected rows
    → IsSound sha256 (tail_hash expected rows) row
    → IsLinked sha256 expected (rows ++ row ∷ [])
IsLinked-append_one expected [] row h s = (s, tt)
IsLinked-append_one expected (r ∷ rest) row h s =
    (h.0, IsLinked-append_one r.chain_hash rest row h.1 s)
