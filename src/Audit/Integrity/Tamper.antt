-- ===== src/Audit/Integrity/Tamper.antt =====
-- Two logs with one final hash, by the hashes of services/audit/app/core/chain.py.
use mathlib.Core.List.{append-nil}
use theft_detection_platform.Prelude.{
  ℕ, ◌≤◌, ◌≡◌, ◌≢◌, sym, ap, ◌⊎◌, inl, inr, some, List, [], ◌∷◌, ◌++◌, Bytes, ok, arith, length,
  bytes_eq, bytes_eq_iff, Bool-cases, Option-cases, ◌∙◌,
}
use theft_detection_platform.Audit.Chain.{
  compute_leaf_hash, compute_chain_hash, length_prefixed, u64, digest, uint64_max,
}
use theft_detection_platform.Audit.Chain.Encoding.{append-cancel, prefixed, prefixed-append}
use theft_detection_platform.Audit.Records.{AuditEvent}
use theft_detection_platform.Audit.Verify.Linked.{IsSound, IsLinked, tail_hash}

module _ (sha256 : Bytes → Bytes) where
  -- Two byte strings that differ and have the same hash.
  abbrev pub Collision : Type 0
  Collision = (x : Bytes) × (y : Bytes) × (x ≢ y) × (sha256 x ≡ sha256 y)

  same_or_collision : (x y : Bytes) → sha256 x ≡ sha256 y → (x ≡ y) ⊎ Collision
  same_or_collision x y h = elim (Bool-cases (bytes_eq x y)) [
    | inl e ↦ inl ((bytes_eq_iff x y).0 e)
    | inr e ↦ inr (x, y, (λ p. ground (arith, bytes_eq_iff x y)), h)
  ]

  chain_parts :
      (prev leaf chain : Bytes) (algorithm : ℕ)
      → compute_chain_hash sha256 prev leaf algorithm ≡ ok chain
      → (length prev ≡ 32) × (chain ≡ sha256 (1 ∷ (prev ++ leaf)))
  unfolding compute_chain_hash
  chain_parts prev leaf chain algorithm h = ground arith

  -- A chain hash binds the previous hash and the leaf hash.
  chain_binds :
      (prev leaf prev' leaf' chain : Bytes) (a a' : ℕ)
      → compute_chain_hash sha256 prev leaf a ≡ ok chain
      → compute_chain_hash sha256 prev' leaf' a' ≡ ok chain
      → ((prev ≡ prev') × (leaf ≡ leaf')) ⊎ Collision
  chain_binds prev leaf prev' leaf' chain a a' h h' =
      let (width, made) = chain_parts prev leaf chain a h in
      let (width', made') = chain_parts prev' leaf' chain a' h' in
      elim (same_or_collision (1 ∷ (prev ++ leaf)) (1 ∷ (prev' ++ leaf')) (sym made ∙ made')) [
        | inl same ↦ inl (append-cancel prev prev' leaf leaf' (omega arith) (ground arith))
        | inr found ↦ inr found
      ]

  leaf_parts :
      (b leaf : Bytes) (algorithm : ℕ)
      → compute_leaf_hash sha256 b algorithm ≡ ok leaf
      → (length b ≤ uint64_max) × (leaf ≡ sha256 (0 ∷ prefixed b))
  unfolding compute_leaf_hash length_prefixed u64 digest
  leaf_parts b leaf algorithm h = ground arith

  -- A leaf hash binds the payload.
  leaf_binds :
      (b b' leaf : Bytes) (a a' : ℕ)
      → compute_leaf_hash sha256 b a ≡ ok leaf
      → compute_leaf_hash sha256 b' a' ≡ ok leaf
      → (b ≡ b') ⊎ Collision
  leaf_binds b b' leaf a a' h h' =
      let (fits, made) = leaf_parts b leaf a h in
      let (fits', made') = leaf_parts b' leaf a' h' in
      elim (same_or_collision (0 ∷ prefixed b) (0 ∷ prefixed b') (sym made ∙ made')) [
        | inl same ↦
            inl
              (prefixed-append b b' [] [] fits fits' (rw (append-nil, append-nil) (ground arith))).0
        | inr found ↦ inr found
      ]

  -- Two rows carry the same leaf, and the same payload where neither is erased.
  pub record IsSameEvent (row row' : AuditEvent) : Type 0 where
    pub leaf : row.leaf_hash ≡ row'.leaf_hash
    pub payload : (b b' : Bytes) → row.event_bytes ≡ some b → row'.event_bytes ≡ some b' → b ≡ b'

  abbrev pub IsSameLog : List AuditEvent → List AuditEvent → Type 0
  IsSameLog [] [] = Unit
  IsSameLog (row ∷ rest) (row' ∷ rest') = IsSameEvent row row' × IsSameLog rest rest'
  IsSameLog _ _ = ⊥

  payloads_agree :
      (row row' : AuditEvent) (expected expected' : Bytes)
      → IsSound sha256 expected row
      → IsSound sha256 expected' row'
      → row.leaf_hash ≡ row'.leaf_hash
      → IsSameEvent row row' ⊎ Collision
  payloads_agree row row' expected expected' s s' same = elim (Option-cases row.event_bytes) [
    | inl gone ↦ inl (record { leaf = same; payload = λ b b' e e'. absurd (ground arith) })
    | inr (b, kept) ↦ elim (Option-cases row'.event_bytes) [
      | inl gone ↦ inl (record { leaf = same; payload = λ c c' e e'. absurd (ground arith) })
      | inr (b', kept') ↦
          elim (leaf_binds b b' row.leaf_hash row.hash_algorithm row'.hash_algorithm
            (s.payload b kept) (s'.payload b' kept' ∙ ap ok (sym same))) [
              | inl equal ↦ inl (record { leaf = same; payload = λ c c' e e'. ground arith })
              | inr found ↦ inr found
            ]
    ]
  ]

  -- Two chains of the same length that end in the same hash start from the same hash and carry,
  -- row by row, the same leaf hashes, and the same payloads where neither row is erased; or they
  -- show two different byte strings with one hash.
  pub tamper_evident :
      (expected expected' : Bytes) (rows rows' : List AuditEvent)
      → IsLinked sha256 expected rows
      → IsLinked sha256 expected' rows'
      → length rows ≡ length rows'
      → tail_hash expected rows ≡ tail_hash expected' rows'
      → ((expected ≡ expected') × IsSameLog rows rows') ⊎ Collision
  tamper_evident expected expected' [] [] h h' l e = inl (e, tt)
  tamper_evident expected expected' [] (row' ∷ rest') h h' l e = absurd (omega arith)
  tamper_evident expected expected' (row ∷ rest) [] h h' l e = absurd (omega arith)
  tamper_evident expected expected' (row ∷ rest) (row' ∷ rest') h h' l e =
      elim (tamper_evident row.chain_hash row'.chain_hash rest rest' h.1 h'.1 (omega arith) e) [
        | inr found ↦ inr found
        | inl (chains, logs) ↦
            elim (chain_binds row.prev_hash row.leaf_hash row'.prev_hash row'.leaf_hash
              row.chain_hash row.hash_algorithm row'.hash_algorithm h.0.chained
              (h'.0.chained ∙ ap ok (sym chains))) [
                | inr found ↦ inr found
                | inl (prevs, leaves) ↦
                    elim (payloads_agree row row' expected expected' h.0 h'.0 leaves) [
                      | inr found ↦ inr found
                      | inl event ↦ inl (sym h.0.linked ∙ prevs ∙ h'.0.linked, (event, logs))
                    ]
              ]
      ]
