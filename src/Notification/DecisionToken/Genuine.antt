-- ===== src/Notification/DecisionToken/Genuine.antt =====
-- Which tokens services/notification/app/shared/decision_token.py accepts.
use theft_detection_platform.Prelude.{
  Result, All, ℕ, ◌+◌, ◌^◌, ◌≤◌, ◌<◌, ◌≡◌, refl, ap, ◌∙◌, sym, subst, some, [], ◌∷◌, ◌++◌, Bytes,
  arith, bytes_eq_iff, bytes_eq_refl, length, length-append, take, ok, Option-cases, inl, inr,
}
use theft_detection_platform.Notification.DecisionToken.{
  TokenError, ButtonDecision, confirmed, dismissed, unsure, ButtonClaim, Codec, code_of,
  decision_of, token_version, layout_size, drop, pack, unpack, sign, verify_fields, verify_raw,
  verify,
}

abbrev pub AreBytes : Bytes → Type 0
AreBytes raw = All (λ b. b < 256) raw

-- What the libraries' documentation says of base64, of the tag and of ObjectId. The padding that
-- `verify` puts back is that of 34 bytes, 46 characters without it. `str` of an ObjectId is its
-- canonical text, which need not be the one that it was read from.
pub record IsCodec (codec : Codec) : Type 0 where
  pub decode_encode :
      (raw : Bytes) → length raw ≡ 34 → AreBytes raw → codec.decode (codec.encode raw) ≡ some raw
  pub length-encode :
      (raw : Bytes) → length raw ≡ 34 → AreBytes raw → length (codec.encode raw) ≡ 46
  pub length-tag : (body : Bytes) → length (codec.tag body) ≡ 16
  pub tag_bytes : (body : Bytes) → AreBytes (codec.tag body)
  pub length-object_id : (text oid : Bytes) → codec.object_id text ≡ some oid → length oid ≡ 12
  pub object_id_bytes : (text oid : Bytes) → codec.object_id text ≡ some oid → AreBytes oid
  pub object_id-object_text :
      (oid : Bytes)
      → length oid ≡ 12
      → AreBytes oid
      → codec.object_id (codec.object_text oid) ≡ some oid

take-append : (xs ys : Bytes) → take (length xs) (xs ++ ys) ≡ xs
take-append [] [] = refl
take-append [] (y ∷ ys) = refl
take-append (x ∷ xs) ys = ap (◌∷◌ x) (take-append xs ys)

drop-append : (xs ys : Bytes) → drop (length xs) (xs ++ ys) ≡ ys
drop-append [] ys = refl
drop-append (x ∷ xs) ys = drop-append xs ys

decision_of-code_of : (d : ButtonDecision) → decision_of (code_of d) ≡ some d
decision_of-code_of confirmed = refl
decision_of-code_of dismissed = refl
decision_of-code_of unsure = refl

unpack-pack :
    (version code expires_at : ℕ) (oid : Bytes)
    → expires_at < 2 ^ 32
    → unpack (pack version code expires_at oid) ≡ some (version, code, expires_at, oid)
unfolding unpack pack
unpack-pack version code expires_at oid fits = ground arith

-- An accepted token carries the tag of its own body, is not expired, and its body holds the claim.
pub record IsGenuine (codec : Codec) (token : Bytes) (now : ℕ) (claim : ButtonClaim) : Type 0 where
  pub raw : Bytes
  pub oid : Bytes
  pub decoded : codec.decode token ≡ some raw
  pub tagged : drop layout_size raw ≡ codec.tag (take layout_size raw)
  pub held :
      unpack (take layout_size raw)
      ≡ some (token_version, code_of claim.decision, claim.expires_at, oid)
  pub named : claim.intent_id ≡ codec.object_text oid
  pub fresh : now ≤ claim.expires_at

module _ (codec : Codec) where
  code_of-decision_of :
      (code : ℕ) {d : ButtonDecision} → decision_of code ≡ some d → code ≡ code_of d
  code_of-decision_of code h = ground arith

  verify_raw-IsGenuine :
      (token raw : Bytes) (now : ℕ) {claim : ButtonClaim}
      → codec.decode token ≡ some raw
      → verify_raw codec raw now ≡ ok claim
      → IsGenuine codec token now claim
  unfolding verify_raw verify_fields
  verify_raw-IsGenuine token raw now {claim} decoded h =
      elim (Option-cases (unpack (take layout_size raw))) [
        | inl short ↦ absurd (ground arith)
        | inr ((version, code, expires_at, oid), fields) ↦ record {
          raw = raw;
          oid = oid;
          decoded = decoded;
          tagged =
              ground
                (arith, bytes_eq_iff (drop layout_size raw) (codec.tag (take layout_size raw)));
          held = ground (arith, code_of-decision_of code {d = claim.decision});
          named = ground arith;
          fresh = ground arith;
        }
      ]

  -- Only genuine tokens are accepted.
  pub verify-IsGenuine :
      (token : Bytes) (now : ℕ) {claim : ButtonClaim}
      → verify codec token now ≡ ok claim
      → IsGenuine codec token now claim
  unfolding verify
  verify-IsGenuine token now {claim} h = elim (Option-cases (codec.decode token)) [
    | inl bad ↦ absurd (ground arith)
    | inr (raw, decoded) ↦ verify_raw-IsGenuine token raw now decoded (ground arith)
  ]

All-append : (P : ℕ → Type 0) (xs ys : Bytes) → All P xs → All P ys → All P (xs ++ ys)
All-append P [] ys h h' = h'
All-append P (x ∷ xs) ys h h' = (h.0, All-append P xs ys h.1 h')

pack_bytes :
    (d : ButtonDecision) (expires_at : ℕ) (oid : Bytes)
    → AreBytes oid
    → AreBytes (pack token_version (code_of d) expires_at oid)
unfolding pack
pack_bytes d expires_at oid h =
    let small : code_of d < 256 = ground arith in
    (omega arith, (small, (omega arith, (omega arith, (omega arith, (omega arith, h))))))

length-pack :
    (version code expires_at : ℕ) (oid : Bytes)
    → length oid ≡ 12
    → length (pack version code expires_at oid) ≡ layout_size
unfolding pack
length-pack version code expires_at oid h = omega (arith, h)

-- What verify answers to a token for this intent, decision and expiry: a claim that names the
-- intent's ObjectId by its canonical text.
pub record IsAccepted (codec : Codec) (intent_id : Bytes) (d : ButtonDecision) (expires_at : ℕ)
    (reply : Result TokenError ButtonClaim) : Type 0 where
  pub oid : Bytes
  pub signed_for : codec.object_id intent_id ≡ some oid
  pub same_id : codec.object_id (codec.object_text oid) ≡ some oid
  pub answer :
      reply
      ≡ ok (record { intent_id = codec.object_text oid; decision = d; expires_at = expires_at })

module _ (codec : Codec) (is_codec : IsCodec codec) where
  accepted : Bytes → ButtonDecision → ℕ → ButtonClaim
  accepted oid d expires_at = record {
    intent_id = codec.object_text oid;
    decision = d;
    expires_at = expires_at;
  }

  verify_fields-accepted :
      (body tag oid : Bytes) (d : ButtonDecision) (expires_at now : ℕ)
      → tag ≡ codec.tag body
      → now ≤ expires_at
      → verify_fields codec body tag token_version (code_of d) expires_at oid now
        ≡ ok (accepted oid d expires_at)
  unfolding verify_fields accepted
  verify_fields-accepted body tag oid d expires_at now same fresh =
      ground (arith, bytes_eq_iff tag (codec.tag body), decision_of-code_of d)

  verify_raw-fields :
      (raw oid : Bytes) (version code expires_at now : ℕ)
      → unpack (take layout_size raw) ≡ some (version, code, expires_at, oid)
      → verify_raw codec raw now
        ≡ verify_fields codec
            (take layout_size raw)
            (drop layout_size raw)
            version
            code
            expires_at
            oid
            now
  unfolding verify_raw
  verify_raw-fields raw oid version code expires_at now fields = rw (fields, verify_raw) refl

  verify_raw-body :
      (body oid : Bytes) (d : ButtonDecision) (expires_at now : ℕ)
      → length body ≡ layout_size
      → unpack body ≡ some (token_version, code_of d, expires_at, oid)
      → now ≤ expires_at
      → verify_raw codec (body ++ codec.tag body) now ≡ ok (accepted oid d expires_at)
  verify_raw-body body oid d expires_at now size fields fresh =
      let raw = body ++ codec.tag body in
      let front : take layout_size raw ≡ body =
        subst (λ n. take n raw ≡ body) size (take-append body (codec.tag body)) in
      let back : drop layout_size raw ≡ codec.tag body =
        subst (λ n. drop n raw ≡ codec.tag body) size (drop-append body (codec.tag body)) in
      verify_raw-fields raw oid token_version (code_of d) expires_at now (ap unpack front ∙ fields)
      ∙ verify_fields-accepted (take layout_size raw) (drop layout_size raw) oid d expires_at now
          (back ∙ ap codec.tag (sym front)) fresh

  verify_encoded :
      (raw : Bytes) (now : ℕ)
      → length raw ≡ 34
      → AreBytes raw
      → verify codec (codec.encode raw) now ≡ verify_raw codec raw now
  unfolding verify
  verify_encoded raw now size bytes = ground (
    arith,
    is_codec.length-encode raw size bytes,
    is_codec.decode_encode raw size bytes,
    bytes_eq_refl (codec.encode raw),
  )

  -- A token that is signed for an intent and a decision is accepted up to its expiry, with a claim
  -- for the decision and for the intent's ObjectId, in its canonical text.
  pub verify-sign :
      (ttl : ℕ) (intent_id : Bytes) (d : ButtonDecision) (issued now : ℕ) {token : Bytes}
      → sign codec ttl intent_id d issued ≡ ok token
      → now ≤ issued + ttl
      → IsAccepted codec intent_id d (issued + ttl) (verify codec token now)
  unfolding sign accepted
  verify-sign ttl intent_id d issued now {token} h fresh =
      elim (Option-cases (codec.object_id intent_id)) [
        | inl bad ↦ absurd (ground arith)
        | inr (oid, parsed) ↦
            let body = pack token_version (code_of d) (issued + ttl) oid in
            let width = is_codec.length-object_id intent_id oid parsed in
            let bytes = is_codec.object_id_bytes intent_id oid parsed in
            let size = length-pack token_version (code_of d) (issued + ttl) oid width in
            let fits : issued + ttl < 2 ^ 32 = ground arith in
            let same : codec.encode (body ++ codec.tag body) ≡ token = ground arith in
            let fields = unpack-pack token_version (code_of d) (issued + ttl) oid fits in
            let total : length (body ++ codec.tag body) ≡ 34 =
              omega (arith, length-append body (codec.tag body), size, is_codec.length-tag body) in
            record {
              oid = oid;
              signed_for = parsed;
              same_id = is_codec.object_id-object_text oid width bytes;
              answer =
                  ap (λ t. verify codec t now) (sym same)
                  ∙ verify_encoded (body ++ codec.tag body) now total (
                      All-append _ body (codec.tag body) (pack_bytes d (issued + ttl) oid bytes)
                        (is_codec.tag_bytes body))
                  ∙ verify_raw-body body oid d (issued + ttl) now size fields fresh;
            }
      ]
