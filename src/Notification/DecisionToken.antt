-- ===== src/Notification/DecisionToken.antt =====
-- services/notification/app/shared/decision_token.py. HMAC-SHA-256, base64 and ObjectId are the
-- parameter `Codec`; a token is the list of its characters' numbers, a moment a whole number of
-- seconds.
pub mod Genuine
mod Tests
use theft_detection_platform.Prelude.{
  ℕ, zero, suc, ◌+◌, ◌*◌, ◌/◌, ◌%◌, ◌^◌, ◌≡◌, Bool, true, false, not, ◌||◌, Option, none, some,
  List, [], ◌∷◌, ◌++◌, Bytes, bytes_eq, length, take, ltb, leb, ◌==◌, if◌then◌else◌, Result, ok,
  err, ◌>>=◌, ◌>>◌, raise_if,
}

pub data ButtonDecision : Type 0 where
  confirmed dismissed unsure : ButtonDecision

-- `DecisionTokenError`, by its reason.
pub data TokenError : Type 0 where
  malformed unknown_version bad_signature expired : TokenError

-- What `sign` raises: an identity that is no ObjectId, an expiry that does not fit.
pub data SignError : Type 0 where
  no_object_id no_fit : SignError

pub record ButtonClaim : Type 0 where
  pub intent_id : Bytes
  pub decision : ButtonDecision
  pub expires_at : ℕ

pub record Codec : Type 0 where
  -- `urlsafe_b64encode` without its padding, and `b64decode` of the text with `==` behind it
  pub encode : Bytes → Bytes
  pub decode : Bytes → Option Bytes
  -- the first 16 bytes of the HMAC
  pub tag : Bytes → Bytes
  -- `ObjectId(text).binary`, and `str(ObjectId(binary))`
  pub object_id : Bytes → Option Bytes
  pub object_text : Bytes → Bytes

abbrev pub code_of : ButtonDecision → ℕ
code_of confirmed = 1
code_of dismissed = 2
code_of unsure = 3

-- `ButtonDecision(code)`
abbrev pub decision_of : ℕ → Option ButtonDecision
decision_of code =
    if code == 1
    then some confirmed
    else if code == 2
    then some dismissed
    else if code == 3
    then some unsure
    else none

abbrev pub token_version : ℕ
token_version = 1

abbrev pub layout_size : ℕ
layout_size = 18

abbrev pub drop : ℕ → Bytes → Bytes
drop zero xs = xs
drop (suc n) [] = []
drop (suc n) (x ∷ xs) = drop n xs

-- `_LAYOUT.pack`, of a number that fits four bytes.
unfoldable pub pack : (version code expires_at : ℕ) → Bytes → Bytes
pack version code expires_at oid =
    version
    ∷ code
    ∷ (expires_at / 2 ^ 24 % 256)
    ∷ (expires_at / 2 ^ 16 % 256)
    ∷ (expires_at / 2 ^ 8 % 256)
    ∷ (expires_at % 256)
    ∷ oid

-- `_LAYOUT.unpack`
unfoldable pub unpack : Bytes → Option (ℕ × ℕ × ℕ × Bytes)
unpack (version ∷ code ∷ a ∷ b ∷ c ∷ d ∷ oid) =
    some (version, code, a * 2 ^ 24 + b * 2 ^ 16 + c * 2 ^ 8 + d, oid)
unpack _ = none

module _ (codec : Codec) where
  unfoldable pub sign : (ttl : ℕ) → Bytes → ButtonDecision → (now : ℕ) → Result SignError Bytes
  sign ttl intent_id decision now = elim (codec.object_id intent_id) [
    | none ↦ err no_object_id
    | some oid ↦
        if leb (2 ^ 32) (now + ttl)
        then err no_fit
        else let body = pack token_version (code_of decision) (now + ttl) oid in
          ok (codec.encode (body ++ codec.tag body))
  ]

  -- The tests on the fields of the body.
  unfoldable pub verify_fields :
      (body tag : Bytes) (version code expires_at : ℕ) (oid : Bytes) (now : ℕ)
      → Result TokenError ButtonClaim
  verify_fields body tag version code expires_at oid now =
      if not (version == token_version)
      then err unknown_version
      else if not (bytes_eq tag (codec.tag body))
      then err bad_signature
      else elim (decision_of code) [
        | none ↦ err malformed
        | some decision ↦
            if ltb expires_at now
            then err expired
            else ok (record {
              intent_id = codec.object_text oid;
              decision = decision;
              expires_at = expires_at;
            })
      ]

  unfoldable pub verify_raw : Bytes → (now : ℕ) → Result TokenError ButtonClaim
  verify_raw raw now = elim (unpack (take layout_size raw)) [
    | none ↦ err malformed
    | some (version, code, expires_at, oid) ↦
        verify_fields (take layout_size raw) (drop layout_size raw) version code expires_at oid now
  ]

  unfoldable pub verify : Bytes → (now : ℕ) → Result TokenError ButtonClaim
  verify token now = if not (length token == 46) then err malformed else elim (codec.decode token) [
    | none ↦ err malformed
    | some raw ↦
        if not (length raw == 34) || not (bytes_eq (codec.encode raw) token)
        then err malformed
        else verify_raw raw now
  ]
