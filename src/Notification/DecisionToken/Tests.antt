-- ===== src/Notification/DecisionToken/Tests.antt =====
-- A token under a codec that keeps what the real ones promise: the encoding puts twelve zeros
-- before the bytes, the tag is constant, and an ObjectId has several texts.
use theft_detection_platform.Prelude.{
  ◌≡◌, refl, subst, Bool, true, ◌&&◌, none, some, [], ◌∷◌, all, ltb, ◌++◌, Bytes, arith, bytes_eq,
  length, replicate, ◌==◌, if◌then◌else◌, ok, err,
}
use theft_detection_platform.Notification.DecisionToken.{
  unsure, expired, Codec, drop, pack, unpack, sign, verify_fields, verify_raw, verify,
}
use theft_detection_platform.Notification.DecisionToken.Genuine.{
  AreBytes, IsCodec, IsGenuine, IsAccepted, verify-IsGenuine, verify-sign,
}

-- Everything that a run calls.
program : Unit {0}
unfolding bytes_eq pack unpack sign verify_fields verify_raw verify
program = tt

-- A text is the number of a format and twelve bytes; the canonical one has the format 0.
abbrev are_bytes : Bytes → Bool
are_bytes raw = all (λ b. ltb b 256) raw

abbrev codec : Codec
codec = record {
  encode = λ raw. replicate 12 0 ++ raw;
  decode = λ token. some (drop 12 token);
  tag = λ _. replicate 16 7;
  object_id = λ text. if (length text == 13) && are_bytes text then some (drop 1 text) else none;
  object_text = λ oid. 0 ∷ oid;
}

are_bytes-AreBytes : (raw : Bytes) → are_bytes raw ≡ true → AreBytes raw
are_bytes-AreBytes [] h = tt
are_bytes-AreBytes (b ∷ raw) h = (ground arith, are_bytes-AreBytes raw (ground arith))

AreBytes-are_bytes : (raw : Bytes) → AreBytes raw → are_bytes raw ≡ true
AreBytes-are_bytes [] h = refl
AreBytes-are_bytes (b ∷ raw) h = ground (arith, h.0, AreBytes-are_bytes raw h.1)

drop_one_bytes : (text : Bytes) → AreBytes text → AreBytes (drop 1 text)
drop_one_bytes [] h = tt
drop_one_bytes (b ∷ text) h = h.1

drop_one_length : (text : Bytes) → length text ≡ 13 → length (drop 1 text) ≡ 12
drop_one_length [] h = absurd (omega (arith, h))
drop_one_length (b ∷ text) h = omega (arith, h)

codec-IsCodec : IsCodec codec
codec-IsCodec = record {
  decode_encode = λ raw size bytes. refl;
  length-encode = λ raw size bytes. omega (arith, size);
  length-tag = λ body. refl;
  tag_bytes = λ body. are_bytes-AreBytes (replicate 16 7) refl;
  length-object_id =
      λ text oid h. subst (λ x. length x ≡ 12) (ground arith) (drop_one_length text (ground arith));
  object_id_bytes = λ text oid h.
      subst AreBytes (ground arith) (drop_one_bytes text (are_bytes-AreBytes text (ground arith)));
  object_id-object_text = λ oid size bytes. ground (arith, size, AreBytes-are_bytes oid bytes);
}

abbrev oid : Bytes
oid = replicate 12 3

-- Not the canonical text.
abbrev intent_id : Bytes
intent_id = 9 ∷ oid

abbrev body : Bytes
body = 1 ∷ 3 ∷ 0 ∷ 0 ∷ 1 ∷ 44 ∷ oid

abbrev token : Bytes
token = replicate 12 0 ++ (body ++ replicate 16 7)

signed : sign codec 200 intent_id unsure 100 ≡ ok token
unfolding program
signed = refl

late : verify codec token 301 ≡ err expired
unfolding program
late = refl

verify-sign_example : IsAccepted codec intent_id unsure 300 (verify codec token 250)
verify-sign_example =
    verify-sign codec codec-IsCodec 200 intent_id unsure 100 250 {token = token} signed
      (omega arith)

read_back :
    verify codec token 250
    ≡ ok (record { intent_id = 0 ∷ oid; decision = unsure; expires_at = 300 })
unfolding program
read_back = refl

verify-IsGenuine_example :
    IsGenuine codec token 250 (record { intent_id = 0 ∷ oid; decision = unsure; expires_at = 300 })
verify-IsGenuine_example = verify-IsGenuine codec token 250 read_back
