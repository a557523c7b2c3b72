-- ===== src/Api/Cursor/Tests.antt =====
-- Cursors in a format that needs no calendar: numbers in unary, and code points in unary as bytes.
use theft_detection_platform.Prelude.{
  ℕ, zero, suc, ◌+◌, ◌<◌, ◌≡◌, refl, true, false, Option, none, some, List, [], ◌∷◌, arith, ◌==◌,
  if◌then◌else◌, ok, err, All, Bytes,
}
use theft_detection_platform.Api.Alerts.{by_created_at, by_decided_at, malformed_cursor}
use theft_detection_platform.Api.Base64
use theft_detection_platform.Api.Cursor.{
  Formats, IsFaithful, has_no_bar, is_empty, split_bars, encode_cursor, decode_parts, decode_cursor,
  decode_cursor-encode,
}

-- Everything that a run calls.
program : Unit {0}
unfolding Base64.letter Base64.number Base64.encode Base64.padded Base64.step Base64.read
    Base64.decode split_bars encode_cursor decode_parts decode_cursor
program = tt

abbrev pub unary : ℕ → List ℕ
unary zero = 48 ∷ []
unary (suc n) = 49 ∷ unary n

abbrev pub parse_unary : List ℕ → Option ℕ
parse_unary [] = none
parse_unary (c ∷ cs) =
    let rest = parse_unary cs in
    if c == 48 then some 0 else elim rest [ none ↦ none | some n ↦ some (suc n) ]

abbrev pub unary_before : ℕ → Bytes → Bytes
unary_before zero rest = 0 ∷ rest
unary_before (suc n) rest = 1 ∷ unary_before n rest

abbrev pub to_bytes : List ℕ → Bytes
to_bytes [] = []
to_bytes (c ∷ cs) = unary_before c (to_bytes cs)

abbrev pub from_bytes : ℕ → Bytes → Option (List ℕ)
from_bytes n [] = if n == 0 then some [] else none
from_bytes n (b ∷ bs) =
    let here = from_bytes 0 bs in
    let on = from_bytes (suc n) bs in
    if b == 0 then (elim here [ none ↦ none | some cs ↦ some (n ∷ cs) ]) else on

parse_unary-unary : (n : ℕ) → parse_unary (unary n) ≡ some n
parse_unary-unary zero = refl
parse_unary-unary (suc n) = ground (arith, parse_unary-unary n)

unary-has_no_bar : (n : ℕ) → has_no_bar (unary n) ≡ true
unary-has_no_bar zero = refl
unary-has_no_bar (suc n) = unary-has_no_bar n

unary-some : (n : ℕ) → is_empty (unary n) ≡ false
unary-some zero = refl
unary-some (suc n) = refl

from_bytes-unary :
    (n c : ℕ) (rest : Bytes) (cs : List ℕ)
    → from_bytes 0 rest ≡ some cs
    → from_bytes n (unary_before c rest) ≡ some ((n + c) ∷ cs)
from_bytes-unary n zero rest cs h = ground arith
from_bytes-unary n (suc c) rest cs h = ground (arith, from_bytes-unary (suc n) c rest cs h)

from_bytes-to : (t : List ℕ) → from_bytes 0 (to_bytes t) ≡ some t
from_bytes-to [] = refl
from_bytes-to (c ∷ t) = ground (arith, from_bytes-unary 0 c (to_bytes t) t (from_bytes-to t))

unary_before-bytes :
    (c : ℕ) (rest : Bytes) → All (λ b. b < 256) rest → All (λ b. b < 256) (unary_before c rest)
unary_before-bytes zero rest h = (omega arith, h)
unary_before-bytes (suc c) rest h = (omega arith, unary_before-bytes c rest h)

to_bytes-bytes : (t : List ℕ) → All (λ b. b < 256) (to_bytes t)
to_bytes-bytes [] = tt
to_bytes-bytes (c ∷ t) = unary_before-bytes c (to_bytes t) (to_bytes-bytes t)

unary_before-some : (c : ℕ) (rest : Bytes) → is_empty (unary_before c rest) ≡ false
unary_before-some zero rest = refl
unary_before-some (suc c) rest = refl

to_bytes-some : (t : List ℕ) → is_empty t ≡ false → is_empty (to_bytes t) ≡ false
to_bytes-some [] h = absurd (ground arith)
to_bytes-some (c ∷ t) h = unary_before-some c (to_bytes t)

abbrev pub formats : Formats
formats = record {
  utf8 = to_bytes;
  from_utf8 = from_bytes 0;
  isoformat = unary;
  fromisoformat = parse_unary;
  show_oid = unary;
  parse_oid = parse_unary;
}

pub formats-IsFaithful : IsFaithful formats
formats-IsFaithful = record {
  utf8_bytes = to_bytes-bytes;
  utf8_some = to_bytes-some;
  utf8_back = from_bytes-to;
  iso_back = parse_unary-unary;
  iso_bar = unary-has_no_bar;
  iso_some = unary-some;
  oid_back = parse_unary-unary;
  oid_bar = unary-has_no_bar;
  oid_some = unary-some;
}

-- `base64.urlsafe_b64encode(b"AB")` is QUI=, and b"\xfb\xff" is -_8=.
letters : Base64.encode (65 ∷ 66 ∷ []) ≡ b'Q' ∷ b'U' ∷ b'I' ∷ []
unfolding program
letters = refl

url_safe : Base64.encode (251 ∷ 255 ∷ []) ≡ b'-' ∷ b'_' ∷ b'8' ∷ []
unfolding program
url_safe = refl

skips : Base64.decode (b'Q' ∷ b'!' ∷ b'Q' ∷ b'=' ∷ b'=' ∷ []) ≡ some (65 ∷ [])
unfolding program
skips = refl

not_enough : Base64.decode (b'Q' ∷ b'=' ∷ b'=' ∷ b'=' ∷ []) ≡ none
unfolding program
not_enough = refl

malformed : decode_cursor formats (b'Q' ∷ []) by_created_at ≡ err malformed_cursor
unfolding program
malformed = refl

decode_cursor-encode_example :
    decode_cursor formats (encode_cursor formats by_decided_at 3 2) by_decided_at
    ≡ ok (3, 49 ∷ 49 ∷ 48 ∷ [])
decode_cursor-encode_example = decode_cursor-encode formats formats-IsFaithful by_decided_at 3 2
