-- ===== src/Api/Base64.antt =====
-- The URL-safe Base64 of Python's `base64`, with `rstrip("=")` and the padding back, as
-- services/api/app/usecases/alert_usecase.py uses them for cursors.
use theft_detection_platform.Prelude.{
  ℕ, suc, ◌+◌, ◌-◌, ◌*◌, ◌/◌, ◌%◌, ◌<◌, ◌≡◌, refl, ap, ap₂, ◌∙◌, true, false, ◌&&◌, ◌||◌, Option,
  none, some, [], ◌∷◌, ◌++◌, arith, ltb, leb, ◌==◌, length, replicate, all, if◌then◌else◌, All,
  Bytes,
}

abbrev pub pad : ℕ
pad = 61

-- The letter of a number below 64.
unfoldable pub letter : ℕ → ℕ
letter v =
    if ltb v 26
    then v + 65
    else if ltb v 52
    then v + 71
    else if ltb v 62
    then v - 52 + 48
    else if v == 62
    then 45
    else 95

unfoldable pub number : ℕ → Option ℕ
number c =
    if leb 65 c && ltb c 91
    then some (c - 65)
    else if leb 97 c && ltb c 123
    then some (c - 71)
    else if leb 48 c && ltb c 58
    then some (c - 48 + 52)
    else if c == 45 || c == 43
    then some 62
    else if c == 95 || c == 47
    then some 63
    else none

number-letter : (v : ℕ) → v < 64 → number (letter v) ≡ some v
unfolding letter number
number-letter v h = ground arith

letter-ne-pad : (v : ℕ) → v < 64 → (letter v == pad) ≡ false
unfolding letter
letter-ne-pad v h = ground arith

letter-ascii : (v : ℕ) → v < 64 → ltb (letter v) 128 ≡ true
unfolding letter
letter-ascii v h = ground arith

-- `urlsafe_b64encode` with the padding stripped.
unfoldable pub encode : Bytes → Bytes
encode [] = []
encode (a ∷ []) = letter (a / 4) ∷ letter (a % 4 * 16) ∷ []
encode (a ∷ b ∷ []) = letter (a / 4) ∷ letter (a % 4 * 16 + b / 16) ∷ letter (b % 16 * 4) ∷ []
encode (a ∷ b ∷ c ∷ rest) =
    letter (a / 4)
    ∷ letter (a % 4 * 16 + b / 16)
    ∷ letter (b % 16 * 4 + c / 64)
    ∷ letter (c % 64)
    ∷ encode rest

-- `cursor + "=" * (-len(cursor) % 4)`
unfoldable pub padded : Bytes → Bytes
padded cursor = cursor ++ replicate ((4 - length cursor % 4) % 4) pad

-- How many letters of a group of four are read, and the bits that are left over.
pub data Quad : Type 0 where
  q0 : Quad
  q1 q2 q3 : ℕ → Quad

-- What one character does: the decoding ends there, or goes on with the bytes that are complete.
pub data Step : Type 0 where
  stop : Step
  go : Quad → (pads : ℕ) → Bytes → Step

abbrev pub take_in : Quad → ℕ → Step
take_in q0 v = go (q1 v) 0 []
take_in (q1 left) v = go (q2 (v % 16)) 0 ((left * 4 + v / 16) ∷ [])
take_in (q2 left) v = go (q3 (v % 4)) 0 ((left * 16 + v / 4) ∷ [])
take_in (q3 left) v = go q0 0 ((left * 64 + v) ∷ [])

abbrev pub take_pad : Quad → (pads : ℕ) → Step
take_pad q0 pads = go q0 pads []
take_pad (q1 left) pads = go (q1 left) pads []
take_pad (q2 left) pads = if leb 1 pads then stop else go (q2 left) (pads + 1) []
take_pad (q3 left) pads = stop

-- A character that is no letter is passed over.
unfoldable pub step : Quad → (pads : ℕ) → (c : ℕ) → Step
step q pads c =
    if c == pad
    then take_pad q pads
    else elim (number c) [ none ↦ go q pads [] | some v ↦ take_in q v ]

-- A group that is not complete is an error.
abbrev pub finish : Quad → Option Bytes
finish q0 = some []
finish _ = none

-- `urlsafe_b64decode`; none for `binascii.Error`.
unfoldable pub read : Quad → (pads : ℕ) → Bytes → Option Bytes
read q pads [] = finish q
read q pads (c ∷ cs) = elim (step q pads c) [
  | stop ↦ some []
  | go q' pads' out ↦ elim (read q' pads' cs) [ none ↦ none | some rest ↦ some (out ++ rest) ]
]

unfoldable pub decode : Bytes → Option Bytes
decode cs = read q0 0 cs

step-letter : (q : Quad) (pads v : ℕ) → v < 64 → step q pads (letter v) ≡ take_in q v
unfolding step
step-letter q pads v h = ground (arith, number-letter v h, letter-ne-pad v h)

read-letter :
    (q next : Quad) (pads v : ℕ) (out cs : Bytes) {rest : Bytes}
    → v < 64
    → take_in q v ≡ go next 0 out
    → read next 0 cs ≡ some rest
    → read q pads (letter v ∷ cs) ≡ some (out ++ rest)
unfolding read
read-letter q next pads v out cs {rest} h into behind_it = ground (arith, step-letter q pads v h)

padded-four : (a b c d : ℕ) (cs : Bytes) → padded (a ∷ b ∷ c ∷ d ∷ cs) ≡ a ∷ b ∷ c ∷ d ∷ padded cs
unfolding padded
padded-four a b c d cs =
    let same : (4 - suc (suc (suc (suc (length cs)))) % 4) % 4 ≡ (4 - length cs % 4) % 4 =
      omega arith in
    ap (λ k. a ∷ b ∷ c ∷ d ∷ (cs ++ replicate k pad)) same

read-pads : (left : ℕ) → read (q2 left) 0 (pad ∷ pad ∷ []) ≡ some []
unfolding read step
read-pads left = refl

read-pad : (left : ℕ) → read (q3 left) 0 (pad ∷ []) ≡ some []
unfolding read step
read-pad left = refl

padded-one : (a b : ℕ) → padded (a ∷ b ∷ []) ≡ a ∷ b ∷ pad ∷ pad ∷ []
unfolding padded
padded-one a b = refl

padded-two : (a b c : ℕ) → padded (a ∷ b ∷ c ∷ []) ≡ a ∷ b ∷ c ∷ pad ∷ []
unfolding padded
padded-two a b c = refl

read-nothing : read q0 0 (padded []) ≡ some []
unfolding read padded
read-nothing = refl

read-one :
    (a : ℕ)
    → a < 256
    → read q0 0 (letter (a / 4) ∷ letter (a % 4 * 16) ∷ pad ∷ pad ∷ []) ≡ some (a ∷ [])
read-one a h =
    let whole : a / 4 * 4 + a % 4 * 16 / 16 ≡ a = omega arith in
    read-letter q0 (q1 (a / 4)) 0 (a / 4) [] _ (omega arith) refl (
      read-letter (q1 (a / 4)) (q2 (a % 4 * 16 % 16)) 0 (a % 4 * 16) _ _ (omega arith) refl
        (read-pads (a % 4 * 16 % 16)))
    ∙ ap (λ x. some (x ∷ [])) whole

read-two :
    (a b : ℕ)
    → a < 256
    → b < 256
    → read q0 0 (letter (a / 4) ∷ letter (a % 4 * 16 + b / 16) ∷ letter (b % 16 * 4) ∷ pad ∷ [])
      ≡ some (a ∷ b ∷ [])
read-two a b h h' =
    let first : a / 4 * 4 + (a % 4 * 16 + b / 16) / 16 ≡ a = omega arith in
    let second : (a % 4 * 16 + b / 16) % 16 * 16 + b % 16 * 4 / 4 ≡ b = omega arith in
    read-letter q0 (q1 (a / 4)) 0 (a / 4) [] _ (omega arith) refl (
      read-letter (q1 (a / 4)) (q2 ((a % 4 * 16 + b / 16) % 16)) 0 (a % 4 * 16 + b / 16) _ _
        (omega arith) refl
        (read-letter (q2 ((a % 4 * 16 + b / 16) % 16)) (q3 (b % 16 * 4 % 4)) 0 (b % 16 * 4) _ _
          (omega arith) refl (read-pad (b % 16 * 4 % 4))))
    ∙ ap₂ (λ x y. some (x ∷ y ∷ [])) first second

read-three :
    (a b c : ℕ) (cs : Bytes) {rest : Bytes}
    → a < 256
    → b < 256
    → c < 256
    → read q0 0 cs ≡ some rest
    → read q0 0 (
        letter (a / 4)
        ∷ letter (a % 4 * 16 + b / 16)
        ∷ letter (b % 16 * 4 + c / 64)
        ∷ letter (c % 64)
        ∷ cs)
      ≡ some (a ∷ b ∷ c ∷ rest)
read-three a b c cs {rest} ha hb hc behind_it =
    let first : a / 4 * 4 + (a % 4 * 16 + b / 16) / 16 ≡ a = omega arith in
    let second : (a % 4 * 16 + b / 16) % 16 * 16 + (b % 16 * 4 + c / 64) / 4 ≡ b = omega arith in
    let third : (b % 16 * 4 + c / 64) % 4 * 64 + c % 64 ≡ c = omega arith in
    read-letter q0 (q1 (a / 4)) 0 (a / 4) [] _ (omega arith) refl (
      read-letter (q1 (a / 4)) (q2 ((a % 4 * 16 + b / 16) % 16)) 0 (a % 4 * 16 + b / 16) _ _
        (omega arith) refl
        (read-letter (q2 ((a % 4 * 16 + b / 16) % 16)) (q3 ((b % 16 * 4 + c / 64) % 4)) 0
          (b % 16 * 4 + c / 64) _ _ (omega arith) refl
          (read-letter (q3 ((b % 16 * 4 + c / 64) % 4)) q0 0 (c % 64) _ _ (omega arith) refl
            behind_it)))
    ∙ ap₂ (λ x ys. some (x ∷ ys)) first (ap₂ (λ y z. y ∷ z ∷ rest) second third)

-- The alphabet is ASCII.
pub all-encode :
    (bytes : Bytes) → All (λ b. b < 256) bytes → all (λ c. ltb c 128) (encode bytes) ≡ true
unfolding encode
all-encode [] h = refl
all-encode (a ∷ []) h =
    rw (letter-ascii (a / 4) (omega arith), letter-ascii (a % 4 * 16) (omega arith)) refl
all-encode (a ∷ b ∷ []) h =
    rw
      (
        letter-ascii (a / 4) (omega arith),
        letter-ascii (a % 4 * 16 + b / 16) (omega arith),
        letter-ascii (b % 16 * 4) (omega arith),
      )
      refl
all-encode (a ∷ b ∷ c ∷ rest) h =
    rw
      (
        letter-ascii (a / 4) (omega arith),
        letter-ascii (a % 4 * 16 + b / 16) (omega arith),
        letter-ascii (b % 16 * 4 + c / 64) (omega arith),
        letter-ascii (c % 64) (omega arith),
      )
      (all-encode rest h.1.1.1)

pub encode-eq-nil : (bytes : Bytes) → encode bytes ≡ [] → bytes ≡ []
unfolding encode
encode-eq-nil [] h = refl
encode-eq-nil (a ∷ []) h = absurd (ground arith)
encode-eq-nil (a ∷ b ∷ []) h = absurd (ground arith)
encode-eq-nil (a ∷ b ∷ c ∷ rest) h = absurd (ground arith)

-- The bytes that were encoded come back, through the padding that was stripped.
pub decode-encode :
    (bytes : Bytes) → All (λ b. b < 256) bytes → decode (padded (encode bytes)) ≡ some bytes
unfolding encode decode
decode-encode [] h = read-nothing
decode-encode (a ∷ []) h = rw (padded-one (letter (a / 4)) (letter (a % 4 * 16))) (read-one a h.0)
decode-encode (a ∷ b ∷ []) h =
    rw (padded-two (letter (a / 4)) (letter (a % 4 * 16 + b / 16)) (letter (b % 16 * 4)))
      (read-two a b h.0 h.1.0)
decode-encode (a ∷ b ∷ c ∷ rest) h =
    rw
      (padded-four (letter (a / 4)) (letter (a % 4 * 16 + b / 16)) (letter (b % 16 * 4 + c / 64))
        (letter (c % 64)) (encode rest))
      (read-three a b c (padded (encode rest)) h.0 h.1.0 h.1.1.0 (decode-encode rest h.1.1.1))
