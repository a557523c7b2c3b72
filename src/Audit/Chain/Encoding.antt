-- ===== src/Audit/Chain/Encoding.antt =====
-- The byte strings that services/audit/app/core/chain.py builds, read back field by field.
use mathlib.Core.List.{append_assoc, append-nil}
use theft_detection_platform.Prelude.{
  ℕ, ◌≤◌, ◌≡◌, refl, List, [], ◌∷◌, ◌++◌, arith, Bytes, length, ok,
}
use theft_detection_platform.Audit.Chain.{
  to_bytes8, u64, length_prefixed, check_width, digest_size, checkpoint_payload, uint64_max,
}

pub append-cancel {ℓ} :
    {A : Type ℓ} (xs ys us vs : List A)
    → length xs ≡ length ys
    → xs ++ us ≡ ys ++ vs
    → (xs ≡ ys) × (us ≡ vs)
append-cancel [] [] us vs l e = (refl, e)
append-cancel [] (y ∷ ys) us vs l e = absurd (omega arith)
append-cancel (x ∷ xs) [] us vs l e = absurd (omega arith)
append-cancel (x ∷ xs) (y ∷ ys) us vs l e = ground (arith, append-cancel xs ys us vs (omega arith))

to_bytes8_injective :
    (a b : ℕ) → a ≤ uint64_max → b ≤ uint64_max → to_bytes8 a ≡ to_bytes8 b → a ≡ b
unfolding to_bytes8
to_bytes8_injective a b ha hb e = ground arith

length-to_bytes8 : (a : ℕ) → length (to_bytes8 a) ≡ 8
unfolding to_bytes8
length-to_bytes8 a = refl

-- A number at the front of a byte string can be read back.
to_bytes8-append :
    (a b : ℕ) (us vs : Bytes)
    → a ≤ uint64_max
    → b ≤ uint64_max
    → to_bytes8 a ++ us ≡ to_bytes8 b ++ vs
    → (a ≡ b) × (us ≡ vs)
to_bytes8-append a b us vs ha hb e =
    let (p, q) =
      append-cancel (to_bytes8 a) (to_bytes8 b) us vs
        (omega (arith, length-to_bytes8 a, length-to_bytes8 b)) e in
    (to_bytes8_injective a b ha hb p, q)

-- So can a byte string behind its length.
abbrev pub prefixed : Bytes → Bytes
prefixed x = to_bytes8 (length x) ++ x

pub prefixed-append :
    (x y us vs : Bytes)
    → length x ≤ uint64_max
    → length y ≤ uint64_max
    → prefixed x ++ us ≡ prefixed y ++ vs
    → (x ≡ y) × (us ≡ vs)
prefixed-append x y us vs hx hy e =
    let (l, r) =
      to_bytes8-append (length x) (length y) (x ++ us) (y ++ vs) hx hy
        (rw append_assoc at (rw append_assoc at e)) in
    append-cancel x y us vs l r

pub record Payload : Type 0 where
  pub key : Bytes
  pub size : ℕ
  pub tail : ℕ
  pub tail_hash : Bytes
  pub prev_hash : Bytes
  pub signature : ℕ
  pub hash : ℕ

abbrev layout : Payload → Bytes
layout f =
    2
    ∷ (to_bytes8 f.hash
        ++ (to_bytes8 f.signature
            ++ (prefixed f.key
                ++ (to_bytes8 f.size
                    ++ (to_bytes8 f.tail ++ (prefixed f.tail_hash ++ prefixed f.prev_hash))))))

record Fits (f : Payload) : Type 0 where
  key : length f.key ≤ uint64_max
  size : f.size ≤ uint64_max
  tail : f.tail ≤ uint64_max
  tail_hash : length f.tail_hash ≤ uint64_max
  prev_hash : length f.prev_hash ≤ uint64_max
  signature : f.signature ≤ uint64_max
  hash : f.hash ≤ uint64_max

abbrev pub Encode : Payload → Bytes → Type 0
Encode f p =
    checkpoint_payload f.key f.size f.tail f.tail_hash f.prev_hash f.signature f.hash ≡ ok p

Encode-layout : (f : Payload) (p : Bytes) → Encode f p → Fits f × (p ≡ layout f)
unfolding checkpoint_payload digest_size check_width u64 length_prefixed
Encode-layout f p e = ground arith

layout-injective : (f g : Payload) → Fits f → Fits g → layout f ≡ layout g → f ≡ g
layout-injective f g hf hg e =
    let (e1, r1) = to_bytes8-append f.hash g.hash _ _ hf.hash hg.hash (ground arith) in
    let (e2, r2) = to_bytes8-append f.signature g.signature _ _ hf.signature hg.signature r1 in
    let (e3, r3) = prefixed-append f.key g.key _ _ hf.key hg.key r2 in
    let (e4, r4) = to_bytes8-append f.size g.size _ _ hf.size hg.size r3 in
    let (e5, r5) = to_bytes8-append f.tail g.tail _ _ hf.tail hg.tail r4 in
    let (e6, r6) = prefixed-append f.tail_hash g.tail_hash _ _ hf.tail_hash hg.tail_hash r5 in
    let (e7, r7) =
      prefixed-append f.prev_hash g.prev_hash [] [] hf.prev_hash hg.prev_hash
        (rw (append-nil, append-nil) r6) in
    ground arith

-- Two payloads of a checkpoint with the same bytes have the same key, tree size, tail position, tail
-- hash, hash of the previous checkpoint and algorithms.
pub checkpoint_payload-injective : (f g : Payload) (p : Bytes) → Encode f p → Encode g p → f ≡ g
checkpoint_payload-injective f g p ef eg =
    let (ff, pf) = Encode-layout f p ef in
    let (fg, pg) = Encode-layout g p eg in layout-injective f g ff fg (ground arith)
