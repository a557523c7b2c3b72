-- ===== src/Audit/Chain.antt =====
-- services/audit/app/core/chain.py. SHA-256 is a parameter; integers are natural numbers, so the
-- test `value < 0` of `_u64` has no counterpart. `key_id` is the UTF-8 encoding of the key's name.
pub mod Encoding
use theft_detection_platform.Prelude.{
  ℕ, ◌+◌, ◌*◌, ◌^◌, ◌-◌, ◌/◌, ◌%◌, Bool, Option, none, some, [], ◌∷◌, ◌++◌, Bytes, bytes_eq, length,
  replicate, Result, ok, err, ◌>>=◌, ◌>>◌, raise_if, ltb, not, ◌==◌, if◌then◌else◌, is_some,
}

pub data ChainError : Type 0 where
  -- `UnsupportedAlgorithmError`
  unsupported_algorithm : ℕ → ChainError
  -- `ValueError` of a hash that has the wrong width, and of a number that does not fit
  wrong_width : ChainError
  out_of_range : ChainError

abbrev pub hash_size : ℕ
hash_size = 32

abbrev pub hash_algorithm_sha256 : ℕ
hash_algorithm_sha256 = 1

abbrev pub default_hash_algorithm : ℕ
default_hash_algorithm = hash_algorithm_sha256

abbrev domain_leaf : ℕ
domain_leaf = 0

abbrev domain_chain : ℕ
domain_chain = 1

abbrev domain_checkpoint : ℕ
domain_checkpoint = 2

abbrev domain_checkpoint_digest : ℕ
domain_checkpoint_digest = 3

abbrev pub genesis_checkpoint : Bytes
genesis_checkpoint = replicate hash_size 0

-- `_ALGORITHMS.get(algorithm)`: the digest's size.
unfoldable pub digest_size : ℕ → Result ChainError ℕ
digest_size algorithm =
    if algorithm == hash_algorithm_sha256 then ok 32 else err (unsupported_algorithm algorithm)

unfoldable pub is_supported : ℕ → Bool
is_supported algorithm = algorithm == hash_algorithm_sha256

unfoldable pub genesis_prev_hash : ℕ → Result ChainError Bytes
unfolding digest_size
genesis_prev_hash algorithm = do size ← digest_size algorithm; ok (replicate size 0)

abbrev pub uint64_max : ℕ
uint64_max = 2 ^ 64 - 1

-- `value.to_bytes(8, "big")`
unfoldable pub to_bytes8 : ℕ → Bytes
to_bytes8 v =
    (v / 2 ^ 56 % 256)
    ∷ (v / 2 ^ 48 % 256)
    ∷ (v / 2 ^ 40 % 256)
    ∷ (v / 2 ^ 32 % 256)
    ∷ (v / 2 ^ 24 % 256)
    ∷ (v / 2 ^ 16 % 256)
    ∷ (v / 2 ^ 8 % 256)
    ∷ (v % 256)
    ∷ []

-- `_u64`
unfoldable pub u64 : ℕ → Result ChainError Bytes
u64 value = if ltb uint64_max value then err out_of_range else ok (to_bytes8 value)

-- `_length_prefixed`
unfoldable pub length_prefixed : Bytes → Result ChainError Bytes
length_prefixed value = do size ← u64 (length value); ok (size ++ value)

-- A hash of the wrong width is refused.
unfoldable pub check_width : ℕ → Bytes → Result ChainError (Unit {0})
check_width size hash = raise_if (not (length hash == size)) wrong_width

unfoldable pub checkpoint_payload :
    (key_id : Bytes) (tree_size tail_sequence_number : ℕ)
    (tail_chain_hash prev_checkpoint_hash : Bytes) (signature_algorithm hash_algorithm : ℕ)
    → Result ChainError Bytes
checkpoint_payload key_id tree_size tail_sequence_number tail_chain_hash prev_checkpoint_hash
      signature_algorithm hash_algorithm =
    do
      size ← digest_size hash_algorithm
      check_width size tail_chain_hash
      check_width size prev_checkpoint_hash
      hash_part ← u64 hash_algorithm
      signature_part ← u64 signature_algorithm
      key_part ← length_prefixed key_id
      size_part ← u64 tree_size
      tail_part ← u64 tail_sequence_number
      tail_hash_part ← length_prefixed tail_chain_hash
      prev_hash_part ← length_prefixed prev_checkpoint_hash
      ok (
          domain_checkpoint
          ∷ (hash_part
              ++ (signature_part
                  ++ (key_part
                      ++ (size_part ++ (tail_part ++ (tail_hash_part ++ prev_hash_part)))))))

module _ (sha256 : Bytes → Bytes) where
  -- `_new(algorithm)`, updated with `message` and digested.
  unfoldable pub digest : ℕ → Bytes → Result ChainError Bytes
  unfolding digest_size
  digest algorithm message = do digest_size algorithm; ok (sha256 message)

  unfoldable pub compute_leaf_hash : Bytes → ℕ → Result ChainError Bytes
  compute_leaf_hash event_bytes algorithm = do
    digest algorithm []
    body ← length_prefixed event_bytes
    digest algorithm (domain_leaf ∷ body)

  unfoldable pub compute_chain_hash : Bytes → Bytes → ℕ → Result ChainError Bytes
  unfolding digest check_width
  compute_chain_hash prev_hash leaf_hash algorithm = do
    size ← digest_size algorithm
    check_width size prev_hash
    check_width size leaf_hash
    digest algorithm (domain_chain ∷ (prev_hash ++ leaf_hash))

  unfoldable pub leaf_matches : Bytes → Bytes → ℕ → Result ChainError Bool
  leaf_matches event_bytes leaf_hash algorithm = do
    computed ← compute_leaf_hash event_bytes algorithm
    ok (bytes_eq computed leaf_hash)

  unfoldable pub chain_matches : Bytes → Bytes → Bytes → ℕ → Result ChainError Bool
  chain_matches prev_hash leaf_hash chain_hash algorithm = do
    computed ← compute_chain_hash prev_hash leaf_hash algorithm
    ok (bytes_eq computed chain_hash)

  unfoldable pub compute_checkpoint_hash : Bytes → ℕ → Result ChainError Bytes
  compute_checkpoint_hash payload algorithm = do
    digest algorithm []
    body ← length_prefixed payload
    digest algorithm (domain_checkpoint_digest ∷ body)

  unfoldable pub checkpoint_matches : Bytes → Bytes → ℕ → Result ChainError Bool
  checkpoint_matches payload checkpoint_hash algorithm = do
    computed ← compute_checkpoint_hash payload algorithm
    ok (bytes_eq computed checkpoint_hash)
