-- ===== src/Api/Migrations.antt =====
-- The lock of services/api/app/migrations/runner.py. The collection of locks holds one document at
-- most, `$$NOW` is an argument, and a moment is a number of microseconds.
pub mod Exclusive
mod Tests
use theft_detection_platform.Prelude.{
  ℕ, ◌+◌, ◌*◌, Bool, true, false, not, ◌||◌, Option, none, some, String, str_eq, ltb, if◌then◌else◌,
}

pub record Lock : Type 0 where
  pub owner : String
  pub renewed_at : ℕ
  pub expires_at : ℕ

-- `_LEASE_SECONDS`
abbrev pub lease : ℕ
lease = 120 * 1000000

-- `free` of `_claim`: a field that is missing is before every date.
abbrev pub is_free : (owner : String) (now : ℕ) → Option Lock → Bool
is_free owner now none = true
is_free owner now (some lock) = ltb lock.expires_at now || str_eq lock.owner owner

-- `_claim`, the pipeline of the update, with `upsert`.
abbrev pub claim : (owner : String) (now : ℕ) → Option Lock → Option Lock
claim owner now lock =
    if is_free owner now lock
    then some (record { owner = owner; renewed_at = now; expires_at = now + lease })
    else lock

abbrev pub is_owned : (owner : String) → Option Lock → Bool
is_owned owner none = false
is_owned owner (some lock) = str_eq lock.owner owner

-- What MongoDB does with an update: it answers, or another insertion was first, or it fails before
-- or after the update.
pub data Reply : Type 0 where
  answered : Reply
  duplicate_key : Reply
  failed : (updated : Bool) → Reply

-- `_claim_lock`: the lock afterwards, and the answer, or none where an error of the driver is raised.
unfoldable pub claim_lock :
    Reply → (owner : String) (now : ℕ) → Option Lock → Option Lock × Option Bool
claim_lock answered owner now lock =
    (claim owner now lock, some (is_owned owner (claim owner now lock)))
claim_lock duplicate_key owner now lock = (lock, some false)
claim_lock (failed updated) owner now lock = (if updated then claim owner now lock else lock, none)

-- `_try_acquire`, which lets an error through.
abbrev pub try_acquire :
    Reply → (owner : String) (now : ℕ) → Option Lock → Option Lock × Option Bool
try_acquire reply owner now lock = claim_lock reply owner now lock

-- `_renew`, which answers false to an error.
unfoldable pub renew : Reply → (owner : String) (now : ℕ) → Option Lock → Option Lock × Bool
renew reply owner now lock =
    let (after, answer) = claim_lock reply owner now lock in
    elim answer [ none ↦ (after, false) | some taken ↦ (after, taken) ]

-- The `delete_one` at the end of `_migration_lock`.
unfoldable pub release_lock : (owner : String) → Option Lock → Option Lock
release_lock owner lock = if is_owned owner lock then none else lock
