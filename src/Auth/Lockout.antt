-- ===== src/Auth/Lockout.antt =====
-- The counter of failed logins in services/auth/app/core/redis.py: the two Lua scripts, and the
-- functions that call them, on the one key of an address and a user name. The key is missing, or
-- holds a count with the milliseconds that it has to live; Redis drops it when they are over.
use theft_detection_platform.Prelude.{
  ℕ, ◌+◌, ◌-◌, ◌*◌, ◌≤◌, ◌<◌, ◌≡◌, ap, ◌∙◌, Bool, true, false, Option, none, some, List, [], ◌∷◌,
  length, is_some, arith, leb, ◌==◌, if◌then◌else◌, ltb,
}

pub record FailureKey : Type 0 where
  pub count : ℕ
  pub ttl_ms : ℕ

pub record LockoutSettings : Type 0 where
  pub login_max_attempts : ℕ
  pub login_window_seconds : ℕ
  pub login_block_seconds : ℕ

-- `_CHECK_LUA`: whether the key is locked, and for how many milliseconds.
unfoldable pub check_script : ℕ → Option FailureKey → Bool × ℕ
check_script limit none = if leb limit 0 then (true, 0) else (false, 0)
check_script limit (some key) = if leb limit key.count then (true, key.ttl_ms) else (false, 0)

-- `incr`, which makes a missing key, and its first `pexpire`.
abbrev pub counted : ℕ → Option FailureKey → FailureKey
counted window_ms none = record { count = 1; ttl_ms = window_ms }
counted window_ms (some key) =
    let count = key.count + 1 in
    record { count = count; ttl_ms = if count == 1 then window_ms else key.ttl_ms }

-- `_RECORD_LUA`: the key afterwards, and whether this failure trips the lock, with the count.
unfoldable pub record_script : ℕ → ℕ → ℕ → Option FailureKey → FailureKey × Bool × ℕ
record_script limit window_ms block_ms key =
    let next = counted window_ms key in
    if next.count == limit
    then (record next { ttl_ms = block_ms }, true, next.count)
    else if ltb limit next.count
    then (record next { ttl_ms = block_ms }, false, next.count)
    else (next, false, next.count)

abbrev pub check_login : LockoutSettings → Option FailureKey → Bool × ℕ
check_login settings key = check_script settings.login_max_attempts key

abbrev pub record_failure : LockoutSettings → Option FailureKey → FailureKey × Bool × ℕ
record_failure settings key =
    record_script settings.login_max_attempts (settings.login_window_seconds * 1000)
      (settings.login_block_seconds * 1000) key

abbrev pub window_ms : LockoutSettings → ℕ
window_ms settings = settings.login_window_seconds * 1000

abbrev pub block_ms : LockoutSettings → ℕ
block_ms settings = settings.login_block_seconds * 1000

-- The key some milliseconds later.
abbrev pub elapse : (ms : ℕ) → Option FailureKey → Option FailureKey
elapse ms none = none
elapse ms (some key) =
    if leb key.ttl_ms ms then none else some (record key { ttl_ms = key.ttl_ms - ms })

-- The key after failures, each so many milliseconds behind the one before; the newest comes first.
abbrev pub after_failures : LockoutSettings → (gaps : List ℕ) → Option FailureKey
after_failures settings [] = none
after_failures settings (gap ∷ gaps) =
    some (record_failure settings (elapse gap (after_failures settings gaps))).0

-- The milliseconds from the first failure to the last.
abbrev pub spread : (gaps : List ℕ) → ℕ
spread [] = 0
spread (gap ∷ []) = 0
spread (gap ∷ before ∷ gaps) = gap + spread (before ∷ gaps)

module _ (settings : LockoutSettings) where
  -- The key tells how many failures there were; it lives for the rest of the window, or from the
  -- limit on for the block.
  record IsTold (gaps : List ℕ) (key : FailureKey) : Type 0 where
    counts : key.count ≡ length gaps
    lives : key.ttl_ms ≡ (
        if leb settings.login_max_attempts (length gaps)
        then block_ms settings
        else window_ms settings - spread gaps)

  first-IsTold : (gap : ℕ) → IsTold (gap ∷ []) (record_failure settings none).0
  unfolding record_script
  first-IsTold gap = record { counts = ground arith; lives = ground arith }

  later-IsTold :
      (gap before : ℕ) (gaps : List ℕ) (key : FailureKey)
      → spread (gap ∷ before ∷ gaps) < window_ms settings
      → spread (gap ∷ before ∷ gaps) < block_ms settings
      → IsTold (before ∷ gaps) key
      → IsTold (gap ∷ before ∷ gaps) (record_failure settings (elapse gap (some key))).0
  unfolding record_script
  later-IsTold gap before gaps key in_window in_block t =
      let alive : leb key.ttl_ms gap ≡ false = ground (arith, t.lives) in
      rw alive
        (record { counts = ground (arith, t.counts); lives = ground (arith, t.counts, t.lives) })

  after_failures-IsTold :
      (gap : ℕ) (gaps : List ℕ)
      → spread (gap ∷ gaps) < window_ms settings
      → spread (gap ∷ gaps) < block_ms settings
      → IsTold (gap ∷ gaps) (record_failure settings (elapse gap (after_failures settings gaps))).0
  after_failures-IsTold gap [] in_window in_block = first-IsTold gap
  after_failures-IsTold gap (before ∷ gaps) in_window in_block =
      later-IsTold gap before gaps _ in_window in_block
        (after_failures-IsTold before gaps (omega arith) (omega arith))

  trips :
      (key : Option FailureKey)
      → (record_failure settings key).1
        ≡ ((record_failure settings key).0.count == settings.login_max_attempts)
  unfolding record_script
  trips key = ground arith

  -- What a login finds some time after that many failures, the last of which tripped the lock or
  -- did not.
  pub record IsLockedAfter (failures spread_ms wait : ℕ) (key : Option FailureKey) (tripped : Bool)
      : Type 0 where
    pub below_limit :
        failures < settings.login_max_attempts
        → (check_login settings key ≡ (false, 0))
          × (is_some key ≡ ltb (spread_ms + wait) (window_ms settings))
    pub at_limit :
        settings.login_max_attempts ≤ failures
        → check_login settings key
          ≡ (if ltb wait (block_ms settings) then (true, block_ms settings - wait) else (false, 0))
    pub trips_once : tripped ≡ (failures == settings.login_max_attempts)

  -- After failures that all fall into the window of the first one, and into a block: below the limit
  -- no login is refused, and the count is forgotten when the window of the first failure is over; from
  -- the limit on a login is refused exactly for the block from the last failure on, and told the
  -- rest of it; the failure that reaches the limit, and no other, trips the lock.
  pub lockout_lem :
      (gap : ℕ) (gaps : List ℕ) (wait : ℕ)
      → 0 < settings.login_max_attempts
      → spread (gap ∷ gaps) < window_ms settings
      → spread (gap ∷ gaps) < block_ms settings
      → IsLockedAfter
          (length (gap ∷ gaps))
          (spread (gap ∷ gaps))
          wait
          (elapse wait (after_failures settings (gap ∷ gaps)))
          (record_failure settings (elapse gap (after_failures settings gaps))).1
  unfolding check_script
  lockout_lem gap gaps wait some_limit in_window in_block =
      let t = after_failures-IsTold gap gaps in_window in_block in
      record {
        below_limit =
            λ below. (ground (arith, t.counts, t.lives), ground (arith, t.counts, t.lives));
        at_limit = λ reached. ground (arith, t.counts, t.lives);
        trips_once =
            trips (elapse gap (after_failures settings gaps))
            ∙ ap (λ c. c == settings.login_max_attempts) t.counts;
      }
