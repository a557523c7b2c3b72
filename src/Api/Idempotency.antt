-- ===== src/Api/Idempotency.antt =====
-- services/api/app/core/idempotency.py. Redis is a map from keys to what is stored under them, as
-- long as nothing expires; the JSON texts are the values that they encode, and the hash of a body
-- and the random token are parameters.
pub mod Single
pub mod Replay
mod Tests
use theft_detection_platform.Prelude.{
  ℕ, Bool, true, false, not, ◌&&◌, ◌||◌, Option, none, some, String, str_eq, str_append, is_some,
  if◌then◌else◌, Result, ok, err, ◌>>◌, raise_if,
}
use theft_detection_platform.Api.Alerts.{AppError, conflict, request_in_progress}

abbrev pub retry_after_seconds : ℕ
retry_after_seconds = 1

module _ (Body : Type 0) where
  -- The document under a key.
  pub data Entry : Type 0 where
    pending : (body_hash token : String) → Entry
    finished : (body : Body) (body_hash : String) → Entry

  abbrev pub Redis : Type 0
  Redis = String → Option Entry

  abbrev pub put : String → Option Entry → Redis → Redis
  put key entry redis k = if str_eq k key then entry else redis k

  pub record IdempotencyState : Type 0 where
    pub cached_response : Option Body
    pub store_key : Option String
    pub body_hash : Option String
    pub has_redis : Bool
    pub claim : Option Entry
    pub stored : Bool

  pub record Request : Type 0 where
    pub method : String
    pub path : String
    pub header_value : Option String
    pub body : String

  abbrev pub untracked : IdempotencyState
  untracked = record {
    cached_response = none;
    store_key = none;
    body_hash = none;
    has_redis = false;
    claim = none;
    stored = false;
  }

  abbrev pub holding : (key body_hash : String) → Entry → IdempotencyState
  holding key body_hash claim = record {
    cached_response = none;
    store_key = some key;
    body_hash = some body_hash;
    has_redis = true;
    claim = some claim;
    stored = false;
  }

  abbrev pub hit : (key body_hash : String) → Body → IdempotencyState
  hit key body_hash body = record {
    cached_response = some body;
    store_key = some key;
    body_hash = some body_hash;
    has_redis = false;
    claim = none;
    stored = false;
  }

  -- `_cache_key`
  abbrev pub cache_key : (method path header_value : String) → String
  cache_key method path header_value =
      str_append "idem:"
        (str_append method (str_append ":" (str_append path (str_append ":" header_value))))

  -- `SET key claim NX`
  unfoldable pub set_nx : String → Entry → Redis → Redis × Bool
  set_nx key entry redis = elim (redis key) [
    | none ↦ (put key (some entry) redis, true)
    | some _ ↦ (redis, false)
  ]

  -- `_replay`
  unfoldable pub replay : (key body_hash : String) → Option Entry → Result AppError IdempotencyState
  replay key body_hash none = err (request_in_progress retry_after_seconds)
  replay key body_hash (some (pending stored_hash token)) =
      raise_if (not (str_eq stored_hash body_hash)) conflict
      >> err (request_in_progress retry_after_seconds)
  replay key body_hash (some (finished body stored_hash)) =
      raise_if (not (str_eq stored_hash body_hash)) conflict >> ok (hit key body_hash body)

  -- `idempotency` up to its yield: Redis afterwards, and the state or an error. `meanwhile` is what
  -- other requests do between the refused SET and the GET.
  unfoldable pub begin :
      (hash_body : String → String) (token : String) (meanwhile : Redis → Redis)
      → Request
      → Redis
      → Redis × Result AppError IdempotencyState
  begin hash_body token meanwhile request redis = elim request.header_value [
    | none ↦ (redis, ok untracked)
    | some header ↦
        if str_eq header ""
        then (redis, ok untracked)
        else let key = cache_key request.method request.path header in
          let body_hash = hash_body request.body in
          let (redis1, claimed) = set_nx key (pending body_hash token) redis in
          if claimed
          then (redis1, ok (holding key body_hash (pending body_hash token)))
          else (meanwhile redis1, replay key body_hash (meanwhile redis1 key))
  ]

  -- `store`
  unfoldable pub store : Body → IdempotencyState → Redis → Redis × IdempotencyState
  store body state redis = elim state.store_key [
    | none ↦ (redis, state)
    | some key ↦ if not state.has_redis then (redis, state) else elim state.body_hash [
      | none ↦ (redis, state)
      | some body_hash ↦
          (put key (some (finished body body_hash)) redis, record state { stored = true })
    ]
  ]

  abbrev pub entry_eq : (body_eq : Body → Body → Bool) → Entry → Entry → Bool
  entry_eq body_eq (pending h t) (pending h' t') = str_eq h h' && str_eq t t'
  entry_eq body_eq (finished b h) (finished b' h') = body_eq b b' && str_eq h h'
  entry_eq body_eq _ _ = false

  -- `release`, by the script that compares and deletes.
  unfoldable pub release : (body_eq : Body → Body → Bool) → IdempotencyState → Redis → Redis
  release body_eq state redis =
      if state.stored || not state.has_redis then redis else elim state.claim [
        | none ↦ redis
        | some claim ↦ elim state.store_key [
          | none ↦ redis
          | some key ↦ elim (redis key) [
            | none ↦ redis
            | some entry ↦ if entry_eq body_eq entry claim then put key none redis else redis
          ]
        ]
      ]

  -- An endpoint: a hit is answered from what is stored; otherwise the work is done, none where it
  -- raises, its result is stored, and the claim is released in the end.
  unfoldable pub finish :
      (body_eq : Body → Body → Bool) → Option Body → IdempotencyState → Redis → Redis × Option Body
  finish body_eq result state redis = elim state.cached_response [
    | some body ↦ (redis, some body)
    | none ↦ elim result [
      | none ↦ (release body_eq state redis, none)
      | some body ↦
          let (redis1, state1) = store body state redis in
          (release body_eq state1 redis1, some body)
    ]
  ]
