-- ===== src/Notification/Repository.antt =====
-- services/notification/app/repositories/delivery_intent.py and dead_letter.py. The clock is an
-- argument; so is the identity that MongoDB gives a new document.
pub mod Settled
pub mod Acquire
pub mod Lookup
use theft_detection_platform.Prelude.{
  ℕ, zero, suc, ◌+◌, String, Bool, true, false, not, ◌&&◌, ◌||◌, Option, none, some, List, [], ◌∷◌,
  ◌++◌, Bytes, find?, filter, any, take, str_eq, ltb, leb, ◌==◌, if◌then◌else◌, is_some,
}
use theft_detection_platform.Prelude.Collection.{Collection}
use theft_detection_platform.Prelude.Sorting.{sort_by}
use theft_detection_platform.Notification.Records.{
  DeliveryStatus, pending, sending, sent, failed, dead, buffered, DeliverySource,
  TelegramMessageRef, DeliveryIntent, DeadLetter, source_eq, status_eq, Collections, NotifyDb,
}

abbrev pub has_id : String → DeliveryIntent → Bool
has_id intent_id d = str_eq d.id intent_id

-- `{"$nin": [SENT, DEAD]}`
abbrev pub is_open : DeliveryIntent → Bool
is_open d = not (status_eq d.status sent) && not (status_eq d.status dead)

-- `DeliveryIntentRepository._natural_key`
abbrev pub same_key : DeliveryIntent → DeliveryIntent → Bool
same_key a b =
    source_eq a.source b.source
    && str_eq a.source_ref b.source_ref
    && str_eq a.recipient b.recipient

abbrev pub claimable : String → DeliveryIntent → Bool
claimable intent_id d = has_id intent_id d && is_open d

abbrev pub requeueable : String → ℕ → DeliveryIntent → Bool
requeueable intent_id cutoff d =
    has_id intent_id d
    && (status_eq d.status pending || status_eq d.status sending)
    && ltb d.updated_at cutoff

abbrev pub releasable : String → DeliveryIntent → Bool
releasable intent_id d = has_id intent_id d && status_eq d.status buffered

abbrev pub displayable : String → ℕ → DeliveryIntent → Bool
displayable intent_id shown_at d =
    has_id intent_id d && elim d.telegram_shown_at [ none ↦ true | some at ↦ leb at shown_at ]

-- The documents that the updates write.
abbrev pub as_sending : ℕ → DeliveryIntent → DeliveryIntent
as_sending now d = record d { status = sending; attempt_started_at = some now; updated_at = now }

abbrev pub as_sent : ℕ → Option TelegramMessageRef → DeliveryIntent → DeliveryIntent
as_sent now ref d = record d {
  status = sent;
  attempt_started_at = none;
  updated_at = now;
  telegram = elim ref [ none ↦ d.telegram | some r ↦ some r ];
  attempts = d.attempts + 1;
}

abbrev pub as_failed : ℕ → String → DeliveryIntent → DeliveryIntent
as_failed now last_error d = record d {
  status = failed;
  attempt_started_at = none;
  last_error = some last_error;
  updated_at = now;
  attempts = d.attempts + 1;
}

abbrev pub as_dead : ℕ → String → DeliveryIntent → DeliveryIntent
as_dead now last_error d = record d {
  status = dead;
  attempt_started_at = none;
  last_error = some last_error;
  updated_at = now;
}

abbrev pub as_buffered : ℕ → String → DeliveryIntent → DeliveryIntent
as_buffered now last_error d = record d {
  status = buffered;
  attempt_started_at = none;
  last_error = some last_error;
  updated_at = now;
}

abbrev pub as_released : ℕ → DeliveryIntent → DeliveryIntent
as_released now d = record d { status = pending; updated_at = now }

abbrev pub as_requeued : ℕ → DeliveryIntent → DeliveryIntent
as_requeued now d = record d {
  status = pending;
  attempt_started_at = none;
  updated_at = now;
  requeue_count = d.requeue_count + 1;
}

-- The oldest of the documents, the first one among equals.
abbrev pub oldest : List DeliveryIntent → Option DeliveryIntent
oldest [] = none
oldest (d ∷ rest) = elim (oldest rest) [
  | none ↦ some d
  | some e ↦ if ltb e.created_at d.created_at then some e else some d
]

module _ (K : Collections) where
  abbrev pub intents : NotifyDb K → List DeliveryIntent
  intents db = Collection.docs K.intents db.intents

  abbrev pub letters : NotifyDb K → List DeadLetter
  letters db = Collection.docs K.letters db.letters

  -- `find_one_and_update` with `ReturnDocument.AFTER`.
  unfoldable pub find_one_and_update :
      (DeliveryIntent → Bool)
      → (DeliveryIntent → DeliveryIntent)
      → NotifyDb K
      → NotifyDb K × Option DeliveryIntent
  find_one_and_update p f db = (
    record db { intents = Collection.update_one K.intents p f db.intents },
    elim (find? p (intents db)) [ none ↦ none | some d ↦ some (f d) ],
  )

  -- A unique index on the natural key refuses a second document with the key.
  unfoldable pub acquire : DeliveryIntent → NotifyDb K → NotifyDb K × DeliveryIntent
  acquire intent db = elim (find? (same_key intent) (intents db)) [
    | some existing ↦ (db, existing)
    | none ↦ (record db { intents = Collection.insert_one K.intents intent db.intents }, intent)
  ]

  unfoldable pub get_by_id : String → NotifyDb K → Option DeliveryIntent
  get_by_id intent_id db = find? (has_id intent_id) (intents db)

  unfoldable pub list_by_source_ref : DeliverySource → String → NotifyDb K → List DeliveryIntent
  list_by_source_ref source source_ref db =
      sort_by (λ (d e : DeliveryIntent). leb d.created_at e.created_at)
        (filter (λ d. source_eq d.source source && str_eq d.source_ref source_ref) (intents db))

  abbrev pub mark_snapshot_sent : String → TelegramMessageRef → ℕ → NotifyDb K → NotifyDb K
  mark_snapshot_sent intent_id snapshot now db =
      (find_one_and_update (has_id intent_id)
        (λ d. record d { telegram_snapshot = some snapshot; updated_at = now }) db).0

  abbrev pub claim_display : String → ℕ → NotifyDb K → NotifyDb K × Bool
  claim_display intent_id shown_at db =
      let (after, claimed) =
        find_one_and_update (displayable intent_id shown_at)
          (λ d. record d { telegram_shown_at = some shown_at }) db in
      (after, is_some claimed)

  abbrev pub mark_sending : String → ℕ → NotifyDb K → NotifyDb K × Option DeliveryIntent
  mark_sending intent_id now db = find_one_and_update (claimable intent_id) (as_sending now) db

  abbrev pub mark_sent :
      String → Option TelegramMessageRef → ℕ → NotifyDb K → NotifyDb K × Option DeliveryIntent
  mark_sent intent_id ref now db = find_one_and_update (has_id intent_id) (as_sent now ref) db

  abbrev pub mark_failed : String → String → ℕ → NotifyDb K → NotifyDb K × Option DeliveryIntent
  mark_failed intent_id last_error now db =
      find_one_and_update (has_id intent_id) (as_failed now last_error) db

  abbrev pub mark_dead : String → String → ℕ → NotifyDb K → NotifyDb K × Option DeliveryIntent
  mark_dead intent_id last_error now db =
      find_one_and_update (has_id intent_id) (as_dead now last_error) db

  abbrev pub mark_buffered : String → String → ℕ → NotifyDb K → NotifyDb K × Option DeliveryIntent
  mark_buffered intent_id last_error now db =
      find_one_and_update (claimable intent_id) (as_buffered now last_error) db

  abbrev pub mark_requeued : String → ℕ → ℕ → NotifyDb K → NotifyDb K × Option DeliveryIntent
  mark_requeued intent_id cutoff now db =
      find_one_and_update (requeueable intent_id cutoff) (as_requeued now) db

  -- The loop of `release_buffered`, `limit` times at most.
  unfoldable pub release_buffered : ℕ → ℕ → NotifyDb K → NotifyDb K × List DeliveryIntent
  release_buffered zero now db = (db, [])
  release_buffered (suc limit) now db =
      elim (oldest (filter (λ d. status_eq d.status buffered) (intents db))) [
        | none ↦ (db, [])
        | some d ↦
            let released = (find_one_and_update (releasable d.id) (as_released now) db).0 in
            let (after, rest) = release_buffered limit now released in
            (after, as_released now d ∷ rest)
      ]

  unfoldable pub find_stale : DeliveryStatus → ℕ → ℕ → NotifyDb K → List DeliveryIntent
  find_stale status cutoff limit db =
      take limit (filter (λ d. status_eq d.status status && ltb d.updated_at cutoff) (intents db))

  -- `DeadLetterRepository.create`
  unfoldable pub create_letter : DeadLetter → NotifyDb K → NotifyDb K
  create_letter entry db = record db { letters = Collection.insert_one K.letters entry db.letters }
