-- ===== src/Notification/Worker/Attempts.antt =====
-- How a delivery counts its attempts, services/notification/app/worker/tasks.py.
use theft_detection_platform.Prelude.{
  ℕ, ◌+◌, String, ◌≡◌, refl, true, false, Option, some, arith, err,
}
use theft_detection_platform.Notification.Records.{
  DeliveryIntent, TelegramError, transient, Collections, NotifyDb,
}
use theft_detection_platform.Notification.Repository.{
  get_by_id, has_id, as_failed, find_one_and_update,
}
use theft_detection_platform.Notification.Repository.Lookup.{get_by_id-find_one_and_update}
use theft_detection_platform.Notification.Worker.{World, given, require_clip, on_error, attempt}

require_clip_late :
    (world : World) (K : Collections) (id : String) (clip_path : Option String) (db : NotifyDb K)
    {path : String}
    → given clip_path ≡ some path
    → world.clip_missing path ≡ true
    → world.clip_late path ≡ true
    → require_clip world K id clip_path false db ≡ (
      (find_one_and_update K (has_id id) (as_failed world.now "clip not written yet") db).0,
      err (transient "clip not written yet"),
    )
unfolding require_clip
require_clip_late world K id clip_path db set missing late =
    rw (set, missing, late, require_clip) refl

attempt_refused :
    (world : World) (K : Collections) (intent : DeliveryIntent) (attempts : ℕ) (text : String)
    (photo_path clip_path : Option String) (db waited : NotifyDb K) (e : TelegramError)
    → require_clip world K intent.id clip_path false db ≡ (waited, err e)
    → attempt world K intent attempts false text photo_path clip_path db
      ≡ on_error world K intent attempts false e waited
unfolding attempt
attempt_refused world K intent attempts text photo_path clip_path db waited e h = ground arith

-- An attempt that waits for its clip in vain, and is not the last one, is recorded as two
-- attempts: `_require_clip` marks the intent as failed before it raises, and the handler of the
-- error marks it again.
pub attempt_late_clip :
    (world : World) (K : Collections) (intent : DeliveryIntent) (attempts : ℕ) (text : String)
    (photo_path clip_path : Option String) (db : NotifyDb K) {path : String} {d : DeliveryIntent}
    → get_by_id K intent.id db ≡ some d
    → given clip_path ≡ some path
    → world.clip_missing path ≡ true
    → world.clip_late path ≡ true
    → ((attempt world K intent attempts false text photo_path clip_path db).reply
        ≡ err (transient "clip not written yet"))
      × ((d' : DeliveryIntent) × (get_by_id K intent.id
              (attempt world K intent attempts false text photo_path clip_path db).db
            ≡ some d')
          × (d'.attempts ≡ d.attempts + 2))
unfolding on_error
attempt_late_clip world K intent attempts text photo_path clip_path db {path} {d} here set missing
      late =
    let error : String = "clip not written yet" in
    let once =
      get_by_id-find_one_and_update K intent.id (as_failed world.now error) db {d = d} (λ e. refl)
        here in
    let twice =
      get_by_id-find_one_and_update K intent.id (as_failed world.now error)
        (find_one_and_update K (has_id intent.id) (as_failed world.now error) db).0
        {d = as_failed world.now error d} (λ e. refl) once in
    let same =
      attempt_refused world K intent attempts text photo_path clip_path db
        (find_one_and_update K (has_id intent.id) (as_failed world.now error) db).0
        (transient error) (require_clip_late world K intent.id clip_path db set missing late) in
    rw same (refl, (as_failed world.now error (as_failed world.now error d), twice, omega arith))
