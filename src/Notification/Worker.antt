-- ===== src/Notification/Worker.antt =====
-- services/notification/app/worker/tasks.py, delivery: `_send_snapshot`, `_send_plain`,
-- `_dispatch`, `_require_clip` and `_deliver`. What Telegram, the file system, Redis, the renderer
-- and the clock answer in a run is the record `World`. A log message and a metric leave no trace.
pub mod Sweep
pub mod Letters
pub mod Delivered
pub mod Attempts
use theft_detection_platform.Prelude.{
  ℕ, String, Bool, true, false, not, ◌||◌, Option, none, some, Bytes, str_eq, str_append,
  if◌then◌else◌, Result, ok, err,
}
use theft_detection_platform.Notification.Records.{
  DeliverySource, alert, alertmanager, sent, TelegramMessageRef, DeliveryIntent, DeadLetter,
  TelegramError, unreachable, permanent, transient, Collections, NotifyDb, status_eq,
}
use theft_detection_platform.Notification.Repository.{
  get_by_id, mark_snapshot_sent, mark_sending, mark_sent, mark_failed, mark_dead, mark_buffered,
  create_letter,
}

abbrev pub Sending : Type 0
Sending = Result TelegramError (Option TelegramMessageRef)

pub record World : Type 0 where
  pub now : ℕ
  pub gate_raised : Bool
  pub decision_keyboard : String → Option String
  pub render : DeliverySource → Bytes → Result String (String × Option String × Option String)
  pub prefer_annotated : String → String
  -- whether the clip is missing at the first look, and still at the deadline
  pub clip_missing : String → Bool
  pub clip_late : String → Bool
  pub send_photo : (cover caption : String) → Sending
  pub send_video :
      (clip : String) (cover : Option String) (caption : String) (keyboard : Option String)
      → Sending
  pub send_message : (text : String) (keyboard : Option String) → Sending

pub record Reply : Type 0 where
  pub delivered : Bool
  pub reason : Option String

-- What a run leaves: the database, the reason with which it raised the gate, where it did, and its
-- result or the error that it raises again.
pub record Run (K : Collections) : Type 0 where
  pub db : NotifyDb K
  pub gate : Option String
  pub reply : Result TelegramError Reply

abbrev pub message_of : TelegramError → String
message_of (unreachable e) = e
message_of (permanent e) = e
message_of (transient e) = e

abbrev pub unconfigured_recipient : String
unconfigured_recipient = "unconfigured"

abbrev pub decision_prompt : String
decision_prompt =
    "<b>operator decision</b>\nis this a theft?\n<i>this judgement becomes a labelled training case</i>"

-- `if path` on an optional string
abbrev pub given : Option String → Option String
given none = none
given (some path) = if str_eq path "" then none else some path

abbrev pub compose : String → String → String
compose base block = if str_eq base "" then block else str_append base (str_append "\n\n" block)

abbrev pub letter_of : DeliveryIntent → ℕ → ℕ → String → DeadLetter
letter_of intent attempts now last_error = record {
  source = intent.source;
  source_ref = intent.source_ref;
  recipient = intent.recipient;
  payload = intent.payload;
  trace_carrier = intent.trace_carrier;
  attempts = attempts;
  last_error = some last_error;
  intent_id = some intent.id;
  created_at = now;
}

module _ (world : World) where
  abbrev pub keyboard_for : DeliveryIntent → Option String
  keyboard_for intent = elim intent.source [
    | alert ↦ world.decision_keyboard intent.id
    | alertmanager ↦ none
  ]

  -- The last attempt of `_send_plain`.
  abbrev photo_or_message : String → Option String → Sending
  photo_or_message text none = world.send_message text none
  photo_or_message text (some cover) = elim (world.send_photo cover text) [
    | err e ↦ err e
    | ok (some ref) ↦ ok (some ref)
    | ok none ↦ world.send_message text none
  ]

  unfoldable pub send_plain : String → Option String → Option String → Sending
  send_plain text cover none = photo_or_message text cover
  send_plain text cover (some clip_path) = elim (world.send_video clip_path cover text none) [
    | err e ↦ err e
    | ok (some ref) ↦ ok (some ref)
    | ok none ↦ photo_or_message text cover
  ]

  -- The message with the buttons.
  unfoldable pub send_prompt : String → Option String → Option String → String → Sending
  send_prompt prompt cover none keyboard = world.send_message prompt (some keyboard)
  send_prompt prompt cover (some clip_path) keyboard =
      elim (world.send_video clip_path cover prompt (some keyboard)) [
        | err e ↦ err e
        | ok (some ref) ↦ ok (some ref)
        | ok none ↦ world.send_message prompt (some keyboard)
      ]

  module _ (K : Collections) where
    unfoldable pub send_snapshot :
        DeliveryIntent → String → String → NotifyDb K → NotifyDb K × Result TelegramError Bool
    send_snapshot intent cover text db = elim intent.telegram_snapshot [
      | some _ ↦ (db, ok true)
      | none ↦ elim (world.send_photo cover text) [
        | err e ↦ (db, err e)
        | ok none ↦ (db, ok false)
        | ok (some snapshot) ↦ (mark_snapshot_sent K intent.id snapshot world.now db, ok true)
      ]
    ]

    -- The part of `_dispatch` for an alert with its buttons.
    unfoldable pub dispatch_prompt :
        DeliveryIntent
        → String
        → Option String
        → Option String
        → String
        → NotifyDb K
        → NotifyDb K × Sending
    dispatch_prompt intent text none clip_path keyboard db =
        (db, send_prompt (compose text decision_prompt) none clip_path keyboard)
    dispatch_prompt intent text (some cover) clip_path keyboard db =
        let (after, shown) = send_snapshot intent cover text db in
        elim shown [
          | err e ↦ (after, err e)
          | ok has_snapshot ↦
              let prompt = if has_snapshot then decision_prompt else compose text decision_prompt in
              (after, send_prompt prompt (some cover) clip_path keyboard)
        ]

    unfoldable pub dispatch :
        DeliveryIntent → String → Option String → Option String → NotifyDb K → NotifyDb K × Sending
    unfolding dispatch_prompt
    dispatch intent text photo_path clip_path db =
        let cover : Option String = elim (given photo_path) [
          | none ↦ none
          | some p ↦ some (world.prefer_annotated p)
        ] in
        elim (keyboard_for intent) [
          | none ↦ (db, send_plain text cover (given clip_path))
          | some keyboard ↦ dispatch_prompt intent text cover (given clip_path) keyboard db
        ]

    -- The database afterwards, and the error that it raises.
    unfoldable pub require_clip :
        String → Option String → Bool → NotifyDb K → NotifyDb K × Result TelegramError (Unit {0})
    require_clip intent_id clip_path final_attempt db = elim (given clip_path) [
      | none ↦ (db, ok tt)
      | some path ↦
          if not (world.clip_missing path) || not (world.clip_late path) || final_attempt
          then (db, ok tt)
          else (
            (mark_failed K intent_id "clip not written yet" world.now db).0,
            err (transient "clip not written yet"),
          )
    ]

    -- `mark_dead` and the dead letter, which stand together at every end but one.
    unfoldable pub bury : DeliveryIntent → ℕ → String → NotifyDb K → NotifyDb K
    bury intent attempts error db =
        create_letter K (letter_of intent attempts world.now error)
          (mark_dead K intent.id error world.now db).0

    abbrev ended : NotifyDb K → Bool → String → Run K
    ended db delivered reason = record {
      db = db;
      gate = none;
      reply = ok (record { delivered = delivered; reason = some reason });
    }

    -- The `except` clauses.
    unfoldable pub on_error : DeliveryIntent → ℕ → Bool → TelegramError → NotifyDb K → Run K
    on_error intent attempts final_attempt (unreachable error) db = record {
      db = (mark_buffered K intent.id error world.now db).0;
      gate = some error;
      reply = ok (record { delivered = false; reason = some "buffered" });
    }
    on_error intent attempts final_attempt (permanent error) db =
        ended (bury intent attempts error db) false "permanent"
    on_error intent attempts final_attempt (transient error) db =
        if final_attempt then ended (bury intent attempts error db) false "dead" else record {
          db = (mark_failed K intent.id error world.now db).0;
          gate = none;
          reply = err (transient error);
        }

    -- What follows the answer of `_dispatch`.
    unfoldable pub on_sent : DeliveryIntent → ℕ → Bool → Sending → NotifyDb K → Run K
    unfolding on_error
    on_sent intent attempts final_attempt (err e) db = on_error intent attempts final_attempt e db
    on_sent intent attempts final_attempt (ok none) db =
        ended (bury intent attempts "telegram declined" db) false "declined"
    on_sent intent attempts final_attempt (ok (some ref)) db = record {
      db = (mark_sent K intent.id (some ref) world.now db).0;
      gate = none;
      reply = ok (record { delivered = true; reason = none });
    }

    -- `_deliver` from the rendered message on.
    unfoldable pub attempt :
        DeliveryIntent → ℕ → Bool → String → Option String → Option String → NotifyDb K → Run K
    unfolding on_sent
    attempt intent attempts final_attempt text photo_path clip_path db =
        let (waited, clip) = require_clip intent.id clip_path final_attempt db in
        elim clip [
          | err e ↦ on_error intent attempts final_attempt e waited
          | ok _ ↦
              let (after, answer) = dispatch intent text photo_path clip_path waited in
              on_sent intent attempts final_attempt answer after
        ]

    -- `_deliver` from the claim on; `attempts` is that of the claimed document.
    unfoldable pub deliver_claimed : DeliveryIntent → ℕ → Bool → NotifyDb K → Run K
    unfolding attempt
    deliver_claimed intent attempts final_attempt db =
        elim (world.render intent.source intent.payload) [
          | err exc ↦
              ended (bury intent attempts (str_append "render failed: " exc) db) false "render"
          | ok (text, photo_path, clip_path) ↦
              attempt intent attempts final_attempt text photo_path clip_path db
        ]

    -- `seen` is the database at the first look, `db` the database at the next statement, after
    -- what other workers have written in between.
    unfoldable pub deliver : String → Bool → (seen db : NotifyDb K) → Run K
    unfolding deliver_claimed
    deliver intent_id final_attempt seen db = elim (get_by_id K intent_id seen) [
      | none ↦ ended db false "missing"
      | some intent ↦
          if status_eq intent.status sent
          then ended db true "already_sent"
          else if str_eq intent.recipient unconfigured_recipient
          then ended (bury intent intent.attempts "telegram not configured" db) false "unconfigured"
          else if world.gate_raised
          then ended (mark_buffered K intent.id "telegram gate raised" world.now db).0 false
              "gate_buffered"
          else let (after, claim) = mark_sending K intent.id world.now db in
            elim claim [
              | none ↦ ended after false "not_claimed"
              | some claimed ↦ deliver_claimed intent claimed.attempts final_attempt after
            ]
    ]
