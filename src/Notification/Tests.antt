-- ===== src/Notification/Tests.antt =====
-- Deliveries and sweeps on small collections, and the theorems at concrete inputs.
use theft_detection_platform.Notification.Worker.Sweep.Counts.{
  count_buffered, release_buffered_counts,
}
use theft_detection_platform.Prelude.{
  ◌+◌, ◌≤◌, ◌⊎◌, length, ℕ, String, ◌≡◌, refl, true, false, none, some, [], ◌∷◌, ok, err,
}
use theft_detection_platform.Prelude.Collection.{list_collection}
use theft_detection_platform.Notification.Records.{
  DeliveryStatus, pending, sending, sent, buffered, alert, MessageKind, TelegramMessageRef,
  DeliveryIntent, DeadLetter, permanent, transient, Collections, NotifyDb,
}
use theft_detection_platform.Notification.Repository.{
  intents, find_one_and_update, acquire, get_by_id, release_buffered, find_stale, create_letter,
  mark_sending, mark_buffered, mark_requeued,
}
use theft_detection_platform.Notification.Repository.Settled.{settled, reclaim_settled}
use theft_detection_platform.Notification.Worker.{
  World, send_plain, send_prompt, send_snapshot, dispatch_prompt, dispatch, require_clip, bury,
  on_error, on_sent, attempt, deliver_claimed, deliver,
}
use theft_detection_platform.Notification.Worker.Letters.{Buries, deliver-Buries}
use theft_detection_platform.Notification.Worker.Delivered.{HasStatus, deliver-HasStatus}
use theft_detection_platform.Notification.Worker.Attempts.{attempt_late_clip}
use theft_detection_platform.Notification.Worker.Sweep.{
  SweepSettings, retire_poison, requeue_one, sweep, stale, reconcile, drain_buffer,
}

-- Everything that a run calls.
program : Unit {0}
unfolding find_one_and_update acquire get_by_id release_buffered find_stale create_letter send_plain
    send_prompt send_snapshot dispatch_prompt dispatch require_clip bury on_error on_sent attempt
    deliver_claimed deliver retire_poison requeue_one sweep stale reconcile drain_buffer
program = tt

abbrev collections : Collections
collections = record {
  intents = list_collection DeliveryIntent;
  letters = list_collection DeadLetter;
}

abbrev intent_of : String → DeliveryStatus → ℕ → DeliveryIntent
intent_of id status requeue_count = record {
  id = id;
  source = alert;
  source_ref = id;
  recipient = "42";
  payload = [];
  trace_carrier = [];
  status = status;
  attempts = 0;
  requeue_count = requeue_count;
  attempt_started_at = none;
  last_error = none;
  telegram = none;
  telegram_snapshot = none;
  telegram_shown_at = none;
  created_at = 0;
  updated_at = 0;
}

abbrev start : NotifyDb collections
start = record {
  intents =
      intent_of "a" pending 0
      ∷ intent_of "b" sent 0
      ∷ intent_of "c" sending 3
      ∷ intent_of "d" buffered 0
      ∷ [];
  letters = [];
}

abbrev ref : TelegramMessageRef
ref = record { chat_id = 42; message_id = 7; kind = MessageKind.video }

abbrev world : World
world = record {
  now = 100;
  gate_raised = false;
  decision_keyboard = λ _. some "buttons";
  render = λ _ _. ok ("theft", none, some "clip.mp4");
  prefer_annotated = λ p. p;
  clip_missing = λ _. false;
  clip_late = λ _. false;
  send_photo = λ _ _. ok none;
  send_video = λ _ _ _ _. ok (some ref);
  send_message = λ _ _. ok none;
}

-- Telegram declines for good.
abbrev refusing : World
refusing = record world { send_video = λ _ _ _ _. err (permanent "chat not found") }

abbrev late : World
late = record world { clip_missing = λ _. true; clip_late = λ _. true }

abbrev settings : SweepSettings
settings = record {
  reconciler_enabled = true;
  reconciler_max_requeues = 3;
  poison_reason = "exceeded 3 requeues";
  sending_timeout = 10;
  pending_timeout = 20;
  gate_drain_batch = 5;
}

delivered :
    (deliver world collections "a" false start start).reply
    ≡ ok (record { delivered = true; reason = none })
unfolding program
delivered = refl

given_up :
    (deliver refusing collections "a" false start start).reply
    ≡ ok (record { delivered = false; reason = some "permanent" })
unfolding program
given_up = refl

-- The sweep requeues "a" and retires "c".
swept :
    (reconcile world settings collections start).1 ≡ record { requeued = 1; poison = 1; raced = 0 }
unfolding program
swept = refl

deliver-Buries_example : Buries "a" [] (deliver refusing collections "a" false start start)
deliver-Buries_example = deliver-Buries refusing collections "a" false start start

deliver-HasStatus_example :
    HasStatus collections "a" sent (deliver world collections "a" false start start).db
unfolding program
deliver-HasStatus_example =
    deliver-HasStatus world collections "a" false start start {d = intent_of "a" pending 0}
      {status = sent} refl refl

reclaim_settled_example :
    (settled (intents collections (mark_sending collections "b" 100 start).0)
      ≡ settled (intents collections start))
    × (settled (intents collections (mark_buffered collections "b" "gate" 100 start).0)
        ≡ settled (intents collections start))
    × (settled (intents collections (mark_requeued collections "b" 90 100 start).0)
        ≡ settled (intents collections start))
    × (settled (intents collections (release_buffered collections 5 100 start).0)
        ≡ settled (intents collections start))
reclaim_settled_example = reclaim_settled collections "b" "gate" 90 5 100 start

attempt_late_clip_example :
    ((attempt late collections
        (intent_of "a" pending 0)
        0
        false
        "theft"
        none
        (some "clip.mp4")
        start).reply
      ≡ err (transient "clip not written yet"))
    × ((d' : DeliveryIntent) × (get_by_id collections "a"
            (attempt late collections
              (intent_of "a" pending 0)
              0
              false
              "theft"
              none
              (some "clip.mp4")
              start).db
          ≡ some d')
        × (d'.attempts ≡ 2))
unfolding program
attempt_late_clip_example =
    attempt_late_clip late collections (intent_of "a" pending 0) 0 "theft" none (some "clip.mp4")
      start {path = "clip.mp4"} {d = intent_of "a" pending 0} refl refl refl refl

release_buffered_counts_example :
    (count_buffered (intents collections (release_buffered collections 5 100 start).0)
        + length (release_buffered collections 5 100 start).1
      ≡ count_buffered (intents collections start))
    × (length (release_buffered collections 5 100 start).1 ≤ 5)
    × ((length (release_buffered collections 5 100 start).1 ≡ 5)
        ⊎ (count_buffered (intents collections (release_buffered collections 5 100 start).0) ≡ 0))
release_buffered_counts_example = release_buffered_counts collections 5 100 start
