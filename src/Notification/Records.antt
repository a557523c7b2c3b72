-- ===== src/Notification/Records.antt =====
-- services/notification/app/shared/schemas/delivery.py, and what the worker gets from Telegram. A
-- payload is kept as the bytes of its document, a moment as a number of microseconds.
use theft_detection_platform.Prelude.{ℕ, String, Bool, true, false, Option, List, Bytes}
use theft_detection_platform.Prelude.Collection.{Collection}

pub data DeliveryStatus : Type 0 where
  pending sending sent failed dead buffered : DeliveryStatus

pub data DeliverySource : Type 0 where
  alert alertmanager : DeliverySource

pub data MessageKind : Type 0 where
  video photo text : MessageKind

pub record TelegramMessageRef : Type 0 where
  pub chat_id : ℕ
  pub message_id : ℕ
  pub kind : MessageKind

-- `channel` has one value, "telegram".
pub record DeliveryIntent : Type 0 where
  pub id : String
  pub source : DeliverySource
  pub source_ref : String
  pub recipient : String
  pub payload : Bytes
  pub trace_carrier : List (String × String)
  pub status : DeliveryStatus
  pub attempts : ℕ
  pub requeue_count : ℕ
  pub attempt_started_at : Option ℕ
  pub last_error : Option String
  pub telegram : Option TelegramMessageRef
  pub telegram_snapshot : Option TelegramMessageRef
  pub telegram_shown_at : Option ℕ
  pub created_at : ℕ
  pub updated_at : ℕ

pub record DeadLetter : Type 0 where
  pub source : DeliverySource
  pub source_ref : String
  pub recipient : String
  pub payload : Bytes
  pub trace_carrier : List (String × String)
  pub attempts : ℕ
  pub last_error : Option String
  pub intent_id : Option String
  pub created_at : ℕ

-- `TelegramUnreachableError`, `TelegramPermanentError` and the other `TelegramError`s.
pub data TelegramError : Type 0 where
  unreachable permanent transient : String → TelegramError

abbrev pub source_eq : DeliverySource → DeliverySource → Bool
source_eq alert alert = true
source_eq alertmanager alertmanager = true
source_eq _ _ = false

abbrev pub status_eq : DeliveryStatus → DeliveryStatus → Bool
status_eq pending pending = true
status_eq sending sending = true
status_eq sent sent = true
status_eq failed failed = true
status_eq dead dead = true
status_eq buffered buffered = true
status_eq _ _ = false

pub record Collections : Type 1 where
  pub intents : Collection DeliveryIntent
  pub letters : Collection DeadLetter

pub record NotifyDb (K : Collections) : Type 0 where
  pub intents : Collection.State K.intents
  pub letters : Collection.State K.letters
