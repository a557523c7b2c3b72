-- ===== src/Ai/Presence.antt =====
-- services/ai/app/presence_servicer.py. A dictionary is a function from its keys; a moment of the
-- monotonic clock is a number of microseconds, and so are the two settings.
pub mod History
mod Tests
use theft_detection_platform.Prelude.{
  ℕ, ◌-◌, ◌≡◌, Bool, true, false, not, ◌&&◌, Option, none, some, List, [], ◌∷◌, String, str_eq, ltb,
  leb, any, is_some, ◌==◌, if◌then◌else◌,
}

pub data PresenceEventKind : Type 0 where
  unspecified : PresenceEventKind
  person_entered : PresenceEventKind
  person_left : PresenceEventKind
  heartbeat : PresenceEventKind

pub record PresenceEvent : Type 0 where
  pub event_id : String
  pub camera_id : String
  pub kind : PresenceEventKind

pub data AckStatus : Type 0 where
  accepted : AckStatus
  dropped_duplicate : AckStatus
  dropped_stale : AckStatus

pub record PresenceAck : Type 0 where
  pub event_id : String
  pub status : AckStatus

pub record PresenceServicer : Type 0 where
  pub lease_seconds : ℕ
  pub absent_holdoff_seconds : ℕ
  pub state_by_camera : String → Option ℕ
  pub changed_at : String → Option ℕ
  pub last_signal : String → Option ℕ
  pub seen_by_camera : String → List String

unfoldable pub new_servicer : (lease_seconds absent_holdoff_seconds : ℕ) → PresenceServicer
new_servicer lease_seconds absent_holdoff_seconds = record {
  lease_seconds = lease_seconds;
  absent_holdoff_seconds = absent_holdoff_seconds;
  state_by_camera = λ camera. none;
  changed_at = λ camera. none;
  last_signal = λ camera. none;
  seen_by_camera = λ camera. [];
}

-- `_KIND_TO_GAUGE.get`
abbrev pub kind_to_gauge : PresenceEventKind → Option ℕ
kind_to_gauge person_entered = some 1
kind_to_gauge person_left = some 0
kind_to_gauge _ = none

abbrev pub is_heartbeat : PresenceEventKind → Bool
is_heartbeat heartbeat = true
is_heartbeat _ = false

-- `d[key] = value`
abbrev pub set_item {ℓ} : {A : Type ℓ} → String → A → (String → A) → String → A
set_item key value d k = if str_eq k key then value else d k

-- `d.get(key, default)`
abbrev pub or_default : ℕ → Option ℕ → ℕ
or_default default none = default
or_default default (some n) = n

-- Whether a camera's state is this one.
abbrev pub has_state : ℕ → Option ℕ → Bool
has_state gauge none = false
has_state gauge (some n) = n == gauge

-- `presence_value`
unfoldable pub presence_value : (camera : String) → PresenceServicer → ℕ
presence_value camera s = or_default 0 (s.state_by_camera camera)

unfoldable pub is_absent : (camera : String) (now : ℕ) → PresenceServicer → Bool
is_absent camera now s =
    if not (has_state 0 (s.state_by_camera camera))
    then false
    else if ltb s.lease_seconds (now - or_default 0 (s.last_signal camera))
    then false
    else leb s.absent_holdoff_seconds (now - or_default now (s.changed_at camera))

abbrev pub is_seen : PresenceEvent → PresenceServicer → Bool
is_seen e s = any (str_eq e.event_id) (s.seen_by_camera e.camera_id)

-- What an event that counts does.
abbrev pub set_state : (now gauge : ℕ) → PresenceEvent → PresenceServicer → PresenceServicer
set_state now gauge e s = record s {
  last_signal = set_item e.camera_id (some now) s.last_signal;
  changed_at =
      if has_state gauge (s.state_by_camera e.camera_id)
      then s.changed_at
      else set_item e.camera_id (some now) s.changed_at;
  state_by_camera = set_item e.camera_id (some gauge) s.state_by_camera;
}

abbrev pub mark_seen : PresenceEvent → PresenceServicer → PresenceServicer
mark_seen e s = record s {
  seen_by_camera =
      set_item e.camera_id (e.event_id ∷ s.seen_by_camera e.camera_id) s.seen_by_camera;
}

abbrev pub ack : PresenceEvent → AckStatus → PresenceAck
ack e status = record { event_id = e.event_id; status = status }

-- `_handle`, at a moment of the clock.
unfoldable pub handle :
    (now : ℕ) → PresenceEvent → PresenceServicer → PresenceServicer × PresenceAck
handle now e s =
    if is_heartbeat e.kind
    then (record s { last_signal = set_item e.camera_id (some now) s.last_signal }, ack e accepted)
    else if is_seen e s
    then (s, ack e dropped_duplicate)
    else elim (kind_to_gauge e.kind) [
      | none ↦ (mark_seen e s, ack e dropped_stale)
      | some gauge ↦ (set_state now gauge e (mark_seen e s), ack e accepted)
    ]
