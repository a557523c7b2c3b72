-- ===== src/Api/Alerts.antt =====
-- Alerts, services/api/app/schemas/alert.py and the documents of
-- services/api/app/repositories/alert_repository.py. A moment is a number of microseconds; an
-- ObjectId is the number that its bytes spell.
pub mod Repository
pub mod Responses
pub mod UseCase
pub mod Listing
pub mod WellFormed
pub mod Reachable
pub mod Shown
pub mod Decisions
pub mod Dispatched
mod Tests
use theft_detection_platform.Prelude.{ℕ, Bool, Option, String}

pub data Severity : Type 0 where
  severity_unspecified info notice warning critical : Severity

pub data AlertType : Type 0 where
  type_unspecified object_proximity concealment loitering : AlertType

pub data Decision : Type 0 where
  decision_unspecified confirmed dismissed unsure : Decision

pub data DecisionChannel : Type 0 where
  console telegram : DecisionChannel

pub data AlertSort : Type 0 where
  by_created_at by_decided_at : AlertSort

-- The stored document; `none` stands for a field that is missing or null.
pub record Alert : Type 0 where
  pub oid : ℕ
  pub alert_id : String
  pub session_id : ℕ
  pub frame_index : ℕ
  pub occurred_at : ℕ
  pub created_at : Option ℕ
  pub camera_id : String
  pub severity : Severity
  pub alert_type : Option AlertType
  pub object_class : Option String
  -- a name that stands outside of `object`
  pub object_name : Option String
  pub snapshot_path : Option String
  pub clip_path : Option String
  pub acknowledged : Bool
  pub acknowledged_at : Option ℕ
  pub decision : Option Decision
  pub decided_at : Option ℕ
  pub decided_by : Option String
  pub dispatch_failed : Bool

-- services/api/app/core/errors.py, as far as the alerts raise them.
pub data AppError : Type 0 where
  not_found malformed_id malformed_cursor cursor_order_mismatch window_reversed : AppError
  conflict : AppError
  request_in_progress : (retry_after : ℕ) → AppError
