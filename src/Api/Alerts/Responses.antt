-- ===== src/Api/Alerts/Responses.antt =====
-- What the alerts' use case answers with, services/api/app/usecases/alert_usecase.py and the schemas
-- alert.py and delivery.py. The resolution of a stored path in the snapshots' folder and the text
-- of an ObjectId are parameters; confidences and boxes are left out.
use theft_detection_platform.Prelude.{
  ℕ, Bool, true, false, Option, none, some, List, [], ◌∷◌, map, String, str_append, str_eq, max,
  max_by, if◌then◌else◌,
}
use theft_detection_platform.Api.Alerts.{
  Severity, AlertType, type_unspecified, object_proximity, concealment, loitering, Decision, Alert,
}
use theft_detection_platform.Api.Alerts.Repository.{decision_of}

pub data DeliveryState : Type 0 where
  unknown pending sending delivered failed dead buffered : DeliveryState

pub record DeliveryRecord : Type 0 where
  pub channel : String
  pub recipient : String
  pub state : DeliveryState
  pub attempts : ℕ

pub record DeliveryStatusView : Type 0 where
  pub known : Bool
  pub records : List DeliveryRecord

pub record DeliverySummary : Type 0 where
  pub known : Bool
  pub state : DeliveryState
  pub attempts : ℕ

-- `_STATE_SEVERITY`
abbrev pub state_severity : DeliveryState → ℕ
state_severity delivered = 0
state_severity pending = 1
state_severity sending = 1
state_severity buffered = 2
state_severity failed = 3
state_severity dead = 4
state_severity unknown = 5

abbrev pub most_attempts : List DeliveryRecord → ℕ
most_attempts [] = 0
most_attempts (r ∷ records) = max r.attempts (most_attempts records)

-- `_summarise`; of records that are equally bad the first one counts.
unfoldable pub summarise : Option DeliveryStatusView → Option DeliverySummary
summarise none = none
summarise (some view) =
    elim (max_by (λ (r : DeliveryRecord). state_severity r.state) view.records) [
      | none ↦ some (record { known = false; state = unknown; attempts = 0 })
      | some worst ↦ some (
          if view.known
          then record { known = true; state = worst.state; attempts = most_attempts view.records }
          else record { known = false; state = unknown; attempts = 0 })
    ]

pub record AlertResponse : Type 0 where
  pub id : ℕ
  pub alert_id : String
  pub session_id : ℕ
  pub occurred_at : ℕ
  pub created_at : ℕ
  pub camera_id : String
  pub severity : Severity
  pub object_name : String
  pub snapshot_url : Option String
  pub alert_type : AlertType
  pub acknowledged : Bool
  pub acknowledged_at : Option ℕ
  pub decision : Decision
  pub decided_at : Option ℕ
  pub decided_by : Option String
  pub dispatch_failed : Bool
  pub delivery : Option DeliverySummary

pub record AlertDetail : Type 0 where
  pub id : ℕ
  pub alert_id : String
  pub session_id : ℕ
  pub frame_index : ℕ
  pub occurred_at : ℕ
  pub created_at : ℕ
  pub camera_id : String
  pub severity : Severity
  pub alert_type : AlertType
  pub acknowledged : Bool
  pub acknowledged_at : Option ℕ
  pub decision : Decision
  pub decided_at : Option ℕ
  pub decided_by : Option String
  pub snapshot_url : Option String
  pub clip_url : Option String
  pub dispatch_failed : Bool
  pub delivery : Option DeliveryStatusView

-- `a or b` where the left side may be missing.
abbrev pub or_else {ℓ} : {A : Type ℓ} → Option A → A → A
or_else none b = b
or_else (some a) b = a

-- The empty string is false.
abbrev pub nonempty : Option String → Option String
nonempty none = none
nonempty (some s) = if str_eq s "" then none else some s

-- `_readable_alert_type` on the names of the types.
abbrev pub readable_alert_type : AlertType → String
readable_alert_type type_unspecified = "unspecified"
readable_alert_type object_proximity = "object proximity"
readable_alert_type concealment = "concealment"
readable_alert_type loitering = "loitering"

-- Whether the folder of the snapshots has the file, `_resolve_snapshot`, and `str(_id)`.
pub record Files : Type 0 where
  pub resolve_snapshot : String → Option String
  pub show_oid : ℕ → String

module _ (files : Files) where
  -- `_snapshot_url` and `_clip_url`
  unfoldable pub file_url : (suffix : String) (oid : ℕ) → (stored : Option String) → Option String
  file_url suffix oid stored = elim (nonempty stored) [
    | none ↦ none
    | some path ↦ elim (files.resolve_snapshot path) [
      | none ↦ none
      | some _ ↦ some (str_append "/api/v1/alerts/" (str_append (files.show_oid oid) suffix))
    ]
  ]

  unfoldable pub to_response : Alert → AlertResponse
  to_response a =
      let alert_type = or_else a.alert_type type_unspecified in
      record {
        id = a.oid;
        alert_id = a.alert_id;
        session_id = a.session_id;
        occurred_at = a.occurred_at;
        created_at = or_else a.created_at a.occurred_at;
        camera_id = a.camera_id;
        severity = a.severity;
        object_name =
            or_else (nonempty a.object_class)
              (or_else (nonempty a.object_name) (readable_alert_type alert_type));
        snapshot_url = file_url "/snapshot" a.oid a.snapshot_path;
        alert_type = alert_type;
        acknowledged = a.acknowledged;
        acknowledged_at = a.acknowledged_at;
        decision = decision_of a;
        decided_at = a.decided_at;
        decided_by = a.decided_by;
        dispatch_failed = a.dispatch_failed;
        delivery = none;
      }

  unfoldable pub to_detail : Alert → AlertDetail
  to_detail a = record {
    id = a.oid;
    alert_id = a.alert_id;
    session_id = a.session_id;
    frame_index = a.frame_index;
    occurred_at = a.occurred_at;
    created_at = or_else a.created_at a.occurred_at;
    camera_id = a.camera_id;
    severity = a.severity;
    alert_type = or_else a.alert_type type_unspecified;
    acknowledged = a.acknowledged;
    acknowledged_at = a.acknowledged_at;
    decision = decision_of a;
    decided_at = a.decided_at;
    decided_by = a.decided_by;
    snapshot_url = file_url "/snapshot" a.oid a.snapshot_path;
    clip_url = file_url "/clip" a.oid a.clip_path;
    dispatch_failed = a.dispatch_failed;
    delivery = none;
  }

  -- `_attach_delivery`; `views` is the answer of the notification service.
  unfoldable pub attach_delivery :
      (views : String → Option DeliveryStatusView) → List AlertResponse → List AlertResponse
  attach_delivery views items =
      map (λ (r : AlertResponse). record r { delivery = summarise (views r.alert_id) }) items

  -- `snapshot_path` and `clip_path` answer with the file, if there is one.
  unfoldable pub file_path : Option String → Option String
  file_path stored = elim (nonempty stored) [
    | none ↦ none
    | some path ↦ files.resolve_snapshot path
  ]
