-- ===== src/Api/Alerts/UseCase.antt =====
-- `create`, `acknowledge`, `decide`, `delete` and `get` of
-- services/api/app/usecases/alert_usecase.py. What a call tells Redis, the audit service and the
-- notification service is the list of its effects, in order; the parsing of an ObjectId and the
-- replies of the notification service are parameters.
use theft_detection_platform.Prelude.{
  ℕ, zero, suc, ◌+◌, ◌*◌, ◌==◌, Bool, true, false, not, Option, none, some, List, [], ◌∷◌, ◌++◌,
  String, str_eq, if◌then◌else◌, Result, ok, err, ◌>>=◌, is_some,
}
use theft_detection_platform.Prelude.Collection.{Collection}
use theft_detection_platform.Api.Alerts.{
  Severity, AlertType, Decision, decision_unspecified, DecisionChannel, Alert, AppError, not_found,
  malformed_id,
}
use theft_detection_platform.Api.Alerts.Repository.{
  decision_eq, get_alert, insert_once, acknowledge_alert, decide_alert, set_dispatch_failed,
  delete_alert,
}
use theft_detection_platform.Api.Alerts.Responses.{
  AlertResponse, AlertDetail, DeliveryStatusView, Files, or_else, to_response, to_detail, file_path,
}

pub data Event : Type 0 where
  created updated acknowledged decided deleted : Event

pub data Effect : Type 0 where
  invalidate_lists invalidate_counts invalidate_cameras : Effect
  publish : Event → AlertResponse → Effect
  emit_acknowledged : (oid : ℕ) (actor_user_id : String) → Effect
  emit_decided :
      (oid : ℕ) (actor_user_id : String) (decision previous_decision : Decision)
      → DecisionChannel
      → Effect
  emit_deleted : (oid : ℕ) (actor_user_id : String) → Effect
  notify_decision : (alert_id : String) → Decision → (decided_by : String) (decided_at : ℕ) → Effect

-- What one call of the notification service comes to: the alert is taken, `AlertRejectedError` or
-- `AlertUnavailableError`.
pub data SendReply : Type 0 where
  taken rejected unavailable : SendReply

-- How a dispatch ends: whether the alert was taken, how often it was sent, and the pauses, in
-- milliseconds.
pub record Dispatch : Type 0 where
  pub dispatched : Bool
  pub sends : ℕ
  pub sleeps : List ℕ

abbrev pub dispatch_attempts : ℕ
dispatch_attempts = 3

abbrev pub dispatch_backoff : ℕ
dispatch_backoff = 500

abbrev pub after_pause : ℕ → Dispatch → Dispatch
after_pause delay d = record {
  dispatched = d.dispatched;
  sends = suc d.sends;
  sleeps = delay ∷ d.sleeps;
}

-- The loop of `_dispatch`, with the attempts that the range still has.
unfoldable pub dispatch_loop : (left attempt delay : ℕ) (send : ℕ → SendReply) → Dispatch
dispatch_loop zero attempt delay send = record { dispatched = false; sends = 0; sleeps = [] }
dispatch_loop (suc left) attempt delay send =
    let rest = dispatch_loop left (attempt + 1) (delay * 2) send in
    elim (send attempt) [
      | rejected ↦ record { dispatched = false; sends = 1; sleeps = [] }
      | taken ↦ record { dispatched = true; sends = 1; sleeps = [] }
      | unavailable ↦
          if attempt == dispatch_attempts
          then record { dispatched = false; sends = 1; sleeps = [] }
          else after_pause delay rest
    ]

unfoldable pub dispatch : (send : ℕ → SendReply) → Dispatch
dispatch send = dispatch_loop dispatch_attempts 1 dispatch_backoff send

-- `AlertCreate`
pub record AlertCreate : Type 0 where
  pub alert_id : String
  pub session_id : ℕ
  pub frame_index : ℕ
  pub occurred_at : ℕ
  pub camera_id : String
  pub severity : Severity
  pub alert_type : AlertType
  pub object_class : Option String
  pub snapshot_path : Option String
  pub clip_path : Option String

-- The document of a new alert, under the key that MongoDB gives it.
unfoldable pub new_alert : AlertCreate → (oid now : ℕ) → Alert
new_alert p oid now = record {
  oid = oid;
  alert_id = p.alert_id;
  session_id = p.session_id;
  frame_index = p.frame_index;
  occurred_at = p.occurred_at;
  created_at = some now;
  camera_id = p.camera_id;
  severity = p.severity;
  alert_type = some p.alert_type;
  object_class = p.object_class;
  object_name = none;
  snapshot_path = p.snapshot_path;
  clip_path = p.clip_path;
  acknowledged = false;
  acknowledged_at = none;
  decision = some decision_unspecified;
  decided_at = none;
  decided_by = none;
  dispatch_failed = false;
}

module _ (C : Collection Alert) (files : Files) (parse_oid : String → Option ℕ) where
  pub record Answer (Body : Type 0) : Type 0 where
    pub body : Body
    pub db : Collection.State C
    pub effects : List Effect

  -- `_oid`
  unfoldable pub read_oid : String → Result AppError ℕ
  read_oid id = elim (parse_oid id) [ none ↦ err malformed_id | some oid ↦ ok oid ]

  -- The end of `create` where the alert was not dispatched.
  unfoldable pub mark_undispatched : Alert → Answer AlertResponse → Answer AlertResponse
  mark_undispatched a answer =
      let (db1, stored) = set_dispatch_failed C a.oid answer.db in
      elim stored [
        | none ↦ record answer { db = db1 }
        | some x ↦ record {
          body = to_response files x;
          db = db1;
          effects = answer.effects ++ invalidate_lists ∷ publish updated (to_response files x) ∷ [];
        }
      ]

  unfoldable pub create :
      AlertCreate → (oid now : ℕ) (send : ℕ → SendReply) → Collection.State C → Answer AlertResponse
  create p oid now send db =
      let (db1, a, inserted) = insert_once C (new_alert p oid now) db in
      let answer : Answer AlertResponse = record {
        body = to_response files a;
        db = db1;
        effects =
            invalidate_lists
            ∷ invalidate_cameras
            ∷ invalidate_counts
            ∷ publish created (to_response files a)
            ∷ [];
      } in
      if not inserted
      then record { body = to_response files a; db = db1; effects = [] }
      else if (dispatch send).dispatched
      then answer
      else mark_undispatched a answer

  -- `delivery_status` is what the notification service answers.
  unfoldable pub get :
      (delivery_status : String → Option DeliveryStatusView)
      → String
      → Collection.State C
      → Result AppError AlertDetail
  get delivery_status alert_id db = read_oid alert_id >>= λ oid. elim (get_alert C oid db) [
    | none ↦ err not_found
    | some a ↦
        if str_eq a.alert_id ""
        then ok (to_detail files a)
        else ok (record (to_detail files a) { delivery = delivery_status a.alert_id })
  ]

  -- `snapshot_path` and `clip_path`, by the field that they read.
  unfoldable pub path_of :
      (stored : Alert → Option String) → String → Collection.State C → Result AppError String
  path_of stored alert_id db = read_oid alert_id >>= λ oid. elim (get_alert C oid db) [
    | none ↦ err not_found
    | some a ↦ elim (file_path files (stored a)) [ none ↦ err not_found | some path ↦ ok path ]
  ]

  unfoldable pub acknowledge :
      String
      → (actor_id : String) (now : ℕ) → Collection.State C
      → Result AppError (Answer AlertResponse)
  acknowledge alert_id actor_id now db = read_oid alert_id >>= λ oid.
      let (db1, stored, acked_now) = acknowledge_alert C oid now db in
      elim stored [
        | none ↦ err not_found
        | some a ↦ ok (record {
          body = to_response files a;
          db = db1;
          effects =
              if acked_now
              then invalidate_lists
                ∷ invalidate_counts
                ∷ publish acknowledged (to_response files a)
                ∷ emit_acknowledged a.oid actor_id
                ∷ []
              else [];
        })
      ]

  -- The detail, and whether the call has changed the decision.
  unfoldable pub decide :
      String
      → Decision
      → (actor_id actor_name : String) → DecisionChannel
      → (only_if_undecided : Bool) (now : ℕ) → Collection.State C
      → Result AppError (Answer (AlertDetail × Bool))
  decide alert_id decision actor_id actor_name channel only_if_undecided now db =
      read_oid alert_id >>= λ oid.
      let (db1, stored, previous) = decide_alert C oid decision actor_id only_if_undecided now db in
      elim stored [
        | none ↦ err not_found
        | some a ↦ ok (record {
          body = (to_detail files a, is_some previous);
          db = db1;
          effects = elim previous [
            | none ↦ []
            | some before ↦
                invalidate_lists
                ∷ invalidate_counts
                ∷ publish decided (to_response files a)
                ∷ emit_decided a.oid actor_id decision before channel
                ∷ notify_decision a.alert_id decision
                    (if decision_eq decision decision_unspecified then "" else actor_name)
                    (or_else a.decided_at now)
                ∷ []
          ];
        })
      ]

  unfoldable pub delete :
      String → (actor_id : String) → Collection.State C → Result AppError (Answer (Unit {0}))
  delete alert_id actor_id db = read_oid alert_id >>= λ oid.
      let (db1, deleted_one) = delete_alert C oid db in
      elim (get_alert C oid db) [
        | none ↦ err not_found
        | some a ↦
            if deleted_one
            then ok (record {
              body = tt;
              db = db1;
              effects =
                  invalidate_lists
                  ∷ invalidate_counts
                  ∷ invalidate_cameras
                  ∷ publish deleted (to_response files a)
                  ∷ emit_deleted a.oid actor_id
                  ∷ [];
            })
            else err not_found
      ]
