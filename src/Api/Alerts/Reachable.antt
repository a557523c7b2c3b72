-- ===== src/Api/Alerts/Reachable.antt =====
-- The databases that the operations of services/api/app/usecases/alert_usecase.py reach, in any
-- order, and what the pages show of them.
use theft_detection_platform.Prelude.{
  ℕ, ◌≡◌, refl, sym, subst, Bool, not, ◌&&◌, inl, inr, Option, none, arith, String, str_eq, find?,
  Bool-cases, Option-cases, Result-cases, ok,
}
use theft_detection_platform.Prelude.Collection.{Collection}
use theft_detection_platform.Api.Alerts.{Alert, Decision, DecisionChannel}
use theft_detection_platform.Api.Alerts.Repository.{
  with_oid, decidable, alerts, get_alert, insert_once, acknowledge_alert, decide_alert,
  set_dispatch_failed, delete_alert,
}
use theft_detection_platform.Api.Alerts.Responses.{AlertResponse, AlertDetail, Files}
use theft_detection_platform.Api.Alerts.UseCase.{
  SendReply, dispatch, AlertCreate, new_alert, Answer, read_oid, mark_undispatched, create,
  acknowledge, decide, delete,
}
use theft_detection_platform.Api.Alerts.WellFormed.{
  IsWellFormed, update-IsWellFormed, insert-IsWellFormed, delete-IsWellFormed, decided_oid,
}

module _ (C : Collection Alert) where
  insert_once-IsWellFormed :
      (p : AlertCreate) (oid now : ℕ) (db : Collection.State C)
      → get_alert C oid db ≡ none
      → IsWellFormed (alerts C db)
      → IsWellFormed (alerts C (insert_once C (new_alert p oid now) db).0)
  unfolding insert_once
  insert_once-IsWellFormed p oid now db fresh w =
      elim (Option-cases
        (find? (λ x. str_eq x.alert_id (new_alert p oid now).alert_id) (alerts C db))) [
          | inl none_ ↦
              rw (insert_once, none_)
                (rw (Collection.docs-insert_one C)
                  (insert-IsWellFormed (alerts C db) p oid now fresh w))
          | inr (a, found) ↦ rw (insert_once, found) w
        ]

  set_dispatch_failed-IsWellFormed :
      (oid : ℕ) (db : Collection.State C)
      → IsWellFormed (alerts C db)
      → IsWellFormed (alerts C (set_dispatch_failed C oid db).0)
  unfolding set_dispatch_failed
  set_dispatch_failed-IsWellFormed oid db w =
      rw (Collection.docs-update_one C)
        (update-IsWellFormed _ _ (alerts C db) (λ a. refl) (λ a. refl) (λ a h. h) w)

  acknowledge_alert-IsWellFormed :
      (oid now : ℕ) (db : Collection.State C)
      → IsWellFormed (alerts C db)
      → IsWellFormed (alerts C (acknowledge_alert C oid now db).0)
  unfolding acknowledge_alert
  acknowledge_alert-IsWellFormed oid now db w =
      elim (Option-cases (find? (λ a. with_oid oid a && not a.acknowledged) (alerts C db))) [
        | inl none_ ↦ rw (acknowledge_alert, none_) w
        | inr (a, found) ↦
            rw (acknowledge_alert, found)
              (rw (Collection.docs-update_one C)
                (update-IsWellFormed _ _ (alerts C db) (λ a. refl) (λ a. refl) (λ a h. h) w))
      ]

  decide_alert-IsWellFormed :
      (oid : ℕ) (decision : Decision) (actor_id : String) (only_if_undecided : Bool) (now : ℕ)
      (db : Collection.State C)
      → IsWellFormed (alerts C db)
      → IsWellFormed (alerts C (decide_alert C oid decision actor_id only_if_undecided now db).0)
  unfolding decide_alert
  decide_alert-IsWellFormed oid decision actor_id only_if_undecided now db w =
      elim (Option-cases (find? (decidable oid decision only_if_undecided) (alerts C db))) [
        | inl none_ ↦ rw (decide_alert, none_) w
        | inr (a, found) ↦
            rw (decide_alert, found)
              (rw (Collection.docs-update_one C) (
                update-IsWellFormed _ _ (alerts C db) (λ a. (decided_oid decision actor_id now a).0)
                  (λ a. (decided_oid decision actor_id now a).1)
                  (λ a h. (decided_oid decision actor_id now a).2) w))
      ]

  delete_alert-IsWellFormed :
      (oid : ℕ) (db : Collection.State C)
      → IsWellFormed (alerts C db)
      → IsWellFormed (alerts C (delete_alert C oid db).0)
  unfolding delete_alert
  delete_alert-IsWellFormed oid db w =
      rw (Collection.docs-delete_one C) (delete-IsWellFormed _ (alerts C db) w)

  module _ (files : Files) (parse_oid : String → Option ℕ) where
    -- One call of the use case that is answered without an error; a new document gets a key that
    -- no document has.
    pub data Step (db : Collection.State C) : Collection.State C → Type 0 where
      created :
          (p : AlertCreate) (oid now : ℕ) (send : ℕ → SendReply)
          → get_alert C oid db ≡ none
          → Step db (create C files parse_oid p oid now send db).db
      acknowledged :
          (alert_id actor_id : String) (now : ℕ) (answer : Answer C files parse_oid AlertResponse)
          → acknowledge C files parse_oid alert_id actor_id now db ≡ ok answer
          → Step db answer.db
      decision_taken :
          (alert_id : String) (decision : Decision) (actor_id actor_name : String)
          (channel : DecisionChannel) (only_if_undecided : Bool) (now : ℕ)
          (answer : Answer C files parse_oid (AlertDetail × Bool))
          → decide C files parse_oid alert_id decision actor_id actor_name channel only_if_undecided
              now db
            ≡ ok answer
          → Step db answer.db
      deleted :
          (alert_id actor_id : String) (answer : Answer C files parse_oid (Unit {0}))
          → delete C files parse_oid alert_id actor_id db ≡ ok answer
          → Step db answer.db

    pub data Reachable (start : Collection.State C) : Collection.State C → Type 0 where
      here : Reachable start start
      after :
          (db next : Collection.State C) → Reachable start db → Step db next → Reachable start next

    mark_undispatched_db :
        (a : Alert) (answer : Answer C files parse_oid AlertResponse)
        → (mark_undispatched C files parse_oid a answer).db
          ≡ (set_dispatch_failed C a.oid answer.db).0
    unfolding mark_undispatched
    mark_undispatched_db a answer = elim (Option-cases (set_dispatch_failed C a.oid answer.db).1) [
      | inl gone ↦ ground arith
      | inr (x, stored) ↦ ground arith
    ]

    create-IsWellFormed :
        (p : AlertCreate) (oid now : ℕ) (send : ℕ → SendReply) (db : Collection.State C)
        → get_alert C oid db ≡ none
        → IsWellFormed (alerts C db)
        → IsWellFormed (alerts C (create C files parse_oid p oid now send db).db)
    unfolding create
    create-IsWellFormed p oid now send db fresh w =
        let stored = insert_once-IsWellFormed p oid now db fresh w in
        elim (Bool-cases (insert_once C (new_alert p oid now) db).2) [
          | inr known ↦ rw known stored
          | inl new ↦ rw new (elim (Bool-cases (dispatch send).dispatched) [
            | inl taken ↦ rw taken stored
            | inr lost ↦
                rw (lost, mark_undispatched_db)
                  (set_dispatch_failed-IsWellFormed (insert_once C (new_alert p oid now) db).1.oid
                    (insert_once C (new_alert p oid now) db).0 stored)
          ])
        ]

    acknowledge_db :
        (alert_id actor_id : String) (now : ℕ) (db : Collection.State C)
        {answer : Answer C files parse_oid AlertResponse}
        → acknowledge C files parse_oid alert_id actor_id now db ≡ ok answer
        → (oid : ℕ) × (answer.db ≡ (acknowledge_alert C oid now db).0)
    unfolding acknowledge
    acknowledge_db alert_id actor_id now db {answer} h =
        elim (Result-cases (read_oid C files parse_oid alert_id)) [
          | inr (e, malformed) ↦ absurd (ground arith)
          | inl (oid, read) ↦ (
            oid,
            elim (Option-cases (acknowledge_alert C oid now db).1) [
              | inl gone ↦ absurd (ground arith)
              | inr (a, stored) ↦ ground arith
            ],
          )
        ]

    decide_db :
        (alert_id : String) (decision : Decision) (actor_id actor_name : String)
        (channel : DecisionChannel) (only_if_undecided : Bool) (now : ℕ) (db : Collection.State C)
        {answer : Answer C files parse_oid (AlertDetail × Bool)}
        → decide C files parse_oid alert_id decision actor_id actor_name channel only_if_undecided
            now db
          ≡ ok answer
        → (oid : ℕ) × (answer.db
            ≡ (decide_alert C oid decision actor_id only_if_undecided now db).0)
    unfolding decide
    decide_db alert_id decision actor_id actor_name channel only_if_undecided now db {answer} h =
        elim (Result-cases (read_oid C files parse_oid alert_id)) [
          | inr (e, malformed) ↦ absurd (ground arith)
          | inl (oid, read) ↦ (
            oid,
            elim (Option-cases (decide_alert C oid decision actor_id only_if_undecided now db).1) [
              | inl gone ↦ absurd (ground arith)
              | inr (a, stored) ↦ ground arith
            ],
          )
        ]

    delete_db :
        (alert_id actor_id : String) (db : Collection.State C)
        {answer : Answer C files parse_oid (Unit {0})}
        → delete C files parse_oid alert_id actor_id db ≡ ok answer
        → (oid : ℕ) × (answer.db ≡ (delete_alert C oid db).0)
    unfolding delete
    delete_db alert_id actor_id db {answer} h =
        elim (Result-cases (read_oid C files parse_oid alert_id)) [
          | inr (e, malformed) ↦ absurd (ground arith)
          | inl (oid, read) ↦ (
            oid,
            elim (Option-cases (get_alert C oid db)) [
              | inl gone ↦ absurd (ground arith)
              | inr (a, stored) ↦ ground arith
            ],
          )
        ]

    step-IsWellFormed :
        {db next : Collection.State C}
        → Step db next
        → IsWellFormed (alerts C db)
        → IsWellFormed (alerts C next)
    step-IsWellFormed {db} (created p oid now send fresh) w =
        create-IsWellFormed p oid now send db fresh w
    step-IsWellFormed {db} (acknowledged alert_id actor_id now answer h) w =
        let (oid, same) = acknowledge_db alert_id actor_id now db {answer = answer} h in
        subst (λ d. IsWellFormed (alerts C d)) (sym same)
          (acknowledge_alert-IsWellFormed oid now db w)
    step-IsWellFormed {db}
          (decision_taken alert_id decision actor_id actor_name channel only_if_undecided now answer
            h)
          w =
        let (oid, same) =
          decide_db alert_id decision actor_id actor_name channel only_if_undecided now db
            {answer = answer} h in
        subst (λ d. IsWellFormed (alerts C d)) (sym same)
          (decide_alert-IsWellFormed oid decision actor_id only_if_undecided now db w)
    step-IsWellFormed {db} (deleted alert_id actor_id answer h) w =
        let (oid, same) = delete_db alert_id actor_id db {answer = answer} h in
        subst (λ d. IsWellFormed (alerts C d)) (sym same) (delete_alert-IsWellFormed oid db w)

    -- Over any sequence of calls from a well-formed database, no two documents have the same
    -- ObjectId, every document has the date of its creation, and a document has the date and the
    -- name of a decision exactly where it has a decision.
    pub reachable-IsWellFormed :
        (start db : Collection.State C)
        → IsWellFormed (alerts C start)
        → Reachable start db
        → IsWellFormed (alerts C db)
    reachable-IsWellFormed start _ w here = w
    reachable-IsWellFormed start _ w (after db next run step) =
        step-IsWellFormed step (reachable-IsWellFormed start db w run)
