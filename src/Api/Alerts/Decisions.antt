-- ===== src/Api/Alerts/Decisions.antt =====
-- A decision that is taken only once, services/api/app/usecases/alert_usecase.py.
use theft_detection_platform.Prelude.{
  ℕ, ◌≡◌, ◌≢◌, refl, sym, ap, ◌∙◌, subst, Bool, true, false, inl, inr, Option, none, List, [], ◌∷◌,
  arith, String, is_some, find?, Bool-cases, Option-cases, Result-cases, ok, err, All,
}
use theft_detection_platform.Prelude.Collection.{Collection, update_first}
use theft_detection_platform.Prelude.Sorting.{IsKeyed}
use theft_detection_platform.Api.Alerts.{
  Alert, Decision, decision_unspecified, confirmed, dismissed, unsure, DecisionChannel, AppError,
}
use theft_detection_platform.Api.Alerts.Repository.{
  decided, decidable, alerts, get_alert, decide_alert,
}
use theft_detection_platform.Api.Alerts.Responses.{AlertDetail, Files}
use theft_detection_platform.Api.Alerts.UseCase.{Answer, read_oid, decide}
use theft_detection_platform.Api.Alerts.WellFormed.{oid_of}

none_else :
    (oid : ℕ) (docs : List Alert)
    → All (λ y. oid ≢ y.oid) docs
    → (decision : Decision) → find? (decidable oid decision true) docs ≡ none
none_else oid [] h decision = refl
none_else oid (a ∷ docs) h decision = ground (arith, h.0, none_else oid docs h.1 decision)

no_longer_open :
    (decision second : Decision) (actor_id : String) (now oid : ℕ) (a : Alert)
    → decision ≢ decision_unspecified
    → (decidable oid second true (decided decision actor_id now a) ≡ false)
      × ((decided decision actor_id now a).oid ≡ a.oid)
unfolding decided
no_longer_open decision_unspecified second actor_id now oid a h = absurd (h refl)
no_longer_open confirmed second actor_id now oid a h = (ground arith, refl)
no_longer_open dismissed second actor_id now oid a h = (ground arith, refl)
no_longer_open unsure second actor_id now oid a h = (ground arith, refl)

-- After the first decision no document with the key is open.
find?-decided :
    (decision second : Decision) (actor_id : String) (now oid : ℕ) (docs : List Alert)
    → decision ≢ decision_unspecified
    → IsKeyed oid_of docs
    → find?
        (decidable oid second true)
        (update_first (decidable oid decision true) (decided decision actor_id now) docs)
      ≡ none
find?-decided decision second actor_id now oid [] real h = refl
find?-decided decision second actor_id now oid (a ∷ docs) real h =
    elim (Bool-cases (decidable oid decision true a)) [
      | inl open_ ↦
          let closed = no_longer_open decision second actor_id now oid a real in
          let its : a.oid ≡ oid = ground arith in
          rw (open_, closed.0)
            (none_else oid docs (subst (λ i. All (λ y. i ≢ y.oid) docs) its h.0) second)
      | inr other ↦ rw (other, other) (find?-decided decision second actor_id now oid docs real h.1)
    ]

module _ (C : Collection Alert) where
  decide_alert-none :
      (oid : ℕ) (decision : Decision) (actor_id : String) (now : ℕ) (db : Collection.State C)
      → find? (decidable oid decision true) (alerts C db) ≡ none
      → decide_alert C oid decision actor_id true now db ≡ (db, get_alert C oid db, none)
  unfolding decide_alert
  decide_alert-none oid decision actor_id now db nothing = rw (decide_alert, nothing) refl

  decide_alert-some :
      (oid : ℕ) (decision : Decision) (actor_id : String) (now : ℕ) (db : Collection.State C)
      → is_some (decide_alert C oid decision actor_id true now db).2 ≡ true
      → alerts C (decide_alert C oid decision actor_id true now db).0
        ≡ update_first (decidable oid decision true) (decided decision actor_id now) (alerts C db)
  unfolding decide_alert
  decide_alert-some oid decision actor_id now db changed =
      elim (Option-cases (find? (decidable oid decision true) (alerts C db))) [
        | inl nothing ↦ absurd (ground arith)
        | inr (a, found) ↦ rw (decide_alert, found) (Collection.docs-update_one C _ _ db)
      ]

  decide_alert_again :
      (oid : ℕ) (decision second : Decision) (actor_id other_id : String) (now later : ℕ)
      (db : Collection.State C)
      → decision ≢ decision_unspecified
      → IsKeyed oid_of (alerts C db)
      → is_some (decide_alert C oid decision actor_id true now db).2 ≡ true
      → let db1 = (decide_alert C oid decision actor_id true now db).0 in
        decide_alert C oid second other_id true later db1 ≡ (db1, get_alert C oid db1, none)
  decide_alert_again oid decision second actor_id other_id now later db real keyed changed =
      decide_alert-none oid second other_id later _ (
        ap (find? (decidable oid second true))
          (decide_alert-some oid decision actor_id now db changed)
        ∙ find?-decided decision second actor_id now oid (alerts C db) real keyed)

  module _ (files : Files) (parse_oid : String → Option ℕ) where
    -- The answer of a call, by what the repository did.
    decide_parts :
        (alert_id : String) (decision : Decision) (actor_id actor_name : String)
        (channel : DecisionChannel) (now : ℕ) (db : Collection.State C)
        {answer : Answer C files parse_oid (AlertDetail × Bool)} {oid : ℕ}
        → read_oid C files parse_oid alert_id ≡ ok oid
        → decide C files parse_oid alert_id decision actor_id actor_name channel true now db
          ≡ ok answer
        → (answer.db ≡ (decide_alert C oid decision actor_id true now db).0)
          × (answer.body.1 ≡ is_some (decide_alert C oid decision actor_id true now db).2)
          × ((decide_alert C oid decision actor_id true now db).2 ≡ none → answer.effects ≡ [])
    unfolding decide
    decide_parts alert_id decision actor_id actor_name channel now db {answer} {oid} read h =
        elim (Option-cases (decide_alert C oid decision actor_id true now db).1) [
          | inl gone ↦ absurd (ground arith)
          | inr (a, stored) ↦ ground arith
        ]

    ill_formed :
        (alert_id : String) (decision : Decision) (actor_id actor_name : String)
        (channel : DecisionChannel) (now : ℕ) (db : Collection.State C)
        {answer : Answer C files parse_oid (AlertDetail × Bool)} {e : AppError}
        → read_oid C files parse_oid alert_id ≡ err e
        → decide C files parse_oid alert_id decision actor_id actor_name channel true now db
          ≢ ok answer
    unfolding decide
    ill_formed alert_id decision actor_id actor_name channel now db malformed h = ground arith

    -- The first decision stands: on a database with at most one document for an ObjectId, once a
    -- call that may decide only what is undecided has changed the decision to a real one, every
    -- further such call for the alert that is answered without an error, whoever makes it and
    -- through whatever channel, changes nothing, says so, and tells nobody.
    pub decide_once :
        (alert_id : String) (decision second : Decision) (actor_id actor_name : String)
        (channel : DecisionChannel) (now : ℕ) (other_id other_name : String)
        (other_channel : DecisionChannel) (later : ℕ) (db : Collection.State C)
        {first again : Answer C files parse_oid (AlertDetail × Bool)}
        → IsKeyed oid_of (alerts C db)
        → decision ≢ decision_unspecified
        → decide C files parse_oid alert_id decision actor_id actor_name channel true now db
          ≡ ok first
        → first.body.1 ≡ true
        → decide C files parse_oid alert_id second other_id other_name other_channel true later
            first.db
          ≡ ok again
        → (again.db ≡ first.db) × (again.body.1 ≡ false) × (again.effects ≡ [])
    decide_once alert_id decision second actor_id actor_name channel now other_id other_name
          other_channel later db {first} {again} keyed real h changed h' =
        elim (Result-cases (read_oid C files parse_oid alert_id)) [
          | inr (e, malformed) ↦
              absurd (ill_formed alert_id decision actor_id actor_name channel now db malformed h)
          | inl (oid, read) ↦
              let one =
                decide_parts alert_id decision actor_id actor_name channel now db {answer = first}
                  read h in
              let two =
                decide_parts alert_id second other_id other_name other_channel later first.db
                  {answer = again} read h' in
              let same : decide_alert C oid second other_id true later first.db
                  ≡ (first.db, get_alert C oid first.db, none) =
                subst
                  (λ d.
                    decide_alert C oid second other_id true later d ≡ (d, get_alert C oid d, none))
                  (sym one.0)
                  (decide_alert_again oid decision second actor_id other_id now later db real keyed
                    (sym one.1 ∙ changed)) in
              (
                two.0 ∙ ap (λ t. t.0) same,
                two.1 ∙ ap (λ t. is_some t.2) same,
                two.2 (ap (λ t. t.2) same),
              )
        ]
