-- ===== src/Api/Alerts/Repository.antt =====
-- services/api/app/repositories/alert_repository.py, with `get`, `update` and `delete` of
-- services/api/app/repositories/base.py. The parsing of an ObjectId stands in the use case.
use theft_detection_platform.Prelude.{
  ℕ, Bool, true, false, not, ◌&&◌, ◌||◌, Option, none, some, List, String, str_eq, ◌==◌, ltb, leb,
  bool_eq, is_some, find?, filter, length, take, if◌then◌else◌,
}
use theft_detection_platform.Prelude.Collection.{Collection}
use theft_detection_platform.Prelude.Sorting.{sort_by}
use theft_detection_platform.Api.Alerts.{
  Severity, severity_unspecified, info, notice, warning, critical, Decision, decision_unspecified,
  confirmed, dismissed, unsure, AlertSort, by_created_at, by_decided_at, Alert,
}

abbrev pub severity_eq : Severity → Severity → Bool
severity_eq severity_unspecified severity_unspecified = true
severity_eq info info = true
severity_eq notice notice = true
severity_eq warning warning = true
severity_eq critical critical = true
severity_eq _ _ = false

abbrev pub decision_eq : Decision → Decision → Bool
decision_eq decision_unspecified decision_unspecified = true
decision_eq confirmed confirmed = true
decision_eq dismissed dismissed = true
decision_eq unsure unsure = true
decision_eq _ _ = false

-- What a page or a count is restricted to.
pub record AlertQuery : Type 0 where
  pub severity : Option Severity
  pub acknowledged : Option Bool
  pub decision : Option Decision
  pub camera_id : Option String
  pub start : Option ℕ
  pub end_ : Option ℕ

-- A clause of the query that is there only with a value.
abbrev pub optional {ℓ} : {A : Type ℓ} → Option A → (A → Bool) → Bool
optional none test = true
optional (some a) test = test a

-- The field that a page is sorted by.
abbrev pub sort_field : AlertSort → Alert → Option ℕ
sort_field by_created_at a = a.created_at
sort_field by_decided_at a = a.decided_at

-- `{"$type": "date"}`
abbrev pub has_date : AlertSort → Alert → Bool
has_date by_created_at a = true
has_date by_decided_at a = is_some a.decided_at

-- A condition on a field takes no document without the field.
abbrev pub compares {ℓ} : {A : Type ℓ} → (A → Bool) → Option A → Bool
compares test none = false
compares test (some value) = test value

-- `_build_query`
unfoldable pub build_query : AlertSort → AlertQuery → Alert → Bool
build_query sort q a =
    optional q.severity (λ s. severity_eq a.severity s)
    && optional q.acknowledged (λ b. bool_eq a.acknowledged b)
    && optional q.decision (λ d. compares (λ x. decision_eq x d) a.decision)
    && optional q.camera_id (λ c. str_eq c "" || str_eq a.camera_id c)
    && has_date sort a
    && optional q.start (λ from. compares (λ moment. leb from moment) (sort_field sort a))
    && optional q.end_ (λ to. compares (λ moment. leb moment to) (sort_field sort a))

-- The place behind which a page starts.
abbrev pub Place : Type 0
Place = ℕ × ℕ

-- `[{field: {"$lt": boundary}}, {field: boundary, "_id": {"$lt": id}}]`
abbrev pub behind : AlertSort → Option Place → Alert → Bool
behind sort none a = true
behind sort (some (boundary, oid)) a =
    compares (λ moment. ltb moment boundary || (moment == boundary && ltb a.oid oid))
      (sort_field sort a)

-- `[(field, -1), ("_id", -1)]`: a document without a date comes last.
abbrev pub newer_key : Option ℕ → ℕ → Option ℕ → ℕ → Bool
newer_key none oid none oid' = ltb oid' oid
newer_key none oid (some _) oid' = false
newer_key (some _) oid none oid' = true
newer_key (some a) oid (some b) oid' = ltb b a || (a == b && ltb oid' oid)

unfoldable pub newer : AlertSort → Alert → Alert → Bool
newer sort x y = newer_key (sort_field sort x) x.oid (sort_field sort y) y.oid

abbrev pub with_oid : ℕ → Alert → Bool
with_oid oid a = a.oid == oid

-- The document after a decision; undone, it has no date and no name.
unfoldable pub decided : Decision → (actor_id : String) (now : ℕ) → Alert → Alert
decided decision actor_id now a =
    if decision_eq decision decision_unspecified
    then record a { decision = some decision; decided_at = none; decided_by = none }
    else record a { decision = some decision; decided_at = some now; decided_by = some actor_id }

-- `before.get("decision") or _UNDECIDED`
abbrev pub decision_of : Alert → Decision
decision_of a = elim a.decision [ none ↦ decision_unspecified | some d ↦ d ]

-- The documents that a decision matches: `{"$in": [_UNDECIDED, None]}` or `{"$ne": decision}`.
abbrev pub decidable : (oid : ℕ) (decision : Decision) (only_if_undecided : Bool) → Alert → Bool
decidable oid decision only_if_undecided a =
    with_oid oid a
    && (if only_if_undecided
        then decision_eq (decision_of a) decision_unspecified
        else not (is_some a.decision && decision_eq (decision_of a) decision))

module _ (C : Collection Alert) where
  abbrev pub alerts : Collection.State C → List Alert
  alerts db = Collection.docs C db

  abbrev pub get_alert : (oid : ℕ) → Collection.State C → Option Alert
  get_alert oid db = find? (with_oid oid) (alerts db)

  -- `insert_once` under the unique index on `alert_id`: the document, and whether it is new.
  unfoldable pub insert_once : Alert → Collection.State C → Collection.State C × Alert × Bool
  insert_once a db = elim (find? (λ x. str_eq x.alert_id a.alert_id) (alerts db)) [
    | none ↦ (Collection.insert_one C a db, a, true)
    | some existing ↦ (db, existing, false)
  ]

  unfoldable pub list_page :
      AlertSort → AlertQuery → (limit : ℕ) → Option Place → Collection.State C → List Alert
  list_page sort q limit after db =
      take limit (
        sort_by (newer sort)
          (filter (λ a. build_query sort q a && behind sort after a) (alerts db)))

  unfoldable pub count : AlertSort → AlertQuery → Collection.State C → ℕ
  count sort q db = length (filter (build_query sort q) (alerts db))

  -- The database, the document afterwards, and whether it was acknowledged by this call.
  unfoldable pub acknowledge_alert :
      (oid now : ℕ) → Collection.State C → Collection.State C × Option Alert × Bool
  acknowledge_alert oid now db =
      let db1 =
        Collection.update_one C (λ a. with_oid oid a && not a.acknowledged)
          (λ a. record a { acknowledged = true; acknowledged_at = some now }) db in
      elim (find? (λ a. with_oid oid a && not a.acknowledged) (alerts db)) [
        | none ↦ (db, get_alert oid db, false)
        | some _ ↦ (db1, get_alert oid db1, true)
      ]

  -- The database, the document, and the decision that was there before a change.
  unfoldable pub decide_alert :
      (oid : ℕ)
      → Decision
      → (actor_id : String) (only_if_undecided : Bool) (now : ℕ) → Collection.State C
      → Collection.State C × Option Alert × Option Decision
  decide_alert oid decision actor_id only_if_undecided now db =
      elim (find? (decidable oid decision only_if_undecided) (alerts db)) [
        | none ↦ (db, get_alert oid db, none)
        | some before ↦ (
          Collection.update_one C (decidable oid decision only_if_undecided)
              (decided decision actor_id now) db,
          some (decided decision actor_id now before),
          some (decision_of before),
        )
      ]

  -- `update(id, {"dispatch_failed": True})`: the database, and the document afterwards.
  unfoldable pub set_dispatch_failed :
      (oid : ℕ) → Collection.State C → Collection.State C × Option Alert
  set_dispatch_failed oid db =
      let db1 =
        Collection.update_one C (with_oid oid) (λ a. record a { dispatch_failed = true }) db in
      (db1, get_alert oid db1)

  -- The database, and whether a document was deleted.
  unfoldable pub delete_alert : (oid : ℕ) → Collection.State C → Collection.State C × Bool
  delete_alert oid db = (Collection.delete_one C (with_oid oid) db, is_some (get_alert oid db))
