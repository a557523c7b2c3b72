-- ===== src/Api/Alerts/Tests.antt =====
-- Alerts on a small collection, and the theorems at concrete inputs.
use theft_detection_platform.Prelude.{
  ℕ, ◌≤◌, ◌≡◌, ◌≢◌, ◌↔◌, ◌⊎◌, refl, Bool, true, false, Option, none, some, List, [], ◌∷◌, map,
  arith, String, str_eq, ok, err, length, ◌==◌, if◌then◌else◌,
}
use theft_detection_platform.Prelude.Collection.{Collection, list_collection}
use theft_detection_platform.Api.Alerts.{
  Alert, Severity, AlertType, Decision, decision_unspecified, confirmed, dismissed, DecisionChannel,
  console, telegram, by_created_at,
}
use theft_detection_platform.Api.Alerts.Repository.{
  AlertQuery, build_query, newer, decided, insert_once, list_page, acknowledge_alert, decide_alert,
  set_dispatch_failed, delete_alert,
}
use theft_detection_platform.Api.Alerts.Responses.{
  AlertDetail, Files, file_url, summarise, to_response, to_detail, attach_delivery,
}
use theft_detection_platform.Api.Alerts.UseCase.{
  SendReply, taken, unavailable, dispatch_loop, dispatch, AlertCreate, new_alert, Answer, read_oid,
  mark_undispatched, create, acknowledge, decide, delete,
}
use theft_detection_platform.Api.Alerts.Listing.{
  start_of, cursor_behind, page_of, load_page, list, walk,
}
use theft_detection_platform.Api.Alerts.Listing.Pages.{listed}
use theft_detection_platform.Api.Alerts.WellFormed.{IsWellFormed}
use theft_detection_platform.Api.Alerts.Reachable.{
  created, Reachable, here, after, reachable-IsWellFormed,
}
use theft_detection_platform.Api.Alerts.Shown.{walk-listed}
use theft_detection_platform.Api.Alerts.Decisions.{decide_once}
use theft_detection_platform.Api.Alerts.Dispatched.{total, dispatch_lem}
use theft_detection_platform.Api.Cursor.{cursor_codec}
use theft_detection_platform.Api.Cursor.Tests.{formats, formats-IsFaithful}

-- Everything that a run calls, but the cursors.
program : Unit {0}
unfolding build_query newer decided insert_once list_page acknowledge_alert decide_alert
    set_dispatch_failed delete_alert file_url summarise to_response to_detail attach_delivery
    dispatch_loop dispatch new_alert read_oid mark_undispatched create acknowledge decide delete
    start_of cursor_behind page_of load_page list walk
program = tt

abbrev collection : Collection Alert
collection = list_collection Alert

abbrev files : Files
files = record { resolve_snapshot = λ path. some path; show_oid = λ oid. "id" }

-- The only identifier that is well formed is that of the first document.
abbrev parse_oid : String → Option ℕ
parse_oid id = if str_eq id "1" then some 1 else none

abbrev payload : String → AlertCreate
payload alert_id = record {
  alert_id = alert_id;
  session_id = 1;
  frame_index = 7;
  occurred_at = 5;
  camera_id = "door";
  severity = Severity.warning;
  alert_type = AlertType.concealment;
  object_class = none;
  snapshot_path = some "a.jpg";
  clip_path = none;
}

abbrev always : SendReply → ℕ → SendReply
always reply attempt = reply

abbrev one : List Alert
one = (create collection files parse_oid (payload "a") 1 10 (always taken) []).db

abbrev two : List Alert
two = (create collection files parse_oid (payload "b") 2 20 (always unavailable) one).db

marks : map (λ (a : Alert). a.dispatch_failed) two ≡ false ∷ true ∷ []
unfolding program
marks = refl

repeats : (create collection files parse_oid (payload "a") 3 30 (always taken) two).db ≡ two
unfolding program
repeats = refl

gives_up : (dispatch (always unavailable)).sleeps ≡ 500 ∷ 1000 ∷ []
unfolding program
gives_up = refl

abbrev second_try : ℕ → SendReply
second_try attempt = if attempt == 2 then taken else unavailable

dispatch_lem_example :
    ((dispatch second_try).sends ≤ 3)
    × (total (dispatch second_try).sleeps ≤ 1500)
    × (((dispatch second_try).dispatched ≡ true) ↔ (
        (unavailable ≡ taken)
        ⊎ ((unavailable ≡ unavailable) × (taken ≡ taken))
        ⊎ ((unavailable ≡ unavailable) × (taken ≡ unavailable) × (unavailable ≡ taken))))
dispatch_lem_example = dispatch_lem second_try

nothing-IsWellFormed : IsWellFormed []
nothing-IsWellFormed = record { keyed = tt; created = tt; consistent = tt }

run : Reachable collection files parse_oid [] two
unfolding program
run =
    after one two (after [] one here (created (payload "a") 1 10 (always taken) refl))
      (created (payload "b") 2 20 (always unavailable) refl)

reachable-IsWellFormed_example : IsWellFormed two
reachable-IsWellFormed_example =
    reachable-IsWellFormed collection files parse_oid [] two nothing-IsWellFormed run

abbrev everything : AlertQuery
everything = record {
  severity = none;
  acknowledged = none;
  decision = none;
  camera_id = none;
  start = none;
  end_ = none;
}

newest_first :
    map (λ (a : Alert). a.oid) (listed collection by_created_at everything two) ≡ 2 ∷ 1 ∷ []
unfolding program
newest_first = refl

fits : length (listed collection by_created_at everything two) ≡ 2
unfolding program
fits = refl

-- Pages of one alert each, with three requests.
walk-listed_example :
    walk
      (cursor_codec formats formats-IsFaithful)
      collection
      files
      3
      by_created_at
      everything
      1
      none
      two
    ≡ ok (map (to_response files) (listed collection by_created_at everything two))
walk-listed_example =
    walk-listed (cursor_codec formats formats-IsFaithful) collection files parse_oid by_created_at
      everything 0 3 [] two nothing-IsWellFormed run refl (omega (arith, fits))

abbrev answer_of :
    List Alert
    → Decision
    → DecisionChannel
    → (now : ℕ) → Answer collection files parse_oid (AlertDetail × Bool)
answer_of db decision channel now =
    elim (decide collection files parse_oid "1" decision "u" "Ann" channel true now db) [
      | ok answer ↦ answer
      | err e ↦ record {
        body = (to_detail files (new_alert (payload "c") 9 0), false);
        db = [];
        effects = [];
      }
    ]

decides :
    decide collection files parse_oid "1" confirmed "u" "Ann" console true 30 two
    ≡ ok (answer_of two confirmed console 30)
unfolding program
decides = refl

changes : (answer_of two confirmed console 30).body.1 ≡ true
unfolding program
changes = refl

decides_again :
    decide collection files parse_oid "1" dismissed "u" "Ann" telegram true 40
      (answer_of two confirmed console 30).db
    ≡ ok (answer_of (answer_of two confirmed console 30).db dismissed telegram 40)
unfolding program
decides_again = refl

confirmed-ne : confirmed ≢ decision_unspecified
confirmed-ne h = ground arith

decide_once_example :
    ((answer_of (answer_of two confirmed console 30).db dismissed telegram 40).db
      ≡ (answer_of two confirmed console 30).db)
    × ((answer_of (answer_of two confirmed console 30).db dismissed telegram 40).body.1 ≡ false)
    × ((answer_of (answer_of two confirmed console 30).db dismissed telegram 40).effects ≡ [])
decide_once_example =
    decide_once collection files parse_oid "1" confirmed dismissed "u" "Ann" console 30 "u" "Ann"
      telegram 40 two reachable-IsWellFormed_example.keyed confirmed-ne decides changes
      decides_again
