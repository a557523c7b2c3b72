-- ===== src/Api/Alerts/Shown.antt =====
-- What the pages show of a database that the calls of
-- services/api/app/usecases/alert_usecase.py reach.
use theft_detection_platform.Prelude.{
  ℕ, suc, ◌<◌, ◌≡◌, Bool, true, false, inl, inr, Option, none, List, [], ◌∷◌, map, arith, String,
  is_some, filter, length, Bool-cases, ok, All, All-imp,
}
use theft_detection_platform.Prelude.Collection.{Collection}
use theft_detection_platform.Prelude.Sorting.{All-filter, sort_by-All}
use theft_detection_platform.Api.Alerts.{Alert, AlertSort, by_created_at, by_decided_at}
use theft_detection_platform.Api.Alerts.Repository.{
  AlertQuery, alerts, sort_field, build_query, newer,
}
use theft_detection_platform.Api.Alerts.Responses.{Files, to_response}
use theft_detection_platform.Api.Alerts.Listing.{CursorCodec, is_reversed, walk}
use theft_detection_platform.Api.Alerts.Listing.Pages.{listed}
use theft_detection_platform.Api.Alerts.Listing.Walk.{walk_lem}
use theft_detection_platform.Api.Alerts.WellFormed.{IsWellFormed}
use theft_detection_platform.Api.Alerts.Reachable.{Reachable, reachable-IsWellFormed}

passes : (p : Alert → Bool) (docs : List Alert) → All (λ a. p a ≡ true) (filter p docs)
passes p [] = tt
passes p (a ∷ docs) = elim (Bool-cases (p a)) [
  | inl yes_ ↦ rw yes_ (yes_, passes p docs)
  | inr no_ ↦ rw no_ (passes p docs)
]

-- A list sorted by the date of the decision takes only documents with that date.
asks_date :
    (q : AlertQuery) (a : Alert)
    → build_query by_decided_at q a ≡ true
    → is_some a.decided_at ≡ true
unfolding build_query
asks_date q a h = ground arith

module _ (C : Collection Alert) (q : AlertQuery) (db : Collection.State C)
    (w : IsWellFormed (alerts C db)) where
  listed_dated :
      (sort : AlertSort) → All (λ a. is_some (sort_field sort a) ≡ true) (listed C sort q db)
  listed_dated by_created_at =
      sort_by-All (newer by_created_at) _ _ (All-filter _ (build_query by_created_at q) _ w.created)
  listed_dated by_decided_at =
      sort_by-All (newer by_decided_at) _ _
        (All-imp _ _ _ (asks_date q) (passes (build_query by_decided_at q) (alerts C db)))

-- The pages are the list: on every database that the calls reach from a well-formed one, a client
-- that follows the cursors, with a page size of at least one, a window that is not reversed and more
-- requests than there are documents to list, gets every document that its query takes exactly once,
-- the newest first.
pub walk-listed :
    (codec : CursorCodec) (C : Collection Alert) (files : Files) (parse_oid : String → Option ℕ)
    (sort : AlertSort) (q : AlertQuery) (n requests : ℕ) (start db : Collection.State C)
    → IsWellFormed (alerts C start)
    → Reachable C files parse_oid start db
    → is_reversed q ≡ false
    → length (listed C sort q db) < requests
    → walk codec C files requests sort q (suc n) none db
      ≡ ok (map (to_response files) (listed C sort q db))
walk-listed codec C files parse_oid sort q n requests start db formed run ordered enough =
    let w = reachable-IsWellFormed C files parse_oid start db formed run in
    walk_lem codec files C sort q n db w.keyed (listed_dated C q db w sort) ordered requests enough
