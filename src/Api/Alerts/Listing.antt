-- ===== src/Api/Alerts/Listing.antt =====
-- `list` and `count` of services/api/app/usecases/alert_usecase.py. The cursor is an interface, and
-- the cache of services/api/app/core/cache.py is the answer of Redis to the page's key.
pub mod Pages
pub mod Walk
use theft_detection_platform.Prelude.{
  ℕ, suc, zero, ◌+◌, ◌≡◌, ◌≢◌, Bool, true, false, ◌&&◌, Option, none, some, List, [], ◌∷◌, ◌++◌,
  map, String, ltb, length, take, get_last?, if◌then◌else◌, Result, ok, err, ◌>>=◌, ◌>>◌, raise_if,
}
use theft_detection_platform.Prelude.Collection.{Collection}
use theft_detection_platform.Api.Alerts.{AlertSort, Alert, AppError, window_reversed}
use theft_detection_platform.Api.Alerts.Repository.{AlertQuery, Place, sort_field, list_page, count}
use theft_detection_platform.Api.Alerts.Responses.{
  AlertResponse, DeliveryStatusView, Files, to_response, attach_delivery,
}

abbrev pub Cursor : Type 0
Cursor = List ℕ

-- `encode_cursor`, and `decode_cursor` with the parsing of the ObjectId behind it.
pub record CursorCodec : Type 0 where
  pub encode : AlertSort → (boundary oid : ℕ) → Cursor
  pub decode : Cursor → AlertSort → Result AppError Place
  pub nonempty : (sort : AlertSort) (boundary oid : ℕ) → encode sort boundary oid ≢ []
  pub round_trip :
      (sort : AlertSort) (boundary oid : ℕ)
      → decode (encode sort boundary oid) sort ≡ ok (boundary, oid)

pub record AlertPage : Type 0 where
  pub items : List AlertResponse
  pub next_cursor : Option Cursor

-- A window whose start is later than its end.
abbrev pub is_reversed : AlertQuery → Bool
is_reversed q = elim q.start [
  | none ↦ false
  | some start ↦ elim q.end_ [ none ↦ false | some end_ ↦ ltb end_ start ]
]

-- `get_or_set`: what is cached, or what the loader gives.
abbrev pub get_or_set {ℓ} : {A : Type ℓ} → (cached : Option A) (loaded : A) → A
get_or_set none loaded = loaded
get_or_set (some page) loaded = page

module _ (codec : CursorCodec) where
  -- `decode_cursor(cursor, order) if cursor else None`
  unfoldable pub start_of : Option Cursor → AlertSort → Result AppError (Option Place)
  start_of none sort = ok none
  start_of (some []) sort = ok none
  start_of (some (c ∷ cursor)) sort =
      CursorCodec.decode codec (c ∷ cursor) sort >>= λ place. ok (some place)

  -- The cursor behind the last document of a page, where it has the date.
  unfoldable pub cursor_behind : AlertSort → Alert → Option Cursor
  cursor_behind sort last = elim (sort_field sort last) [
    | none ↦ none
    | some boundary ↦ some (CursorCodec.encode codec sort boundary last.oid)
  ]

  -- The loader, on the documents that the repository gives for `limit + 1`.
  unfoldable pub page_of : Files → AlertSort → (limit : ℕ) → List Alert → AlertPage
  page_of files sort limit docs = record {
    items = map (to_response files) (take limit docs);
    next_cursor = elim (get_last? (take limit docs)) [
      | none ↦ none
      | some last ↦ if ltb limit (length docs) then cursor_behind sort last else none
    ];
  }

  module _ (C : Collection Alert) (files : Files) where
    unfoldable pub load_page :
        AlertSort → AlertQuery → (limit : ℕ) → Option Place → Collection.State C → AlertPage
    load_page sort q limit after db =
        page_of files sort limit (list_page C sort q (limit + 1) after db)

    unfoldable pub list :
        (views : String → Option DeliveryStatusView) (cached : Option AlertPage)
        → AlertSort
        → AlertQuery
        → (limit : ℕ) → Option Cursor
        → Collection.State C
        → Result AppError AlertPage
    list views cached sort q limit cursor db = start_of cursor sort >>= λ after.
        raise_if (is_reversed q) window_reversed
        >> (let page = get_or_set cached (load_page sort q limit after db) in
            ok (record page { items = attach_delivery files views page.items }))

    unfoldable pub count_alerts :
        (cached : Option ℕ) → AlertSort → AlertQuery → Collection.State C → Result AppError ℕ
    count_alerts cached sort q db =
        raise_if (is_reversed q) window_reversed >> ok (get_or_set cached (count C sort q db))

    -- A client that asks for the pages, one after the other, each with the cursor of the page
    -- before, until a page has no cursor: all the items, in order.
    unfoldable pub walk :
        (requests : ℕ)
        → AlertSort
        → AlertQuery
        → (limit : ℕ) → Option Cursor
        → Collection.State C
        → Result AppError (List AlertResponse)
    walk zero sort q limit cursor db = ok []
    walk (suc requests) sort q limit cursor db =
        list (λ id. none) none sort q limit cursor db >>= λ page. elim page.next_cursor [
          | none ↦ ok page.items
          | some next ↦
              walk requests sort q limit (some next) db >>= λ items. ok (page.items ++ items)
        ]
