-- ===== src/Api/Alerts/Listing/Walk.antt =====
-- The walk over the pages of services/api/app/usecases/alert_usecase.py.
use theft_detection_platform.Prelude.{
  ℕ, suc, zero, ◌+◌, ◌<◌, ◌≡◌, refl, sym, ap, ◌∙◌, subst, true, false, Option, none, some, List, [],
  ◌∷◌, ◌++◌, map, arith, length, length-append, take, filter, get_last?, get_last?-append_one, inl,
  inr, Option-cases, ok, is_some, All, All-intro, List-cases,
}
use mathlib.Core.List.{append_assoc}
use theft_detection_platform.Prelude.Collection.{Collection}
use theft_detection_platform.Prelude.Sorting.{
  IsSorted, IsKeyed, IsKeyed-filter, sort_by-IsSorted, filter-eq_self,
}
use theft_detection_platform.Api.Alerts.{AlertSort, Alert}
use theft_detection_platform.Api.Alerts.Repository.{
  AlertQuery, Place, sort_field, build_query, behind, newer, alerts, list_page,
}
use theft_detection_platform.Api.Alerts.Responses.{
  AlertResponse, Files, to_response, attach_delivery, summarise,
}
use theft_detection_platform.Api.Alerts.Listing.{
  Cursor, CursorCodec, is_reversed, start_of, cursor_behind, page_of, load_page, list, walk,
}
use theft_detection_platform.Api.Alerts.Listing.Pages.{
  IsLast, IsFull, cut, snoc-append, All-at, behind_part, newer-IsOrder, listed, list_page_lem,
}

shorter :
    (rest front : List Alert) (last : Alert) (behind_it : List Alert) (requests : ℕ)
    → rest ≡ front ++ last ∷ behind_it
    → length rest < suc requests
    → length behind_it < requests
shorter rest front last behind_it requests parts enough =
    let counted = ap length parts ∙ length-append front (last ∷ behind_it) in omega arith

module _ (codec : CursorCodec) where
  start_of-encode :
      (sort : AlertSort) (boundary oid : ℕ)
      → start_of codec (some (CursorCodec.encode codec sort boundary oid)) sort
        ≡ ok (some (boundary, oid))
  unfolding start_of
  start_of-encode sort boundary oid =
      elim (List-cases (CursorCodec.encode codec sort boundary oid)) [
        | inl empty ↦ absurd (CursorCodec.nonempty codec sort boundary oid empty)
        | inr (c, cursor, whole) ↦ ground (arith, CursorCodec.round_trip codec sort boundary oid)
      ]

  module _ (files : Files) where
    no_delivery :
        (docs : List Alert)
        → attach_delivery files (λ id. none) (map (to_response files) docs)
          ≡ map (to_response files) docs
    unfolding attach_delivery to_response summarise
    no_delivery [] = refl
    no_delivery (a ∷ docs) = ap (λ xs. to_response files a ∷ xs) (no_delivery docs)

    map-append :
        (xs ys : List Alert)
        → map (to_response files) (xs ++ ys)
          ≡ map (to_response files) xs ++ map (to_response files) ys
    map-append [] ys = refl
    map-append (x ∷ xs) ys = ap (λ l. to_response files x ∷ l) (map-append xs ys)

    page_of-last :
        (sort : AlertSort) (limit : ℕ) (docs : List Alert)
        → IsLast limit docs
        → page_of codec files sort limit (take (suc limit) docs)
          ≡ record { items = map (to_response files) docs; next_cursor = none }
    unfolding page_of
    page_of-last sort limit docs h = rw h.items (elim (Option-cases (get_last? docs)) [
      | inl none_ ↦ rw none_ refl
      | inr (x, found) ↦ rw (found, h.stop) refl
    ])

    cursor_behind-dated :
        (sort : AlertSort) (a : Alert) (boundary : ℕ)
        → sort_field sort a ≡ some boundary
        → cursor_behind codec sort a ≡ some (CursorCodec.encode codec sort boundary a.oid)
    unfolding cursor_behind
    cursor_behind-dated sort a boundary dated = ground arith

    page_of-full :
        (sort : AlertSort) (limit : ℕ) (docs : List Alert) (h : IsFull limit docs) (boundary : ℕ)
        → sort_field sort h.last ≡ some boundary
        → page_of codec files sort limit (take (suc limit) docs) ≡ record {
          items = map (to_response files) (h.front ++ h.last ∷ []);
          next_cursor = some (CursorCodec.encode codec sort boundary h.last.oid);
        }
    unfolding page_of
    page_of-full sort limit docs h boundary dated =
        rw
          (
            h.items,
            get_last?-append_one h.front h.last,
            h.more,
            cursor_behind-dated sort h.last boundary dated,
          )
          refl

    module _ (C : Collection Alert) (sort : AlertSort) (q : AlertQuery) (n : ℕ)
        (db : Collection.State C) (keyed : IsKeyed (λ (a : Alert). a.oid) (alerts C db))
        (dated : All (λ a. is_some (sort_field sort a) ≡ true) (listed C sort q db))
        (ordered : is_reversed q ≡ false) where
      list_lem :
          (cursor : Option Cursor) (after : Option Place) (rest : List Alert)
          → start_of codec cursor sort ≡ ok after
          → filter (behind sort after) (listed C sort q db) ≡ rest
          → list codec C files (λ id. none) none sort q (suc n) cursor db ≡ (
              let page = page_of codec files sort (suc n) (take (suc (suc n)) rest) in
              ok (record page { items = attach_delivery files (λ id. none) page.items }))
      unfolding list load_page
      list_lem cursor after rest start part =
          let one_more : suc n + 1 ≡ suc (suc n) = omega arith in
          let docs : list_page C sort q (suc n + 1) after db ≡ take (suc (suc n)) rest =
            list_page_lem C sort q (suc n + 1) after db keyed
            ∙ ap (take (suc n + 1)) part
            ∙ ap (λ k. take k rest) one_more in
          rw (start, ordered, docs) refl

      walk_last :
          (requests : ℕ) (cursor : Option Cursor) (after : Option Place) (rest : List Alert)
          → start_of codec cursor sort ≡ ok after
          → filter (behind sort after) (listed C sort q db) ≡ rest
          → IsLast (suc n) rest
          → walk codec C files (suc requests) sort q (suc n) cursor db
            ≡ ok (map (to_response files) rest)
      unfolding walk
      walk_last requests cursor after rest start part h =
          rw (list_lem cursor after rest start part, page_of-last sort (suc n) rest h)
            (ap ok (no_delivery rest))

      walk_full :
          (requests : ℕ) (cursor : Option Cursor) (after : Option Place) (rest : List Alert)
          (h : IsFull (suc n) rest) (boundary : ℕ) (items : List AlertResponse)
          → start_of codec cursor sort ≡ ok after
          → filter (behind sort after) (listed C sort q db) ≡ rest
          → sort_field sort h.last ≡ some boundary
          → walk codec C files requests sort q
              (suc n)
              (some (CursorCodec.encode codec sort boundary h.last.oid))
              db
            ≡ ok items
          → walk codec C files (suc requests) sort q (suc n) cursor db
            ≡ ok (map (to_response files) (h.front ++ h.last ∷ []) ++ items)
      unfolding walk
      walk_full requests cursor after rest h boundary items start part at behind_it =
          rw
            (
              list_lem cursor after rest start part,
              page_of-full sort (suc n) rest h boundary at,
              behind_it,
            )
            (ap (λ page. ok (page ++ items)) (no_delivery (h.front ++ h.last ∷ [])))

      listed-IsSorted : IsSorted (newer sort) (listed C sort q db)
      listed-IsSorted =
          sort_by-IsSorted (newer sort) (λ (a : Alert). a.oid) (newer-IsOrder sort) _
            (IsKeyed-filter (λ (a : Alert). a.oid) (build_query sort q) (alerts C db) keyed)

      walk_on :
          (requests : ℕ) (cursor : Option Cursor) (after : Option Place) (front rest : List Alert)
          → start_of codec cursor sort ≡ ok after
          → listed C sort q db ≡ front ++ rest
          → filter (behind sort after) (listed C sort q db) ≡ rest
          → length rest < suc requests
          → ((cursor : Option Cursor) (after : Option Place) (front rest : List Alert)
              → start_of codec cursor sort ≡ ok after
              → listed C sort q db ≡ front ++ rest
              → filter (behind sort after) (listed C sort q db) ≡ rest
              → length rest < requests
              → walk codec C files requests sort q (suc n) cursor db
                ≡ ok (map (to_response files) rest))
          → (h : IsFull (suc n) rest)
          → walk codec C files (suc requests) sort q (suc n) cursor db
            ≡ ok (map (to_response files) rest)
      walk_on requests cursor after front rest start whole part enough go_on h =
          let parts : listed C sort q db ≡ (front ++ h.front) ++ h.last ∷ h.rest =
            whole
            ∙ ap (λ r. front ++ r) h.parts
            ∙ sym (append_assoc front h.front (h.last ∷ h.rest)) in
          let dated' = subst (All (λ a. is_some (sort_field sort a) ≡ true)) parts dated in
          elim (Option-cases (sort_field sort h.last)) [
            | inl undated ↦
                absurd (ground (arith, All-at _ (front ++ h.front) h.last h.rest dated'))
            | inr (boundary, at) ↦
                walk_full requests cursor after rest h boundary _ start part at (
                  go_on _ (some (boundary, h.last.oid)) ((front ++ h.front) ++ h.last ∷ []) h.rest
                    (start_of-encode sort boundary h.last.oid)
                    (parts ∙ sym (snoc-append (front ++ h.front) h.last h.rest))
                    (subst (λ l. filter (behind sort (some (boundary, h.last.oid))) l ≡ h.rest)
                      (sym parts)
                      (behind_part sort (front ++ h.front) h.last boundary h.rest
                        (subst (IsSorted (newer sort)) parts listed-IsSorted) at dated'))
                    (shorter rest h.front h.last h.rest requests h.parts enough))
                ∙ ap ok (
                    sym (map-append (h.front ++ h.last ∷ []) h.rest)
                    ∙ ap (map (to_response files))
                        (snoc-append h.front h.last h.rest ∙ sym h.parts))
          ]

      -- The walk from a cursor behind which the rest of the list is.
      walk_part :
          (requests : ℕ) (cursor : Option Cursor) (after : Option Place) (front rest : List Alert)
          → start_of codec cursor sort ≡ ok after
          → listed C sort q db ≡ front ++ rest
          → filter (behind sort after) (listed C sort q db) ≡ rest
          → length rest < requests
          → walk codec C files requests sort q (suc n) cursor db ≡ ok (map (to_response files) rest)
      walk_part zero cursor after front rest start whole part enough = absurd (omega arith)
      walk_part (suc requests) cursor after front rest start whole part enough = elim (cut n rest) [
        | inl h ↦ walk_last requests cursor after rest start part h
        | inr h ↦
            walk_on requests cursor after front rest start whole part enough (walk_part requests) h
      ]

      -- The pages are the list: where no two documents have the same ObjectId, every listed document
      -- has the date that the list is sorted by, and the window is not reversed, a client that
      -- follows the cursors, with a page size of at least one and more requests than there are
      -- documents, gets every document that the query takes exactly once, the newest first.
      pub walk_lem :
          (requests : ℕ)
          → length (listed C sort q db) < requests
          → walk codec C files requests sort q (suc n) none db
            ≡ ok (map (to_response files) (listed C sort q db))
      unfolding start_of
      walk_lem requests enough =
          walk_part requests none none [] (listed C sort q db) refl refl
            (filter-eq_self (λ a. true) (listed C sort q db)
              (All-intro (λ a. true ≡ true) (listed C sort q db) (λ a. refl)))
            enough
