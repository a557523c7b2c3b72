-- ===== src/Api/Alerts/Listing/Pages.antt =====
-- The pages of services/api/app/usecases/alert_usecase.py, taken together.
use theft_detection_platform.Prelude.{
  ℕ, suc, zero, ◌≡◌, ◌≢◌, ◌⊎◌, refl, sym, ap, ◌∙◌, true, false, Option, none, some, List, [], ◌∷◌,
  ◌++◌, arith, ltb, length, take, filter, inl, inr, Option-cases, is_some, All, All-imp,
}
use theft_detection_platform.Prelude.Collection.{Collection}
use theft_detection_platform.Prelude.Sorting.{
  IsOrder, sort_by, IsSorted, IsKeyed, IsKeyed-filter, filter-and, filter-congr, filter-sort_by,
  filter-before,
}
use theft_detection_platform.Api.Alerts.{AlertSort, Alert}
use theft_detection_platform.Api.Alerts.Repository.{
  AlertQuery, Place, sort_field, build_query, behind, newer_key, newer, alerts, list_page,
}

newer_key_total :
    (a : Option ℕ) (i : ℕ) (b : Option ℕ) (j : ℕ)
    → i ≢ j
    → newer_key a i b j ≡ false
    → newer_key b j a i ≡ true
newer_key_total none i none j other h = ground arith
newer_key_total none i (some b) j other h = refl
newer_key_total (some a) i none j other h = absurd (ground arith)
newer_key_total (some a) i (some b) j other h = ground arith

newer_key_trans :
    (a : Option ℕ) (i : ℕ) (b : Option ℕ) (j : ℕ) (c : Option ℕ) (k : ℕ)
    → newer_key a i b j ≡ true
    → newer_key b j c k ≡ true
    → newer_key a i c k ≡ true
newer_key_trans none i none j none k h h' = ground arith
newer_key_trans none i none j (some c) k h h' = absurd (ground arith)
newer_key_trans none i (some b) j c k h h' = absurd (ground arith)
newer_key_trans (some a) i none j none k h h' = refl
newer_key_trans (some a) i none j (some c) k h h' = absurd (ground arith)
newer_key_trans (some a) i (some b) j none k h h' = refl
newer_key_trans (some a) i (some b) j (some c) k h h' = ground arith

newer_key_irrefl : (a : Option ℕ) (i : ℕ) → newer_key a i a i ≡ false
newer_key_irrefl none i = ground arith
newer_key_irrefl (some a) i = ground arith

pub newer-IsOrder : (sort : AlertSort) → IsOrder (newer sort) (λ (a : Alert). a.oid)
unfolding newer
newer-IsOrder sort = record {
  irrefl = λ x. newer_key_irrefl (sort_field sort x) x.oid;
  trans = λ x y z.
      newer_key_trans (sort_field sort x) x.oid (sort_field sort y) y.oid (sort_field sort z) z.oid;
  total = λ x y. newer_key_total (sort_field sort x) x.oid (sort_field sort y) y.oid;
}

module _ {ℓ} {A : Type ℓ} where
  -- The documents that a loader gets, where they are the last ones.
  pub record IsLast (limit : ℕ) (docs : List A) : Type ℓ where
    pub items : take limit (take (suc limit) docs) ≡ docs
    pub stop : ltb limit (length (take (suc limit) docs)) ≡ false

  -- And where more are behind the page.
  pub record IsFull (limit : ℕ) (docs : List A) : Type ℓ where
    pub front : List A
    pub last : A
    pub rest : List A
    pub parts : docs ≡ front ++ last ∷ rest
    pub items : take limit (take (suc limit) docs) ≡ front ++ last ∷ []
    pub more : ltb limit (length (take (suc limit) docs)) ≡ true

  pub cut : (n : ℕ) (docs : List A) → IsLast (suc n) docs ⊎ IsFull (suc n) docs
  cut n [] = inl (record { items = refl; stop = ground arith })
  cut zero (x ∷ []) = inl (record { items = refl; stop = ground arith })
  cut (suc n) (x ∷ []) = inl (record { items = refl; stop = ground arith })
  cut zero (x ∷ y ∷ docs) = inr (record {
    front = [];
    last = x;
    rest = y ∷ docs;
    parts = refl;
    items = refl;
    more = ground arith;
  })
  cut (suc n) (x ∷ y ∷ docs) = elim (cut n (y ∷ docs)) [
    | inl h ↦ inl (record { items = ap (λ xs. x ∷ xs) h.items; stop = ground (arith, h.stop) })
    | inr h ↦ inr (record {
      front = x ∷ h.front;
      last = h.last;
      rest = h.rest;
      parts = ap (λ xs. x ∷ xs) h.parts;
      items = ap (λ xs. x ∷ xs) h.items;
      more = ground (arith, h.more);
    })
  ]

  pub snoc-append :
      (front : List A) (e : A) (rest : List A) → (front ++ e ∷ []) ++ rest ≡ front ++ e ∷ rest
  snoc-append [] e rest = refl
  snoc-append (x ∷ front) e rest = ap (λ xs. x ∷ xs) (snoc-append front e rest)

  pub All-at : (P : A → Type 0) (xs : List A) (e : A) (ys : List A) → All P (xs ++ e ∷ ys) → P e
  All-at P [] e ys h = h.0
  All-at P (x ∷ xs) e ys h = All-at P xs e ys h.1

module _ (sort : AlertSort) where
  -- Behind a document with a date are exactly those that it is newer than.
  behind-newer :
      (e : Alert) (boundary : ℕ) (docs : List Alert)
      → sort_field sort e ≡ some boundary
      → All (λ a. is_some (sort_field sort a) ≡ true) docs
      → All (λ a. behind sort (some (boundary, e.oid)) a ≡ newer sort e a) docs
  unfolding newer
  behind-newer e boundary docs at dated =
      All-imp (λ a. is_some (sort_field sort a) ≡ true)
        (λ a. behind sort (some (boundary, e.oid)) a ≡ newer sort e a) docs
        (λ a has. rw at (elim (Option-cases (sort_field sort a)) [
          | inl none_ ↦ absurd (ground arith)
          | inr (moment, is) ↦ rw is (ground arith)
        ]))
        dated

  -- What is behind the last document of a part of the sorted list.
  pub behind_part :
      (front : List Alert) (e : Alert) (boundary : ℕ) (rest : List Alert)
      → IsSorted (newer sort) (front ++ e ∷ rest)
      → sort_field sort e ≡ some boundary
      → All (λ a. is_some (sort_field sort a) ≡ true) (front ++ e ∷ rest)
      → filter (behind sort (some (boundary, e.oid))) (front ++ e ∷ rest) ≡ rest
  behind_part front e boundary rest sorted at dated =
      filter-congr (behind sort (some (boundary, e.oid))) (newer sort e) (front ++ e ∷ rest)
        (behind-newer e boundary (front ++ e ∷ rest) at dated)
      ∙ filter-before (newer sort) (λ (a : Alert). a.oid) (newer-IsOrder sort) front e rest sorted

module _ (C : Collection Alert) (sort : AlertSort) (q : AlertQuery) where
  -- Everything that the pages show, in order.
  abbrev pub listed : Collection.State C → List Alert
  listed db = sort_by (newer sort) (filter (build_query sort q) (alerts C db))

  pub list_page_lem :
      (limit : ℕ) (after : Option Place) (db : Collection.State C)
      → IsKeyed (λ (a : Alert). a.oid) (alerts C db)
      → list_page C sort q limit after db ≡ take limit (filter (behind sort after) (listed db))
  unfolding list_page
  list_page_lem limit after db keyed = ap (take limit) (
      ap (sort_by (newer sort)) (filter-and (build_query sort q) (behind sort after) (alerts C db))
      ∙ sym (
          filter-sort_by (newer sort) (λ (a : Alert). a.oid) (newer-IsOrder sort)
            (behind sort after) (filter (build_query sort q) (alerts C db))
            (IsKeyed-filter (λ (a : Alert). a.oid) (build_query sort q) (alerts C db) keyed)))
