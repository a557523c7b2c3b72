-- ===== src/Ai/Concealment/Tracker/Identifiers.antt =====
-- The numbers that the tracker of services/ai/app/concealment.py gives to objects.
use theft_detection_platform.Prelude.{
  ℕ, suc, ◌<◌, ◌≡◌, ◌≢◌, ◌⊎◌, sym, subst, Bool, true, false, inl, inr, Option, some, List, [], ◌∷◌,
  ◌++◌, arith, any, map, if◌then◌else◌, Option-cases, All, All-imp, All-map, All-append_one,
}
use theft_detection_platform.Prelude.Table.{touch}
use theft_detection_platform.Prelude.Sorting.{IsKeyed}
use theft_detection_platform.Ai.Concealment.{Floats, Person, Seen, Item, Settings}
use theft_detection_platform.Ai.Concealment.Geometry.{closest_wrist}
use theft_detection_platform.Ai.Concealment.Tracker.{
  Frame, match_from, update_hold, see, has_item_id,
}

-- The numbers are all different.
abbrev pub AreDistinct : List ℕ → Type 0
AreDistinct [] = Unit
AreDistinct (i ∷ ids) = All (λ j. i ≢ j) ids × AreDistinct ids

module _ (F : Floats) where
  abbrev pub id_of : Item F → ℕ
  id_of item = item.item_id

  -- The items of a list have different numbers, all of them given out before.
  pub record IsNumbered (items : List (Item F)) (next_id : ℕ) : Type 0 where
    pub keyed : IsKeyed id_of items
    pub below : All (λ item. item.item_id < next_id) items

  pub see_id :
      (s : Settings F) (f : Frame F) (o : Seen F) (item : Item F)
      → (see F s f o item).item_id ≡ item.item_id
  unfolding see update_hold
  see_id s f o item = elim (Option-cases (closest_wrist F s o.bbox f.persons)) [
    | inl free ↦ ground arith
    | inr (grip, held) ↦ ground arith
  ]

  taken_or :
      (x item : Item F) (best : Option (Item F)) (takes : Bool) (free : List (Item F))
      → (if takes then some x else best) ≡ some item
      → (any (has_item_id F item.item_id) (x ∷ free) ≡ true) ⊎ (best ≡ some item)
  taken_or x item best true free h = inl (ground arith)
  taken_or x item best false free h = inr h

  pub match_from-member :
      (o : Seen F) (persons : List (Person F)) (free : List (Item F)) (best : Option (Item F))
      (distance : F.Float) {item : Item F}
      → match_from F o persons free best distance ≡ some item
      → (any (has_item_id F item.item_id) free ≡ true) ⊎ (best ≡ some item)
  unfolding match_from
  match_from-member o persons [] best distance h = inr h
  match_from-member o persons (x ∷ free) best distance {item} h =
      elim (match_from-member o persons free _ _ h) [
        | inl deeper ↦ inl (ground arith)
        | inr here ↦ taken_or x item best _ free here
      ]

  IsKeyed-map :
      (g : Item F → Item F) (items : List (Item F))
      → ((item : Item F) → (g item).item_id ≡ item.item_id)
      → IsKeyed id_of items
      → IsKeyed id_of (map g items)
  IsKeyed-map g [] same h = tt
  IsKeyed-map g (x ∷ items) same h = (
    subst (λ i. All (λ y. i ≢ y.item_id) (map g items)) (sym (same x))
        (All-map (λ y. x.item_id ≢ y.item_id) (λ y. x.item_id ≢ y.item_id) g items
          (λ y other. subst (λ i. x.item_id ≢ i) (sym (same y)) other) h.0),
    IsKeyed-map g items same h.1,
  )

  touch_id :
      (s : Settings F) (f : Frame F) (o : Seen F) (id : ℕ) (item : Item F)
      → (touch (has_item_id F id) (see F s f o) item).item_id ≡ item.item_id
  touch_id s f o id item = ground (arith, see_id s f o item)

  pub seen-IsNumbered :
      (s : Settings F) (f : Frame F) (o : Seen F) (id next_id : ℕ) (items : List (Item F))
      → IsNumbered items next_id
      → IsNumbered (map (touch (has_item_id F id) (see F s f o)) items) next_id
  seen-IsNumbered s f o id next_id items n = record {
    keyed = IsKeyed-map _ items (touch_id s f o id) n.keyed;
    below =
        All-map (λ item. item.item_id < next_id) (λ item. item.item_id < next_id) _ items
          (λ item h. subst (λ i. i < next_id) (sym (touch_id s f o id item)) h) n.below;
  }

  IsKeyed-append :
      (items : List (Item F)) (x : Item F)
      → All (λ y. y.item_id < x.item_id) items
      → IsKeyed id_of items
      → IsKeyed id_of (items ++ x ∷ [])
  IsKeyed-append [] x below h = (tt, tt)
  IsKeyed-append (y ∷ items) x below h = (
    All-append_one (λ z. y.item_id ≢ z.item_id) items x h.0 (λ same. omega (arith, same, below.0)),
    IsKeyed-append items x below.1 h.1,
  )

  -- A new item gets the next number.
  pub new-IsNumbered :
      (x : Item F) (next_id : ℕ) (items : List (Item F))
      → x.item_id ≡ next_id
      → IsNumbered items next_id
      → IsNumbered (items ++ x ∷ []) (suc next_id)
  new-IsNumbered x next_id items same n = record {
    keyed =
        IsKeyed-append items x (subst (λ i. All (λ y. y.item_id < i) items) (sym same) n.below)
          n.keyed;
    below =
        All-append_one (λ y. y.item_id < suc next_id) items x
          (All-imp _ (λ y. y.item_id < suc next_id) items (λ y h. omega (arith, h)) n.below)
          (omega (arith, same));
  }
