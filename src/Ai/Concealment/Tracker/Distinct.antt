-- ===== src/Ai/Concealment/Tracker/Distinct.antt =====
-- Over a run of frames, the objects of a frame get different numbers,
-- services/ai/app/concealment.py.
use theft_detection_platform.Prelude.{
  ℕ, suc, ◌≤◌, ◌<◌, ◌≡◌, ◌≢◌, ◌⊎◌, refl, sym, subst, Bool, true, false, inl, inr, none, some, List,
  [], ◌∷◌, ◌++◌, arith, any, map, Bool-cases, Option-cases, All, All-imp,
}
use theft_detection_platform.Prelude.Table.{touch}
use theft_detection_platform.Prelude.Collection.{delete_first, All-delete_first}
use theft_detection_platform.Prelude.Sorting.{IsKeyed}
use theft_detection_platform.Ai.Concealment.{Floats, Person, Seen, Item, Settings}
use theft_detection_platform.Ai.Concealment.Tracker.{
  Frame, match_item, see, new_item, has_item_id, numbered, assign,
}
use theft_detection_platform.Ai.Concealment.Tracker.Identifiers.{
  AreDistinct, id_of, IsNumbered, see_id, match_from-member, seen-IsNumbered, new-IsNumbered,
}

module _ (F : Floats) where
  assign_new :
      (s : Settings F) (f : Frame F) (o : Seen F) (objects : List (Seen F))
      (free items : List (Item F)) (next_id : ℕ)
      → match_item F o f.persons free ≡ none
      → assign F s f (o ∷ objects) free items next_id
        ≡ numbered F next_id (
            assign F s f objects free
              (items ++ see F s f o (new_item F f o next_id) ∷ [])
              (suc next_id))
  unfolding assign
  assign_new s f o objects free items next_id new = ground arith

  assign_matched :
      (s : Settings F) (f : Frame F) (o : Seen F) (objects : List (Seen F))
      (free items : List (Item F)) (next_id : ℕ) {item : Item F}
      → match_item F o f.persons free ≡ some item
      → assign F s f (o ∷ objects) free items next_id
        ≡ numbered F item.item_id (
            assign F s f objects
              (delete_first (has_item_id F item.item_id) free)
              (map (touch (has_item_id F item.item_id) (see F s f o)) items)
              next_id)
  unfolding assign
  assign_matched s f o objects free items next_id matched = ground arith

  pub assign-IsNumbered :
      (s : Settings F) (f : Frame F) (objects : List (Seen F)) (free items : List (Item F))
      (next_id : ℕ)
      → IsNumbered F items next_id
      → IsNumbered F
          (assign F s f objects free items next_id).items
          (assign F s f objects free items next_id).next_id
        × (next_id ≤ (assign F s f objects free items next_id).next_id)
  unfolding assign
  assign-IsNumbered s f [] free items next_id n = (n, omega arith)
  assign-IsNumbered s f (o ∷ objects) free items next_id n =
      elim (Option-cases (match_item F o f.persons free)) [
        | inl new ↦
            let x = see F s f o (new_item F f o next_id) in
            let later =
              assign-IsNumbered s f objects free (items ++ x ∷ []) (suc next_id)
                (new-IsNumbered F x next_id items (see_id F s f o (new_item F f o next_id)) n) in
            rw (assign_new s f o objects free items next_id new) (later.0, omega (arith, later.1))
        | inr (item, matched) ↦ rw (assign_matched s f o objects free items next_id matched) (
            assign-IsNumbered s f objects (delete_first (has_item_id F item.item_id) free)
              (map (touch (has_item_id F item.item_id) (see F s f o)) items) next_id
              (seen-IsNumbered F s f o item.item_id next_id items n))
      ]

  -- A number that an object may get: one of a free item, or a new one.
  abbrev pub Available : List (Item F) → ℕ → ℕ → Type 0
  Available free next_id i = (any (has_item_id F i) free ≡ true) ⊎ (next_id ≤ i)

  any-delete :
      (p : Item F → Bool) (i : ℕ) (free : List (Item F))
      → any (has_item_id F i) (delete_first p free) ≡ true
      → any (has_item_id F i) free ≡ true
  any-delete p i [] h = h
  any-delete p i (x ∷ free) h = elim (Bool-cases (p x)) [
    | inl found ↦ ground arith
    | inr missed ↦ ground (arith, any-delete p i free)
  ]

  absent :
      (i : ℕ) (free : List (Item F))
      → All (λ (y : Item F). i ≢ y.item_id) free
      → any (has_item_id F i) free ≡ false
  absent i [] h = refl
  absent i (x ∷ free) h = ground (arith, h.0, absent i free h.1)

  -- Once it is taken, a number is free no more.
  taken :
      (i : ℕ) (free : List (Item F))
      → IsKeyed (id_of F) free
      → any (has_item_id F i) (delete_first (has_item_id F i) free) ≡ false
  taken i [] h = refl
  taken i (x ∷ free) h = elim (Bool-cases (has_item_id F i x)) [
    | inl its ↦
        let same : x.item_id ≡ i = ground arith in
        rw its (absent i free (subst (λ k. All (λ (y : Item F). k ≢ y.item_id) free) same h.0))
    | inr other ↦ rw (other, other) (taken i free h.1)
  ]

  IsKeyed-delete :
      (p : Item F → Bool) (free : List (Item F))
      → IsKeyed (id_of F) free
      → IsKeyed (id_of F) (delete_first p free)
  IsKeyed-delete p [] h = tt
  IsKeyed-delete p (x ∷ free) h = elim (Bool-cases (p x)) [
    | inl found ↦ rw found h.1
    | inr missed ↦
        rw missed
          (All-delete_first (λ y. x.item_id ≢ y.item_id) p free h.0, IsKeyed-delete p free h.1)
  ]

  below_next :
      (i next_id : ℕ) (free : List (Item F))
      → All (λ (item : Item F). item.item_id < next_id) free
      → any (has_item_id F i) free ≡ true
      → i < next_id
  below_next i next_id [] below h = absurd (ground arith)
  below_next i next_id (x ∷ free) below h = elim (Bool-cases (has_item_id F i x)) [
    | inl its ↦ ground (arith, below.0)
    | inr other ↦ below_next i next_id free below.1 (ground arith)
  ]

  match-member :
      (o : Seen F) (persons : List (Person F)) (free : List (Item F)) {item : Item F}
      → match_item F o persons free ≡ some item
      → any (has_item_id F item.item_id) free ≡ true
  match-member o persons free h = elim (match_from-member F o persons free none F.infinity h) [
    | inl member ↦ member
    | inr here ↦ absurd (ground arith)
  ]

  pub assign_ids :
      (s : Settings F) (f : Frame F) (objects : List (Seen F)) (free items : List (Item F))
      (next_id : ℕ)
      → IsNumbered F free next_id
      → AreDistinct (assign F s f objects free items next_id).object_ids
        × All (Available free next_id) (assign F s f objects free items next_id).object_ids
  unfolding assign
  assign_ids s f [] free items next_id n = (tt, tt)
  assign_ids s f (o ∷ objects) free items next_id n =
      elim (Option-cases (match_item F o f.persons free)) [
        | inl new ↦
            let later =
              assign_ids s f objects free (items ++ see F s f o (new_item F f o next_id) ∷ [])
                (suc next_id)
                (record {
                  keyed = n.keyed;
                  below = All-imp _ _ free (λ item h. omega (arith, h)) n.below;
                }) in
            rw (assign_new s f o objects free items next_id new) (
              (
                All-imp _ (λ j. next_id ≢ j) _
                    (λ j available same. elim available [
                      | inl member ↦ omega (arith, below_next j next_id free n.below member, same)
                      | inr newer ↦ omega (arith, newer, same)
                    ])
                    later.1,
                later.0,
              ),
              (
                inr (omega arith),
                All-imp _ (Available free next_id) _
                    (λ j available. elim available [
                      | inl member ↦ inl member
                      | inr newer ↦ inr (omega (arith, newer))
                    ])
                    later.1,
              ),
            )
        | inr (item, matched) ↦
            let i = item.item_id in
            let left = delete_first (has_item_id F i) free in
            let member = match-member o f.persons free matched in
            let later =
              assign_ids s f objects left (map (touch (has_item_id F i) (see F s f o)) items)
                next_id
                (record {
                  keyed = IsKeyed-delete (has_item_id F i) free n.keyed;
                  below = All-delete_first _ (has_item_id F i) free n.below;
                }) in
            rw (assign_matched s f o objects free items next_id matched) (
              (
                All-imp _ (λ j. i ≢ j) _
                    (λ j available same. elim available [
                      | inl still ↦ ground (
                        arith,
                        taken i free n.keyed,
                        subst (λ k. any (has_item_id F k) left ≡ true) (sym same) still,
                      )
                      | inr newer ↦
                          omega (arith, below_next i next_id free n.below member, newer, same)
                    ])
                    later.1,
                later.0,
              ),
              (
                inl member,
                All-imp _ (Available free next_id) _
                    (λ j available. elim available [
                      | inl still ↦ inl (any-delete (has_item_id F i) j free still)
                      | inr newer ↦ inr newer
                    ])
                    later.1,
              ),
            )
      ]
