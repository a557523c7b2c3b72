-- ===== src/Ai/Concealment/Tracker/Runs.antt =====
-- Runs of the tracker of services/ai/app/concealment.py.
use theft_detection_platform.Prelude.{
  ℕ, ◌<◌, ◌≢◌, subst, Bool, false, not, ◌&&◌, ◌||◌, inl, inr, Option, List, [], ◌∷◌, arith, String,
  str_eq, Bool-cases, All, All-imp,
}
use theft_detection_platform.Prelude.Sorting.{IsKeyed}
use theft_detection_platform.Ai.Concealment.{Floats, Item, Settings}
use theft_detection_platform.Ai.Concealment.Tracker.{
  Tracker, Frame, new_tracker, collect, ready, expired, observe, assigned,
}
use theft_detection_platform.Ai.Concealment.Tracker.Identifiers.{AreDistinct, id_of, IsNumbered}
use theft_detection_platform.Ai.Concealment.Tracker.Distinct.{assign-IsNumbered, assign_ids}

module _ (F : Floats) where
  collect-All :
      (P : ℕ → Type 0) (s : Settings F) (f : Frame F) (seen : String → ℕ → Option F.Float)
      (muted : Bool) (items : List (Item F))
      → All (λ (item : Item F). P item.item_id) items
      → All (λ (item : Item F). P item.item_id) (collect F s f seen muted items).kept
  unfolding collect
  collect-All P s f seen muted [] h = tt
  collect-All P s f seen muted (x ∷ items) h =
      let rest =
        collect-All P s f seen (muted || (not (expired F s f x) && ready F s f seen x)) items h.1 in
      elim (Bool-cases (expired F s f x)) [
        | inl gone ↦ rw gone (
            subst
              (λ b.
                All (λ (item : Item F). P item.item_id)
                  (collect F s f seen (muted || (not b && ready F s f seen x)) items).kept)
              gone rest)
        | inr here ↦ rw here (
          h.0,
          subst
              (λ b.
                All (λ (item : Item F). P item.item_id)
                  (collect F s f seen (muted || (not b && ready F s f seen x)) items).kept)
              here rest,
        )
      ]

  collect-IsKeyed :
      (s : Settings F) (f : Frame F) (seen : String → ℕ → Option F.Float) (muted : Bool)
      (items : List (Item F))
      → IsKeyed (id_of F) items
      → IsKeyed (id_of F) (collect F s f seen muted items).kept
  unfolding collect
  collect-IsKeyed s f seen muted [] h = tt
  collect-IsKeyed s f seen muted (x ∷ items) h = elim (Bool-cases (expired F s f x)) [
    | inl gone ↦ rw gone (collect-IsKeyed s f seen (muted || false) items h.1)
    | inr here ↦ rw here (
      collect-All (λ i. x.item_id ≢ i) s f seen (muted || ready F s f seen x) items h.0,
      collect-IsKeyed s f seen (muted || ready F s f seen x) items h.1,
    )
  ]

  -- Every camera's items have different numbers, all of them given out before.
  abbrev pub IsTracked : Tracker F → Type 0
  IsTracked t = (camera : String) → IsNumbered F (t.items camera) t.next_id

  observe-IsTracked :
      (f : Frame F) (t : Tracker F) → IsTracked t → IsTracked (observe F f t).tracker
  unfolding observe
  observe-IsTracked f t h camera =
      let (numbered_, more) =
        assign-IsNumbered F t.settings f f.objects (t.items f.camera_id) (t.items f.camera_id)
          t.next_id (h f.camera_id) in
      elim (Bool-cases (str_eq camera f.camera_id)) [
        | inl its ↦ rw its (record {
          keyed = collect-IsKeyed t.settings f _ _ (assigned F f t).items numbered_.keyed;
          below =
              collect-All (λ i. i < (assigned F f t).next_id) t.settings f _ _
                (assigned F f t).items numbered_.below;
        })
        | inr other ↦ rw other (record {
          keyed = (h camera).keyed;
          below =
              All-imp _ (λ (item : Item F). item.item_id < (assigned F f t).next_id)
                (t.items camera) (λ item below. omega (arith, below, more)) (h camera).below;
        })
      ]

  -- The tracker after a run of frames.
  unfoldable pub run : List (Frame F) → Tracker F → Tracker F
  run [] t = t
  run (f ∷ frames) t = run frames (observe F f t).tracker

  run-IsTracked : (frames : List (Frame F)) (t : Tracker F) → IsTracked t → IsTracked (run frames t)
  unfolding run
  run-IsTracked [] t h = h
  run-IsTracked (f ∷ frames) t h = run-IsTracked frames _ (observe-IsTracked f t h)

  new_tracker-IsTracked : (s : Settings F) → IsTracked (new_tracker F s)
  unfolding new_tracker
  new_tracker-IsTracked s camera = record { keyed = tt; below = tt }

  -- Whatever frames a new tracker has seen, of whatever cameras: the objects of the next frame get
  -- different numbers, and the numbers of a camera's items are different and were all given out.
  pub run-AreDistinct :
      (s : Settings F) (frames : List (Frame F)) (f : Frame F)
      → AreDistinct (observe F f (run frames (new_tracker F s))).object_ids
        × IsTracked (observe F f (run frames (new_tracker F s))).tracker
  unfolding observe
  run-AreDistinct s frames f =
      let t = run frames (new_tracker F s) in
      let h = run-IsTracked frames (new_tracker F s) (new_tracker-IsTracked s) in
      (
        (assign_ids F t.settings f f.objects (t.items f.camera_id) (t.items f.camera_id) t.next_id
            (h f.camera_id)).0,
        observe-IsTracked f t h,
      )
