-- ===== src/Ai/Concealment/Tracker/Verdicts.antt =====
-- When the tracker of services/ai/app/concealment.py raises a verdict.
use theft_detection_platform.Prelude.{
  ℕ, ◌≤◌, ◌≡◌, refl, sym, ap, ◌∙◌, subst, Bool, true, false, not, ◌&&◌, ◌||◌, inl, inr, Option,
  none, some, List, [], ◌∷◌, ◌++◌, arith, length, String, str_eq, eq_iff, if◌then◌else◌, Bool-cases,
  Option-cases, All, All-imp,
}
use theft_detection_platform.Ai.Concealment.{Floats, Item, ConcealmentVerdict, Settings}
use theft_detection_platform.Ai.Concealment.Geometry.{still_visible, hand_on_spot}
use theft_detection_platform.Ai.Concealment.Tracker.{
  Tracker, Frame, ready, expired, verdict_of, collect, holder_present, is_muted, observe,
  any_verdict, assigned, seen_persons,
}

module _ (F : Floats) where
  -- What a verdict rests on: an item of the list that was held and has not been reported since it
  -- was last seen, that has been missing for at least the missing time and has not expired, that no
  -- object of the frame looks like, on whose spot no hand of its holder is seen or may be hidden, and
  -- whose holder was last seen within the missing time.
  pub record IsWarranted (s : Settings F) (f : Frame F) (seen : String → ℕ → Option F.Float)
      (items : List (Item F)) (v : ConcealmentVerdict F) : Type 0 where
    pub item : Item F
    pub front : List (Item F)
    pub rest : List (Item F)
    pub among : items ≡ front ++ item ∷ rest
    pub reported : v ≡ verdict_of F f item
    pub held : item.held ≡ true
    pub unreported : item.fired ≡ false
    pub missing : F.lt (F.sub f.captured_at item.last_seen_at) s.missing_seconds ≡ false
    pub not_expired : expired F s f item ≡ false
    pub not_visible : still_visible F item f.objects ≡ false
    pub hand_away : hand_on_spot F s item f.persons ≡ false
    pub holder_near : holder_present F s f seen item ≡ true

  module _ (s : Settings F) (f : Frame F) (seen : String → ℕ → Option F.Float) where
    behind_one :
        (x : Item F) (items : List (Item F)) (v : ConcealmentVerdict F)
        → IsWarranted s f seen items v
        → IsWarranted s f seen (x ∷ items) v
    behind_one x items v w = record {
      item = w.item;
      front = x ∷ w.front;
      rest = w.rest;
      among = ap (λ l. x ∷ l) w.among;
      reported = w.reported;
      held = w.held;
      unreported = w.unreported;
      missing = w.missing;
      not_expired = w.not_expired;
      not_visible = w.not_visible;
      hand_away = w.hand_away;
      holder_near = w.holder_near;
    }

    ready-IsWarranted :
        (x : Item F) (items : List (Item F))
        → expired F s f x ≡ false
        → ready F s f seen x ≡ true
        → IsWarranted s f seen (x ∷ items) (verdict_of F f x)
    unfolding ready
    ready-IsWarranted x items fresh h = record {
      item = x;
      front = [];
      rest = items;
      among = refl;
      reported = refl;
      held = ground arith;
      unreported = ground arith;
      missing = ground arith;
      not_expired = fresh;
      not_visible = ground arith;
      hand_away = ground arith;
      holder_near = ground arith;
    }

    -- Muted, the loop raises nothing.
    collect-muted : (items : List (Item F)) → (collect F s f seen true items).verdicts ≡ []
    unfolding collect
    collect-muted [] = refl
    collect-muted (x ∷ items) = ground (arith, collect-muted items)

    collect-length :
        (muted : Bool) (items : List (Item F))
        → length (collect F s f seen muted items).verdicts ≤ 1
    unfolding collect
    collect-length muted [] = omega arith
    collect-length true (x ∷ items) = ground (arith, collect-muted items)
    collect-length false (x ∷ items) =
        elim (Bool-cases (not (expired F s f x) && ready F s f seen x)) [
          | inl fires ↦ rw fires (ground (arith, collect-muted items))
          | inr other ↦ rw other (collect-length false items)
        ]

    collect-IsWarranted :
        (muted : Bool) (items : List (Item F))
        → All (IsWarranted s f seen items) (collect F s f seen muted items).verdicts
    unfolding collect
    collect-IsWarranted muted [] = tt
    collect-IsWarranted muted (x ∷ items) =
        let others =
          All-imp (IsWarranted s f seen items) (IsWarranted s f seen (x ∷ items)) _
            (behind_one x items)
            (collect-IsWarranted (muted || (not (expired F s f x) && ready F s f seen x)) items) in
        elim (Bool-cases ((not (expired F s f x) && ready F s f seen x) && not muted)) [
          | inl fires ↦ rw fires (ready-IsWarranted x items (ground arith) (ground arith), others)
          | inr other ↦ rw other others
        ]

  -- A frame raises one verdict at most, and none within the mute time of the camera's last one; a
  -- verdict is warranted.
  pub observe-IsWarranted :
      (f : Frame F) (t : Tracker F)
      → (length (observe F f t).verdicts ≤ 1)
        × All
            (IsWarranted t.settings f (seen_persons F f t) (assigned F f t).items)
            (observe F f t).verdicts
        × (is_muted F t.settings f (t.last_fired f.camera_id) ≡ true
            → (observe F f t).verdicts ≡ [])
  unfolding observe
  observe-IsWarranted f t = (
    collect-length t.settings f (seen_persons F f t) _ (assigned F f t).items,
    collect-IsWarranted t.settings f (seen_persons F f t) _ (assigned F f t).items,
    λ muted. rw muted (collect-muted t.settings f (seen_persons F f t) (assigned F f t).items),
  )

  -- The moments of the verdicts for a camera, over a run of frames.
  unfoldable pub verdict_times : (camera : String) → List (Frame F) → Tracker F → List F.Float
  verdict_times camera [] t = []
  verdict_times camera (f ∷ frames) t =
      let rest = verdict_times camera frames (observe F f t).tracker in
      if str_eq camera f.camera_id && any_verdict F (observe F f t).verdicts
      then f.captured_at ∷ rest
      else rest

  -- No moment is within the mute time of the one before.
  abbrev pub IsSpaced : Settings F → List F.Float → Type 0
  IsSpaced s [] = Unit
  IsSpaced s (x ∷ []) = Unit
  IsSpaced s (x ∷ y ∷ times) = (F.lt (F.sub y x) s.expiry_seconds ≡ false) × IsSpaced s (y ∷ times)

  abbrev SpacedAfter : Settings F → Option F.Float → List F.Float → Type 0
  SpacedAfter s none times = IsSpaced s times
  SpacedAfter s (some at) times = IsSpaced s (at ∷ times)

  any_verdict-unmuted :
      (f : Frame F) (t : Tracker F)
      → any_verdict F (observe F f t).verdicts ≡ true
      → is_muted F t.settings f (t.last_fired f.camera_id) ≡ false
  any_verdict-unmuted f t h =
      elim (Bool-cases (is_muted F t.settings f (t.last_fired f.camera_id))) [
        | inr unmuted ↦ unmuted
        | inl muted ↦
            absurd (ground (arith, ap (any_verdict F) ((observe-IsWarranted f t).2 muted)))
      ]

  observe_settings : (f : Frame F) (t : Tracker F) → (observe F f t).tracker.settings ≡ t.settings
  unfolding observe
  observe_settings f t = refl

  observe_last_fired :
      (camera : String) (f : Frame F) (t : Tracker F)
      → (observe F f t).tracker.last_fired camera ≡ (
          if str_eq camera f.camera_id && any_verdict F (observe F f t).verdicts
          then some f.captured_at
          else t.last_fired camera)
  unfolding observe
  observe_last_fired camera f t = refl

  step_spaced :
      (s : Settings F) (camera : String) (f : Frame F) (t : Tracker F) (times : List F.Float)
      → t.settings ≡ s
      → str_eq camera f.camera_id ≡ true
      → any_verdict F (observe F f t).verdicts ≡ true
      → IsSpaced s (f.captured_at ∷ times)
      → SpacedAfter s (t.last_fired camera) (f.captured_at ∷ times)
  step_spaced s camera f t times same its fires spaced = elim (Option-cases (t.last_fired camera)) [
    | inl never ↦ rw never spaced
    | inr (at, once) ↦ rw once (
      ground (
        arith,
        ap (λ z. F.lt (F.sub f.captured_at at) z.expiry_seconds) same,
        ap (is_muted F t.settings f)
            (ap t.last_fired (sym ((eq_iff camera f.camera_id).0 its)) ∙ once),
        any_verdict-unmuted f t fires,
      ),
      spaced,
    )
  ]

  spaced_from :
      (s : Settings F) (camera : String) (frames : List (Frame F)) (t : Tracker F)
      → t.settings ≡ s
      → SpacedAfter s (t.last_fired camera) (verdict_times camera frames t)
  unfolding verdict_times
  spaced_from s camera [] t same = elim (Option-cases (t.last_fired camera)) [
    | inl never ↦ rw never tt
    | inr (at, once) ↦ rw once tt
  ]
  spaced_from s camera (f ∷ frames) t same =
      let later =
        subst (λ o. SpacedAfter s o (verdict_times camera frames (observe F f t).tracker))
          (observe_last_fired camera f t)
          (spaced_from s camera frames (observe F f t).tracker (observe_settings f t ∙ same)) in
      elim (Bool-cases (str_eq camera f.camera_id && any_verdict F (observe F f t).verdicts)) [
        | inr other ↦ rw other (
            subst
              (λ b.
                SpacedAfter s (if b then some f.captured_at else t.last_fired camera)
                  (verdict_times camera frames (observe F f t).tracker))
              other later)
        | inl fires ↦ rw fires (
            step_spaced s camera f t (verdict_times camera frames (observe F f t).tracker) same
              (ground arith) (ground arith)
              (subst
                (λ b.
                  SpacedAfter s (if b then some f.captured_at else t.last_fired camera)
                    (verdict_times camera frames (observe F f t).tracker))
                fires later))
      ]

  drop_first :
      (s : Settings F) (at : F.Float) (times : List F.Float)
      → IsSpaced s (at ∷ times)
      → IsSpaced s times
  drop_first s at [] h = tt
  drop_first s at (x ∷ times) h = h.1

  -- Over any run of frames with the same settings, of this camera and of others, a verdict for the
  -- camera is never raised within the mute time of the one before it.
  pub verdict_times-IsSpaced :
      (camera : String) (frames : List (Frame F)) (t : Tracker F)
      → IsSpaced t.settings (verdict_times camera frames t)
  verdict_times-IsSpaced camera frames t =
      let spaced = spaced_from t.settings camera frames t refl in
      elim (Option-cases (t.last_fired camera)) [
        | inl never ↦
            subst (λ o. SpacedAfter t.settings o (verdict_times camera frames t)) never spaced
        | inr (at, once) ↦
            drop_first t.settings at (verdict_times camera frames t)
              (subst (λ o. SpacedAfter t.settings o (verdict_times camera frames t)) once spaced)
      ]
