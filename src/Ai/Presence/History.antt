-- ===== src/Ai/Presence/History.antt =====
-- What the answers of services/ai/app/presence_servicer.py say of the events that it got.
use theft_detection_platform.Prelude.{
  ℕ, ◌-◌, ◌≤◌, ◌≡◌, ◌↔◌, refl, sym, ap, ◌∙◌, Bool, true, false, not, ◌&&◌, inl, inr, Option, none,
  some, List, [], ◌∷◌, String, str_eq, is_some, eq_iff, arith, if◌then◌else◌, Bool-cases,
  Option-cases, All, All-imp,
}
use theft_detection_platform.Ai.Presence.{
  PresenceEventKind, unspecified, person_entered, person_left, heartbeat, PresenceEvent, AckStatus,
  accepted, PresenceServicer, new_servicer, has_state, is_absent, is_seen, handle,
}

-- An event that the servicer got, and how it answered.
pub record Handled : Type 0 where
  pub at : ℕ
  pub event : PresenceEvent
  pub status : AckStatus

abbrev pub is_accepted : AckStatus → Bool
is_accepted accepted = true
is_accepted _ = false

abbrev pub is_entered : PresenceEventKind → Bool
is_entered person_entered = true
is_entered _ = false

abbrev pub is_left : PresenceEventKind → Bool
is_left person_left = true
is_left _ = false

-- Accepted from this camera.
abbrev pub is_heard : String → Handled → Bool
is_heard camera h = is_accepted h.status && str_eq camera h.event.camera_id

-- The servicers that are reached from a new one, with the events so far, the newest one first.
pub data Reaches (lease holdoff : ℕ) : List Handled → PresenceServicer → Type 0 where
  start : Reaches lease holdoff [] (new_servicer lease holdoff)
  next :
      {history : List Handled} {s : PresenceServicer} (now : ℕ) (e : PresenceEvent)
      → Reaches lease holdoff history s
      → All (λ (h : Handled). h.at ≤ now) history
      → Reaches lease holdoff
          (record { at = now; event = e; status = (handle now e s).1.status } ∷ history)
          (handle now e s).0

-- When the camera was last heard of.
unfoldable pub last_heard : String → List Handled → Option ℕ
last_heard camera [] = none
last_heard camera (h ∷ history) = if is_heard camera h then some h.at else last_heard camera history

-- Since when there has been nobody: the first accepted report that a person left with no accepted
-- report of one that entered since.
unfoldable pub left_since : String → List Handled → Option ℕ
left_since camera [] = none
left_since camera (h ∷ history) =
    let before = left_since camera history in
    if not (is_heard camera h)
    then before
    else if is_entered h.event.kind
    then none
    else if not (is_left h.event.kind)
    then before
    else if is_some before
    then before
    else some h.at

-- A report that a person entered, which was accepted.
abbrev pub enters : String → Handled → Bool
enters camera h = is_heard camera h && is_entered h.event.kind

-- What it means that nobody is in front of a camera: people have left it for as long as the
-- holdoff, and it has been heard of within the lease, and no accepted report of one that entered is younger than that.
pub record IsDeserted (lease holdoff : ℕ) (camera : String) (now : ℕ) (history : List Handled)
    : Type 0 where
  pub since : ℕ
  pub heard : ℕ
  pub left : left_since camera history ≡ some since
  pub signal : last_heard camera history ≡ some heard
  pub fresh : now - heard ≤ lease
  pub long_enough : holdoff ≤ now - since
  pub entries : All (λ h. enters camera h ≡ true → h.at ≤ since) history

-- The servicer's state of a camera, told from the history.
record IsTold (lease holdoff : ℕ) (camera : String) (history : List Handled) (s : PresenceServicer)
    : Type 0 where
  lease_kept : s.lease_seconds ≡ lease
  holdoff_kept : s.absent_holdoff_seconds ≡ holdoff
  signal : s.last_signal camera ≡ last_heard camera history
  state : has_state 0 (s.state_by_camera camera) ≡ is_some (left_since camera history)
  changed :
      has_state 0 (s.state_by_camera camera) ≡ true
      → s.changed_at camera ≡ left_since camera history
  heard : is_some (left_since camera history) ≡ true → is_some (last_heard camera history) ≡ true

module _ (lease holdoff : ℕ) (camera : String) (now : ℕ) (e : PresenceEvent)
    (history : List Handled) (s : PresenceServicer)
    (t : IsTold lease holdoff camera history s) where
  unchanged :
      (later : List Handled)
      → last_heard camera later ≡ last_heard camera history
      → left_since camera later ≡ left_since camera history
      → IsTold lease holdoff camera later s
  unchanged later same_heard same_left = record {
    lease_kept = t.lease_kept;
    holdoff_kept = t.holdoff_kept;
    signal = t.signal ∙ sym same_heard;
    state = ground (arith, t.state, same_left);
    changed = λ zero_state. t.changed zero_state ∙ sym same_left;
    heard = ground (arith, t.heard, same_left, same_heard);
  }

  -- The two dictionaries of states, at the camera that an event is from.
  same_state :
      str_eq camera e.camera_id ≡ true → s.state_by_camera camera ≡ s.state_by_camera e.camera_id
  same_state its = ap s.state_by_camera ((eq_iff camera e.camera_id).0 its)

  handled-IsTold :
      (k : PresenceEventKind)
      → e.kind ≡ k
      → IsTold lease holdoff camera
          (record { at = now; event = e; status = (handle now e s).1.status } ∷ history)
          (handle now e s).0
  unfolding handle last_heard left_since
  handled-IsTold heartbeat is = rw is (record {
    lease_kept = t.lease_kept;
    holdoff_kept = t.holdoff_kept;
    signal = ground (arith, t.signal);
    state = ground (arith, t.state);
    changed = ground (arith, t.changed);
    heard = ground (arith, t.heard);
  })
  handled-IsTold unspecified is = elim (Bool-cases (is_seen e s)) [
    | inl seen ↦ rw (is, seen) (unchanged _ refl refl)
    | inr new ↦
        rw (is, new)
          (record {
            lease_kept = t.lease_kept;
            holdoff_kept = t.holdoff_kept;
            signal = t.signal;
            state = t.state;
            changed = t.changed;
            heard = t.heard;
          })
  ]
  handled-IsTold person_entered is = elim (Bool-cases (is_seen e s)) [
    | inl seen ↦ rw (is, seen) (unchanged _ refl refl)
    | inr new ↦
        rw (is, new)
          (record {
            lease_kept = t.lease_kept;
            holdoff_kept = t.holdoff_kept;
            signal = ground (arith, t.signal);
            state = ground (arith, t.state);
            changed = ground (arith, t.changed);
            heard = ground (arith, t.heard);
          })
  ]
  handled-IsTold person_left is = elim (Bool-cases (is_seen e s)) [
    | inl seen ↦ rw (is, seen) (unchanged _ refl refl)
    | inr new ↦
        rw (is, new)
          (record {
            lease_kept = t.lease_kept;
            holdoff_kept = t.holdoff_kept;
            signal = ground (arith, t.signal);
            state = ground (arith, t.state);
            changed = elim (Bool-cases (str_eq camera e.camera_id)) [
              | inl its ↦ ground (arith, t.changed, t.state, same_state its, its)
              | inr other ↦ ground (arith, t.changed, other)
            ];
            heard = ground (arith, t.heard);
          })
  ]

reaches-IsTold :
    {lease holdoff : ℕ} (camera : String) {history : List Handled} {s : PresenceServicer}
    → Reaches lease holdoff history s
    → IsTold lease holdoff camera history s
unfolding new_servicer last_heard left_since
reaches-IsTold camera start = record {
  lease_kept = refl;
  holdoff_kept = refl;
  signal = refl;
  state = refl;
  changed = λ h. refl;
  heard = λ h. h;
}
reaches-IsTold {lease} {holdoff} camera (next {history} {s} now e r times) =
    handled-IsTold lease holdoff camera now e history s (reaches-IsTold camera r) e.kind refl

enters_before :
    {lease holdoff : ℕ} (camera : String) {history : List Handled} {s : PresenceServicer}
    (since : ℕ)
    → Reaches lease holdoff history s
    → left_since camera history ≡ some since
    → All (λ h. enters camera h ≡ true → h.at ≤ since) history
unfolding left_since
enters_before camera since start left = tt
enters_before camera since (next {history} {s} now e r times) left =
    elim (Option-cases (left_since camera history)) [
      | inl never ↦ (
        λ entered. absurd (ground (arith, left, entered)),
        (let this : since ≡ now = ground (arith, left, never) in
            All-imp _ (λ h. enters camera h ≡ true → h.at ≤ since) history
              (λ h at_past entered. omega (arith, this, at_past)) times),
      )
      | inr (before, left_before) ↦ (
        λ entered. absurd (ground (arith, left, entered)),
        enters_before camera since r (ground (arith, left, left_before)),
      )
    ]

absent-IsDeserted :
    {lease holdoff : ℕ} {camera : String} {now : ℕ} {history : List Handled} {s : PresenceServicer}
    → Reaches lease holdoff history s
    → IsTold lease holdoff camera history s
    → is_absent camera now s ≡ true
    → IsDeserted lease holdoff camera now history
unfolding is_absent
absent-IsDeserted {lease} {holdoff} {camera} {now} {history} {s} r t absent =
    elim (Option-cases (left_since camera history)) [
      | inl nobody_left ↦ absurd (ground (arith, t.state, nobody_left))
      | inr (since, left) ↦ elim (Option-cases (last_heard camera history)) [
        | inl unheard ↦ absurd (ground (arith, t.heard, left, unheard))
        | inr (heard, signal) ↦ record {
          since = since;
          heard = heard;
          left = left;
          signal = signal;
          fresh = ground (arith, t.lease_kept, t.signal, signal);
          long_enough = ground (arith, t.holdoff_kept, t.state, t.changed, left);
          entries = enters_before camera since r left;
        }
      ]
    ]

-- Whatever events a new servicer has handled, it calls a camera absent exactly if, by the events
-- that it accepted, a person has left the camera and nobody has entered it since, this is at least
-- the holdoff ago, and the camera was last heard of within the lease; then every accepted report of
-- a person that entered is as old.
pub is_absent-IsDeserted :
    (lease holdoff : ℕ) (camera : String) (now : ℕ) (history : List Handled) (s : PresenceServicer)
    → Reaches lease holdoff history s
    → (is_absent camera now s ≡ true) ↔ IsDeserted lease holdoff camera now history
unfolding is_absent
is_absent-IsDeserted lease holdoff camera now history s r =
    let t = reaches-IsTold camera r in
    (
      λ absent. absent-IsDeserted r t absent,
      λ d. ground (
        arith, t.lease_kept, t.holdoff_kept, t.signal, t.state, t.changed, d.left, d.signal,
        d.fresh, d.long_enough,
      ),
    )
