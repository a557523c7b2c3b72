-- ===== src/Ai/Concealment/Tracker/Tests.antt =====
-- A bag that is taken and disappears, and the theorems at concrete inputs. Whole numbers stand for
-- the floating-point numbers.
use theft_detection_platform.Prelude.{
  ℕ, ◌+◌, ◌-◌, ◌*◌, ◌/◌, ◌≤◌, max, ◌≡◌, refl, true, List, [], ◌∷◌, ltb, leb, length, map, All,
}
use theft_detection_platform.Ai.Concealment.{
  Floats, Box, Keypoint, Person, Seen, ConcealmentVerdict, Settings,
}
use theft_detection_platform.Ai.Concealment.Geometry.{
  near, try_wrist, closest_wrist_from, still_visible, hand_on_spot,
}
use theft_detection_platform.Ai.Concealment.Tracker.{
  Tracker, Frame, new_tracker, match_from, update_hold, see, assign, ready, collect, observe,
  seen_persons, assigned, is_muted,
}
use theft_detection_platform.Ai.Concealment.Tracker.Identifiers.{AreDistinct}
use theft_detection_platform.Ai.Concealment.Tracker.Verdicts.{
  IsWarranted, observe-IsWarranted, verdict_times, IsSpaced, verdict_times-IsSpaced,
}
use theft_detection_platform.Ai.Concealment.Tracker.Runs.{IsTracked, run, run-AreDistinct}

-- Everything that a run calls.
program : Unit {0}
unfolding near try_wrist closest_wrist_from still_visible hand_on_spot new_tracker match_from
    update_hold see assign ready collect observe verdict_times run
program = tt

abbrev numbers : Floats
numbers = record {
  Float = ℕ;
  zero = 0;
  one = 1;
  two = 2;
  infinity = 1000000;
  add = λ a b. a + b;
  sub = λ a b. a - b;
  mul = λ a b. a * b;
  div = λ a b. a / b;
  max = λ a b. max a b;
  hypot = λ a b. a + b;
  lt = ltb;
  le = leb;
}

abbrev settings : Settings numbers
settings = record {
  grab_ratio = 0;
  move_ratio = 1;
  missing_seconds = 5;
  keypoint_confidence = 1;
  expiry_seconds = 100;
}

abbrev box : (x1 y1 x2 y2 : ℕ) → Box numbers
box x1 y1 x2 y2 = record { x1 = x1; y1 = y1; x2 = x2; y2 = y2 }

abbrev at : (x y : ℕ) → Keypoint numbers
at x y = record { x = x; y = y; confidence = 1 }

-- A person whose hands are at a point.
abbrev person : (hand : ℕ) → Person numbers
person hand = record {
  track_id = 7;
  keypoints =
      at 0 0
      ∷ at 0 0
      ∷ at 0 0
      ∷ at 0 0
      ∷ at 0 0
      ∷ at 50 100
      ∷ at 50 100
      ∷ at 0 0
      ∷ at 0 0
      ∷ at hand hand
      ∷ at hand hand
      ∷ at 50 80
      ∷ at 50 80
      ∷ [];
  bbox = box 0 0 300 300;
}

abbrev bag : Seen numbers
bag = record { class_name = "bag"; bbox = box 40 40 60 60 }

abbrev far_bag : Seen numbers
far_bag = record { class_name = "bag"; bbox = box 400 400 420 420 }

abbrev frame : (index hand : ℕ) → List (Seen numbers) → Frame numbers
frame index hand objects = record {
  camera_id = "door";
  frame_index = index;
  captured_at = index * 10;
  persons = person hand ∷ [];
  objects = objects;
}

abbrev start : Tracker numbers
start = new_tracker numbers settings

-- A hand on the bag, and then a hand elsewhere and no bag.
abbrev grabbed : Tracker numbers
grabbed = run numbers (frame 1 50 (bag ∷ []) ∷ []) start

abbrev story : List (Frame numbers)
story =
    frame 1 50 (bag ∷ far_bag ∷ [])
    ∷ frame 2 200 []
    ∷ frame 3 50 (bag ∷ [])
    ∷ frame 4 200 []
    ∷ frame 15 50 (bag ∷ [])
    ∷ frame 16 200 []
    ∷ []

raises : length (observe numbers (frame 2 200 []) grabbed).verdicts ≡ 1
unfolding program
raises = refl

names_the_bag :
    map
      (λ (v : ConcealmentVerdict numbers). v.object_track_id)
      (observe numbers (frame 2 200 []) grabbed).verdicts
    ≡ 1 ∷ []
unfolding program
names_the_bag = refl

-- The second disappearance falls into the mute time.
times : verdict_times numbers "door" story start ≡ 20 ∷ 160 ∷ []
unfolding program
times = refl

two_ids : (observe numbers (frame 1 50 (bag ∷ far_bag ∷ [])) start).object_ids ≡ 1 ∷ 2 ∷ []
unfolding program
two_ids = refl

observe-IsWarranted_example :
    (length (observe numbers (frame 2 200 []) grabbed).verdicts ≤ 1)
    × All
        (IsWarranted numbers grabbed.settings
          (frame 2 200 [])
          (seen_persons numbers (frame 2 200 []) grabbed)
          (assigned numbers (frame 2 200 []) grabbed).items)
        (observe numbers (frame 2 200 []) grabbed).verdicts
    × (is_muted numbers grabbed.settings (frame 2 200 []) (grabbed.last_fired "door") ≡ true
        → (observe numbers (frame 2 200 []) grabbed).verdicts ≡ [])
observe-IsWarranted_example = observe-IsWarranted numbers (frame 2 200 []) grabbed

verdict_times-IsSpaced_example :
    IsSpaced numbers start.settings (verdict_times numbers "door" story start)
verdict_times-IsSpaced_example = verdict_times-IsSpaced numbers "door" story start

run-AreDistinct_example :
    AreDistinct
      (observe numbers
        (frame 1 50 (bag ∷ far_bag ∷ []))
        (run numbers story (new_tracker numbers settings))).object_ids
    × IsTracked numbers
        (observe numbers
          (frame 1 50 (bag ∷ far_bag ∷ []))
          (run numbers story (new_tracker numbers settings))).tracker
run-AreDistinct_example = run-AreDistinct numbers settings story (frame 1 50 (bag ∷ far_bag ∷ []))
