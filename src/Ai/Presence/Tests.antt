-- ===== src/Ai/Presence/Tests.antt =====
-- A person at a door, and the theorems at concrete inputs.
use theft_detection_platform.Prelude.{◌≡◌, ◌↔◌, refl, true, false, String, List, [], ◌∷◌, arith}
use theft_detection_platform.Ai.Presence.{
  PresenceEventKind, person_entered, person_left, heartbeat, PresenceEvent, accepted,
  dropped_duplicate, PresenceServicer, new_servicer, is_absent, handle, presence_value,
}
use theft_detection_platform.Ai.Presence.History.{
  Handled, Reaches, start, next, last_heard, left_since, IsDeserted, is_absent-IsDeserted,
}

-- Everything that a run calls.
program : Unit {0}
unfolding new_servicer handle is_absent presence_value last_heard left_since
program = tt

abbrev event : String → PresenceEventKind → PresenceEvent
event id kind = record { event_id = id; camera_id = "door"; kind = kind }

abbrev fresh : PresenceServicer
fresh = new_servicer 60 20

abbrev after_one : PresenceServicer
after_one = (handle 10 (event "a" person_entered) fresh).0

abbrev after_two : PresenceServicer
after_two = (handle 30 (event "b" person_left) after_one).0

abbrev after_three : PresenceServicer
after_three = (handle 40 (event "a" person_entered) after_two).0

abbrev after_four : PresenceServicer
after_four = (handle 45 (event "" heartbeat) after_three).0

too_soon : is_absent "door" 49 after_four ≡ false
unfolding program
too_soon = refl

away : is_absent "door" 50 after_four ≡ true
unfolding program
away = refl

counted_in : presence_value "door" after_one ≡ 1
unfolding program
counted_in = refl

lease_over : is_absent "door" 106 after_four ≡ false
unfolding program
lease_over = refl

abbrev history : List Handled
history =
    record { at = 45; event = event "" heartbeat; status = accepted }
    ∷ record { at = 40; event = event "a" person_entered; status = dropped_duplicate }
    ∷ record { at = 30; event = event "b" person_left; status = accepted }
    ∷ record { at = 10; event = event "a" person_entered; status = accepted }
    ∷ []

reached : Reaches 60 20 history after_four
unfolding program
reached =
    next 45 (event "" heartbeat)
      (next 40 (event "a" person_entered)
        (next 30 (event "b" person_left) (next 10 (event "a" person_entered) start tt)
          (omega arith, tt))
        (omega arith, (omega arith, tt)))
      (omega arith, (omega arith, (omega arith, tt)))

is_absent-IsDeserted_example :
    (is_absent "door" 50 after_four ≡ true) ↔ IsDeserted 60 20 "door" 50 history
is_absent-IsDeserted_example = is_absent-IsDeserted 60 20 "door" 50 history after_four reached
