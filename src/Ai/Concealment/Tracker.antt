-- ===== src/Ai/Concealment/Tracker.antt =====
-- `ConcealmentTracker` of services/ai/app/concealment.py.
pub mod Verdicts
pub mod Identifiers
pub mod Distinct
pub mod Runs
mod Tests
use theft_detection_platform.Prelude.{
  ℕ, zero, suc, ◌+◌, Bool, true, false, not, ◌&&◌, ◌||◌, Option, none, some, List, [], ◌∷◌, ◌++◌,
  String, str_eq, ◌==◌, map, is_some, if◌then◌else◌,
}
use theft_detection_platform.Prelude.Table.{touch}
use theft_detection_platform.Prelude.Collection.{delete_first}
use theft_detection_platform.Ai.Concealment.{
  Floats, Box, Person, Seen, Item, ConcealmentVerdict, Settings, minus,
}
use theft_detection_platform.Ai.Concealment.Geometry.{
  centre_x, centre_y, height, contains, near, body_of, Grip, closest_wrist, still_visible,
  hand_on_spot,
}

module _ (F : Floats) where
  pub record Tracker : Type 0 where
    pub settings : Settings F
    pub items : String → List (Item F)
    pub persons : String → ℕ → Option F.Float
    pub last_fired : String → Option F.Float
    pub next_id : ℕ

  -- One frame of a camera.
  pub record Frame : Type 0 where
    pub camera_id : String
    pub frame_index : ℕ
    pub captured_at : F.Float
    pub persons : List (Person F)
    pub objects : List (Seen F)

  unfoldable pub new_tracker : Settings F → Tracker
  new_tracker settings = record {
    settings = settings;
    items = λ camera. [];
    persons = λ camera track. none;
    last_fired = λ camera. none;
    next_id = 1;
  }

  unfoldable pub retune :
      (grab_ratio missing_seconds keypoint_confidence expiry_seconds : F.Float) → Tracker → Tracker
  retune grab_ratio missing_seconds keypoint_confidence expiry_seconds t = record t {
    settings = record t.settings {
      grab_ratio = grab_ratio;
      missing_seconds = missing_seconds;
      keypoint_confidence = keypoint_confidence;
      expiry_seconds = expiry_seconds;
    };
  }

  -- `self._persons[(camera_id, track_id)] = captured_at` for each person.
  abbrev pub note_persons :
      Frame → List (Person F) → (String → ℕ → Option F.Float) → String → ℕ → Option F.Float
  note_persons f [] seen camera track = seen camera track
  note_persons f (p ∷ persons) seen camera track =
      if str_eq camera f.camera_id && track == p.track_id
      then some f.captured_at
      else note_persons f persons seen camera track

  -- An item that is held, and whose holder's body has the point.
  abbrev pub on_holder : List (Person F) → (x y : F.Float) → Item F → Bool
  on_holder persons x y item = elim (body_of F persons item.held_by_track) [
    | none ↦ false
    | some holder ↦ contains F x y holder
  ]

  -- The loop of `_match`, with the best item and its distance so far.
  unfoldable pub match_from :
      Seen F → List (Person F) → List (Item F) → Option (Item F) → F.Float → Option (Item F)
  match_from o persons [] best best_distance = best
  match_from o persons (item ∷ free) best best_distance =
      let (is_near, distance) = near F o.bbox item.bbox in
      let held_there =
        item.held && on_holder persons (centre_x F o.bbox) (centre_y F o.bbox) item in
      let takes =
        str_eq item.class_name o.class_name
        && (is_near || held_there)
        && F.lt distance best_distance in
      match_from o persons free (if takes then some item else best)
        (if takes then distance else best_distance)

  -- `_match`
  abbrev pub match_item : Seen F → List (Person F) → List (Item F) → Option (Item F)
  match_item o persons free = match_from o persons free none F.infinity

  -- `_update_hold`
  unfoldable pub update_hold : Settings F → List (Person F) → Item F → Item F
  update_hold s persons item =
      let x = centre_x F item.bbox in
      let y = centre_y F item.bbox in
      let moved = F.div (F.hypot (F.sub x item.rest_x) (F.sub y item.rest_y)) item.rest_height in
      elim (closest_wrist F s item.bbox persons) [
        | some grip ↦ record item {
          held = true;
          held_distance = grip.distance;
          held_by_track = grip.track_id;
          held_wrist_index = some grip.wrist_index;
          held_wrist_x = grip.wrist_x;
          held_wrist_y = grip.wrist_y;
        }
        | none ↦ record item {
          held = item.held && F.le s.move_ratio moved && on_holder persons x y item;
        }
      ]

  -- What an object that is seen does to its item.
  unfoldable pub see : Settings F → Frame → Seen F → Item F → Item F
  see s f o item = update_hold s f.persons (record item {
    bbox = o.bbox;
    last_seen_at = f.captured_at;
    last_seen_frame = f.frame_index;
    fired = false;
  })

  abbrev pub new_item : Frame → Seen F → (id : ℕ) → Item F
  new_item f o id = record {
    item_id = id;
    class_name = o.class_name;
    bbox = o.bbox;
    rest_x = centre_x F o.bbox;
    rest_y = centre_y F o.bbox;
    rest_height = height F o.bbox;
    last_seen_at = f.captured_at;
    last_seen_frame = f.frame_index;
    held = false;
    held_by_track = 0;
    held_wrist_index = none;
    held_wrist_x = F.zero;
    held_wrist_y = F.zero;
    held_distance = F.zero;
    fired = false;
  }

  abbrev pub has_item_id : ℕ → Item F → Bool
  has_item_id id item = item.item_id == id

  -- The items, the number of the next one, and the numbers that the objects got.
  pub record Assigned : Type 0 where
    pub items : List (Item F)
    pub next_id : ℕ
    pub object_ids : List ℕ

  abbrev pub numbered : ℕ → Assigned → Assigned
  numbered id a = record a { object_ids = id ∷ a.object_ids }

  -- The loop of `observe` over the objects; `free` are the items that no object has matched yet.
  unfoldable pub assign :
      Settings F → Frame → List (Seen F) → (free items : List (Item F)) → (next_id : ℕ) → Assigned
  assign s f [] free items next_id = record { items = items; next_id = next_id; object_ids = [] }
  assign s f (o ∷ objects) free items next_id = elim (match_item o f.persons free) [
    | none ↦
        numbered next_id
          (assign s f objects free (items ++ see s f o (new_item f o next_id) ∷ []) (suc next_id))
    | some item ↦ numbered item.item_id (
        assign s f objects (delete_first (has_item_id item.item_id) free)
          (map (touch (has_item_id item.item_id) (see s f o)) items) next_id)
  ]

  -- `_holder_present`
  abbrev pub holder_present : Settings F → Frame → (String → ℕ → Option F.Float) → Item F → Bool
  holder_present s f seen item = elim (seen f.camera_id item.held_by_track) [
    | none ↦ false
    | some at ↦ F.le (F.sub f.captured_at at) s.missing_seconds
  ]

  -- `_ready`
  unfoldable pub ready : Settings F → Frame → (String → ℕ → Option F.Float) → Item F → Bool
  ready s f seen item =
      not (item.fired || not item.held)
      && not (F.lt (F.sub f.captured_at item.last_seen_at) s.missing_seconds)
      && not (still_visible F item f.objects)
      && not (hand_on_spot F s item f.persons)
      && holder_present s f seen item

  abbrev pub expired : Settings F → Frame → Item F → Bool
  expired s f item = F.lt s.expiry_seconds (F.sub f.captured_at item.last_seen_at)

  abbrev pub verdict_of : Frame → Item F → ConcealmentVerdict F
  verdict_of f item = record {
    object_track_id = item.item_id;
    object_class = item.class_name;
    last_seen_bbox = item.bbox;
    last_seen_frame = item.last_seen_frame;
    missing_frames = minus f.frame_index item.last_seen_frame;
    person_track_id = item.held_by_track;
    wrist_index = item.held_wrist_index;
    wrist_x = item.held_wrist_x;
    wrist_y = item.held_wrist_y;
    grab_distance = item.held_distance;
  }

  pub record Collected : Type 0 where
    pub kept : List (Item F)
    pub verdicts : List (ConcealmentVerdict F)

  -- The loop of `_collect`.
  unfoldable pub collect :
      Settings F
      → Frame
      → (String → ℕ → Option F.Float)
      → (muted : Bool) → List (Item F)
      → Collected
  collect s f seen muted [] = record { kept = []; verdicts = [] }
  collect s f seen muted (item ∷ items) =
      let gone = expired s f item in
      let fires = not gone && ready s f seen item in
      let rest = collect s f seen (muted || fires) items in
      record {
        kept = if gone then rest.kept else record item { fired = item.fired || fires } ∷ rest.kept;
        verdicts = if fires && not muted then verdict_of f item ∷ rest.verdicts else rest.verdicts;
      }

  abbrev pub is_muted : Settings F → Frame → Option F.Float → Bool
  is_muted s f none = false
  is_muted s f (some at) = F.lt (F.sub f.captured_at at) s.expiry_seconds

  pub record Observed : Type 0 where
    pub object_ids : List ℕ
    pub verdicts : List (ConcealmentVerdict F)
    pub tracker : Tracker

  abbrev pub any_verdict : List (ConcealmentVerdict F) → Bool
  any_verdict [] = false
  any_verdict (_ ∷ _) = true

  -- The sightings of persons that are not too old.
  abbrev pub fresh_persons :
      Settings F → Frame → (String → ℕ → Option F.Float) → String → ℕ → Option F.Float
  fresh_persons s f seen camera track = elim (seen camera track) [
    | none ↦ none
    | some at ↦
        if str_eq camera f.camera_id && F.lt s.expiry_seconds (F.sub f.captured_at at)
        then none
        else some at
  ]

  abbrev pub assigned : Frame → Tracker → Assigned
  assigned f t = assign t.settings f f.objects (t.items f.camera_id) (t.items f.camera_id) t.next_id

  abbrev pub seen_persons : Frame → Tracker → String → ℕ → Option F.Float
  seen_persons f t = note_persons f f.persons t.persons

  abbrev pub collected : Frame → Tracker → Collected
  collected f t =
      collect t.settings f (seen_persons f t) (is_muted t.settings f (t.last_fired f.camera_id))
        (assigned f t).items

  -- `observe`
  unfoldable pub observe : Frame → Tracker → Observed
  observe f t = record {
    object_ids = (assigned f t).object_ids;
    verdicts = (collected f t).verdicts;
    tracker = record t {
      items = λ camera. if str_eq camera f.camera_id then (collected f t).kept else t.items camera;
      persons = fresh_persons t.settings f (seen_persons f t);
      last_fired = λ camera.
          if str_eq camera f.camera_id && any_verdict (collected f t).verdicts
          then some f.captured_at
          else t.last_fired camera;
      next_id = (assigned f t).next_id;
    };
  }
