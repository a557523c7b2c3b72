-- ===== src/Ai/Concealment/Geometry.antt =====
-- The geometry of services/ai/app/concealment.py: `_centre` to `_reference_length`,
-- `_closest_wrist`, `_still_visible` and `_hand_on_spot`.
use theft_detection_platform.Prelude.{
  ℕ, zero, suc, Bool, true, not, ◌&&◌, ◌||◌, Option, none, some, List, [], ◌∷◌, str_eq, ltb, ◌==◌,
  length, any, all, if◌then◌else◌,
}
use theft_detection_platform.Ai.Concealment.{Floats, Box, Keypoint, Person, Seen, Item, Settings}

abbrev pub left_shoulder : ℕ
left_shoulder = 5

abbrev pub right_shoulder : ℕ
right_shoulder = 6

abbrev pub left_wrist : ℕ
left_wrist = 9

abbrev pub right_wrist : ℕ
right_wrist = 10

abbrev pub left_hip : ℕ
left_hip = 11

abbrev pub right_hip : ℕ
right_hip = 12

abbrev pub torso_keypoints : List ℕ
torso_keypoints = left_shoulder ∷ right_shoulder ∷ left_hip ∷ right_hip ∷ []

module _ (F : Floats) where
  abbrev pub half : F.Float → F.Float
  half a = F.div a F.two

  abbrev pub centre_x : Box F → F.Float
  centre_x b = half (F.add b.x1 b.x2)

  abbrev pub centre_y : Box F → F.Float
  centre_y b = half (F.add b.y1 b.y2)

  abbrev pub height : Box F → F.Float
  height b = F.max (F.sub b.y2 b.y1) F.one

  abbrev pub edge_distance : (x y : F.Float) → Box F → F.Float
  edge_distance x y b =
      F.hypot (F.max (F.max (F.sub b.x1 x) F.zero) (F.sub x b.x2))
        (F.max (F.max (F.sub b.y1 y) F.zero) (F.sub y b.y2))

  abbrev pub contains : (x y : F.Float) → Box F → Bool
  contains x y b = F.le b.x1 x && F.le x b.x2 && F.le b.y1 y && F.le y b.y2

  abbrev pub match_heights : F.Float
  match_heights = F.add F.one (half F.one)

  -- `_near`: whether, and the distance.
  unfoldable pub near : Box F → Box F → Bool × F.Float
  near a b =
      let distance = F.hypot (F.sub (centre_x a) (centre_x b)) (F.sub (centre_y a) (centre_y b)) in
      (F.le distance (F.mul match_heights (F.max (height a) (height b))), distance)

  -- `keypoints[index]`; the source reads a point only once `_has_torso` has counted them.
  abbrev pub point : ℕ → List (Keypoint F) → Keypoint F
  point index [] = record { x = F.zero; y = F.zero; confidence = F.zero }
  point zero (k ∷ keypoints) = k
  point (suc index) (k ∷ keypoints) = point index keypoints

  abbrev pub has_torso : List (Keypoint F) → F.Float → Bool
  has_torso keypoints min_confidence =
      ltb right_hip (length keypoints)
      && all (λ index. F.le min_confidence (point index keypoints).confidence) torso_keypoints

  abbrev pub reference_length : List (Keypoint F) → F.Float
  reference_length keypoints =
      let ls = point left_shoulder keypoints in
      let rs = point right_shoulder keypoints in
      let lh = point left_hip keypoints in
      let rh = point right_hip keypoints in
      F.max
        (F.hypot (F.sub (half (F.add ls.x rs.x)) (half (F.add lh.x rh.x)))
          (F.sub (half (F.add ls.y rs.y)) (half (F.add lh.y rh.y))))
        F.one

  -- `bodies.get(track_id)`: the last person with the number counts.
  abbrev pub body_of : List (Person F) → ℕ → Option (Box F)
  body_of [] track_id = none
  body_of (p ∷ persons) track_id = elim (body_of persons track_id) [
    | some b ↦ some b
    | none ↦ if p.track_id == track_id then some p.bbox else none
  ]

  -- A wrist that holds an object, and how far it is from it.
  pub record Grip : Type 0 where
    pub distance : F.Float
    pub track_id : ℕ
    pub wrist_index : ℕ
    pub wrist_x : F.Float
    pub wrist_y : F.Float

  -- One turn of the inner loop of `_closest_wrist`.
  unfoldable pub try_wrist :
      Settings F → Box F → Person F → (wrist_index : ℕ) → Option Grip → Option Grip
  try_wrist s bbox p wrist_index closest =
      let wrist = point wrist_index p.keypoints in
      let distance = F.div (edge_distance wrist.x wrist.y bbox) (reference_length p.keypoints) in
      let grip = some (record {
        distance = distance;
        track_id = p.track_id;
        wrist_index = wrist_index;
        wrist_x = wrist.x;
        wrist_y = wrist.y;
      }) in
      if F.lt wrist.confidence s.keypoint_confidence || F.lt s.grab_ratio distance
      then closest
      else elim closest [
        | none ↦ grip
        | some best ↦ if F.lt distance best.distance then grip else some best
      ]

  unfoldable pub closest_wrist_from :
      Settings F → Box F → List (Person F) → Option Grip → Option Grip
  closest_wrist_from s bbox [] closest = closest
  closest_wrist_from s bbox (p ∷ persons) closest = closest_wrist_from s bbox persons (
      if has_torso p.keypoints s.keypoint_confidence
      then try_wrist s bbox p right_wrist (try_wrist s bbox p left_wrist closest)
      else closest)

  -- `_closest_wrist`
  abbrev pub closest_wrist : Settings F → Box F → List (Person F) → Option Grip
  closest_wrist s bbox persons = closest_wrist_from s bbox persons none

  -- `_still_visible`
  unfoldable pub still_visible : Item F → List (Seen F) → Bool
  still_visible item objects =
      any (λ (o : Seen F). str_eq o.class_name item.class_name && (near o.bbox item.bbox).0) objects

  -- Whether a wrist can be seen, and whether it is on the spot.
  abbrev pub wrist_seen : Settings F → Person F → ℕ → Bool
  wrist_seen s p index = not (F.lt (point index p.keypoints).confidence s.keypoint_confidence)

  abbrev pub wrist_on : Settings F → Item F → Person F → ℕ → Bool
  wrist_on s item p index =
      let wrist = point index p.keypoints in
      wrist_seen s p index
      && F.le (F.div (edge_distance wrist.x wrist.y item.bbox) (reference_length p.keypoints))
          s.grab_ratio

  -- `_hand_on_spot`: the first person with the holder's number decides; without one it is taken
  -- to be so.
  unfoldable pub hand_on_spot : Settings F → Item F → List (Person F) → Bool
  hand_on_spot s item [] = true
  hand_on_spot s item (p ∷ persons) =
      let rest = hand_on_spot s item persons in
      if not (p.track_id == item.held_by_track)
      then rest
      else if not (has_torso p.keypoints s.keypoint_confidence)
      then true
      else if wrist_on s item p left_wrist || wrist_on s item p right_wrist
      then true
      else not (wrist_seen s p left_wrist || wrist_seen s p right_wrist)
