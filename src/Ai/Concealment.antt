-- ===== src/Ai/Concealment.antt =====
-- services/ai/app/concealment.py. The floating-point numbers are a parameter, with the operations
-- that the source calls; the dictionaries are functions from their keys.
pub mod Geometry
pub mod Tracker
use theft_detection_platform.Prelude.{ℕ, ◌-◌, Bool, Option, List, String, ltb, if◌then◌else◌}

pub record Floats : Type 1 where
  pub Float : Type 0
  pub zero : Float
  pub one : Float
  pub two : Float
  pub infinity : Float
  pub add : Float → Float → Float
  pub sub : Float → Float → Float
  pub mul : Float → Float → Float
  pub div : Float → Float → Float
  pub max : Float → Float → Float
  pub hypot : Float → Float → Float
  pub lt : Float → Float → Bool
  pub le : Float → Float → Bool

-- Whole numbers, for a difference of frame numbers.
pub data ℤ : Type 0 where
  pos negsuc : ℕ → ℤ

abbrev pub minus : ℕ → ℕ → ℤ
minus a b = if ltb a b then negsuc (b - a - 1) else pos (a - b)

module _ (F : Floats) where
  pub record Box : Type 0 where
    pub x1 : F.Float
    pub y1 : F.Float
    pub x2 : F.Float
    pub y2 : F.Float

  pub record Keypoint : Type 0 where
    pub x : F.Float
    pub y : F.Float
    pub confidence : F.Float

  pub record Person : Type 0 where
    pub track_id : ℕ
    pub keypoints : List Keypoint
    pub bbox : Box

  pub record Seen : Type 0 where
    pub class_name : String
    pub bbox : Box

  -- `_Item`; the wrist's index is none where the source has -1.
  pub record Item : Type 0 where
    pub item_id : ℕ
    pub class_name : String
    pub bbox : Box
    pub rest_x : F.Float
    pub rest_y : F.Float
    pub rest_height : F.Float
    pub last_seen_at : F.Float
    pub last_seen_frame : ℕ
    pub held : Bool
    pub held_by_track : ℕ
    pub held_wrist_index : Option ℕ
    pub held_wrist_x : F.Float
    pub held_wrist_y : F.Float
    pub held_distance : F.Float
    pub fired : Bool

  pub record ConcealmentVerdict : Type 0 where
    pub object_track_id : ℕ
    pub object_class : String
    pub last_seen_bbox : Box
    pub last_seen_frame : ℕ
    pub missing_frames : ℤ
    pub person_track_id : ℕ
    pub wrist_index : Option ℕ
    pub wrist_x : F.Float
    pub wrist_y : F.Float
    pub grab_distance : F.Float

  pub record Settings : Type 0 where
    pub grab_ratio : F.Float
    pub move_ratio : F.Float
    pub missing_seconds : F.Float
    pub keypoint_confidence : F.Float
    pub expiry_seconds : F.Float
