-- ===== src/Hover/Nearest.antt =====
-- hooks/use-fluid-hover.ts: `pickNearest`.
pub mod Laws
use fleet_agent.Base.{
  ℕ, suc, Bool, true, false, not, Option, none, some, List, [], ◌∷◌, ◌&&◌, if◌then◌else◌,
}
use fleet_agent.Hover.Numbers.{Numbers}

pub data Axis : Type 0 where
  x y xy : Axis

-- `a ?? b`
abbrev pub nullish {ℓ} : {A : Type ℓ} → Option A → Option A → Option A
nullish none b = b
nullish (some a) b = some a

module _ (F : Numbers) where
  -- `ItemRect`
  pub record ItemRect : Type 0 where
    pub top : F.N
    pub height : F.N
    pub left : F.N
    pub width : F.N

  pub record Pair : Type 0 where
    pub x : F.N
    pub y : F.N

  -- `PickNearestInput`, without the items: the pointer, and the container that the items stand in
  pub record Input : Type 0 where
    pub axis : Axis
    pub point : Pair
    pub container : ItemRect
    pub scroll : Pair
    pub border : Pair
    pub layout_width : F.N
    pub layout_height : F.N
    pub is_disabled : ℕ → Bool

  -- `layout > 0 ? shown / layout : 1`
  abbrev scale_of : F.N → F.N → F.N
  scale_of shown layout = if F.lt F.zero_num layout then F.div shown layout else F.one_num

  abbrev scale_x : Input → F.N
  scale_x i = scale_of i.container.width i.layout_width

  abbrev scale_y : Input → F.N
  scale_y i = scale_of i.container.height i.layout_height

  -- The start and the size of an item on one axis, in the pointer's space.
  abbrev start_x : Input → ItemRect → F.N
  start_x i r =
      F.add i.container.left (F.mul (F.sub (F.add i.border.x r.left) i.scroll.x) (scale_x i))

  abbrev start_y : Input → ItemRect → F.N
  start_y i r =
      F.add i.container.top (F.mul (F.sub (F.add i.border.y r.top) i.scroll.y) (scale_y i))

  abbrev size_x : Input → ItemRect → F.N
  size_x i r = F.mul r.width (scale_x i)

  abbrev size_y : Input → ItemRect → F.N
  size_y i r = F.mul r.height (scale_y i)

  abbrev within : F.N → F.N → F.N → Bool
  within position start size = F.le start position && F.le position (F.add start size)

  -- From the centre of an item to the pointer, on one axis.
  abbrev offset : F.N → F.N → F.N → F.N
  offset position start size = F.sub position (F.add start (F.div size F.two_num))

  unfoldable pub contains : Input → ItemRect → Bool
  contains i r = elim i.axis [
    | x ↦ within i.point.x (start_x i r) (size_x i r)
    | y ↦ within i.point.y (start_y i r) (size_y i r)
    | xy ↦
        within i.point.x (start_x i r) (size_x i r) && within i.point.y (start_y i r) (size_y i r)
  ]

  unfoldable pub distance : Input → ItemRect → F.N
  distance i r = elim i.axis [
    | x ↦ F.abs (offset i.point.x (start_x i r) (size_x i r))
    | y ↦ F.abs (offset i.point.y (start_y i r) (size_y i r))
    | xy ↦
        F.hypot (offset i.point.x (start_x i r) (size_x i r))
          (offset i.point.y (start_y i r) (size_y i r))
  ]

  -- the variables of the loop
  pub record Found : Type 0 where
    pub closest : Option ℕ
    pub closest_distance : F.N
    pub containing : Option ℕ

  -- the body of the loop for an item that is there and not disabled
  unfoldable pub look_at : Input → ℕ → ItemRect → Found → Found
  look_at i index r s =
      let nearer = F.lt (distance i r) s.closest_distance in
      record {
        closest = if nearer then some index else s.closest;
        closest_distance = if nearer then distance i r else s.closest_distance;
        containing = if contains i r then some index else s.containing;
      }

  -- the loop, from an index on; a slot without a registered item is none
  unfoldable pub look_from : Input → ℕ → List (Option ItemRect) → Found → Found
  look_from i index [] s = s
  look_from i index (none ∷ rest) s = look_from i (suc index) rest s
  look_from i index (some r ∷ rest) s =
      look_from i (suc index) rest (if i.is_disabled index then s else look_at i index r s)

  abbrev pub nothing_found : Found
  nothing_found = record { closest = none; closest_distance = F.infinity; containing = none }

  abbrev pub picked : Found → Option ℕ
  picked s = nullish s.containing s.closest

  unfoldable pub pick_nearest : Input → List (Option ItemRect) → Option ℕ
  pick_nearest i rects = picked (look_from i 0 rects nothing_found)
