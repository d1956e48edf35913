-- ===== src/Hover/Measure.antt =====
-- hooks/use-fluid-hover.ts: the measurement of the registered items, and the pointer's frames. A frame
-- is the browser's call of what requestAnimationFrame was given last.
pub mod Laws
use fleet_agent.Base.{
  ℕ, zero, suc, ◌-◌, Bool, true, false, not, Option, none, some, List, [], ◌∷◌, ◌&&◌, ◌||◌, ltb,
  nat_eq, length, if◌then◌else◌,
}
use fleet_agent.Hover.Numbers.{Numbers}
use fleet_agent.Hover.Nearest.{ItemRect, Input, pick_nearest}

abbrev pub measurement_attempts : ℕ
measurement_attempts = 3

module _ (F : Numbers) where
  -- What the layout says of a positioned ancestor inside the container.
  pub record Ancestor : Type 0 where
    pub offset_top : F.N
    pub offset_left : F.N
    pub client_top : F.N
    pub client_left : F.N

  -- The same of an item, with its offset parents up to the container.
  pub record Element : Type 0 where
    pub has_offset_parent : Bool
    pub offset_top : F.N
    pub offset_left : F.N
    pub offset_width : F.N
    pub offset_height : F.N
    pub ancestors : List Ancestor

  abbrev pub has_layout_box : Element → Bool
  has_layout_box e =
      e.has_offset_parent || F.lt F.zero_num e.offset_width || F.lt F.zero_num e.offset_height

  abbrev top_from : F.N → List Ancestor → F.N
  top_from top [] = top
  top_from top (a ∷ rest) = top_from (F.add top (F.add a.offset_top a.client_top)) rest

  abbrev left_from : F.N → List Ancestor → F.N
  left_from left [] = left
  left_from left (a ∷ rest) = left_from (F.add left (F.add a.offset_left a.client_left)) rest

  abbrev pub rect_of : Element → ItemRect F
  rect_of e = record {
    top = top_from e.offset_top e.ancestors;
    height = e.offset_height;
    left = left_from e.offset_left e.ancestors;
    width = e.offset_width;
  }

  -- `rects[index] = rect`, which leaves holes before it
  abbrev pub put : ℕ → ItemRect F → List (Option (ItemRect F)) → List (Option (ItemRect F))
  put zero r [] = some r ∷ []
  put zero r (o ∷ rest) = some r ∷ rest
  put (suc index) r [] = none ∷ put index r []
  put (suc index) r (o ∷ rest) = o ∷ put index r rest

  -- `itemsRef.current.forEach(…)`, and whether every item has a layout box
  abbrev pub read_items :
      List (ℕ × Element) → List (Option (ItemRect F)) → List (Option (ItemRect F))
  read_items [] rects = rects
  read_items ((index, e) ∷ rest) rects =
      read_items rest (if has_layout_box e then put index (rect_of e) rects else rects)

  abbrev pub all_laid_out : List (ℕ × Element) → Bool
  all_laid_out [] = true
  all_laid_out ((index, e) ∷ rest) = has_layout_box e && all_laid_out rest

  -- the comparison of the rects with those published; `same` is `===` of two numbers
  abbrev same_rect : (F.N → F.N → Bool) → Option (ItemRect F) → Option (ItemRect F) → Bool
  same_rect same none none = true
  same_rect same (some p) (some r) =
      same p.top r.top && same p.left r.left && same p.width r.width && same p.height r.height
  same_rect same _ _ = false

  unfoldable pub is_unchanged :
      (F.N → F.N → Bool) → List (Option (ItemRect F)) → List (Option (ItemRect F)) → Bool
  is_unchanged same [] [] = true
  is_unchanged same (p ∷ ps) (r ∷ rs) = same_rect same p r && is_unchanged same ps rs
  is_unchanged same _ _ = false

  -- The items in the container at a frame; none when there is no container.
  abbrev pub Layout : Type 0
  Layout = Option (List (ℕ × Element))

  abbrev pub is_complete : Layout → Bool
  is_complete none = false
  is_complete (some items) = all_laid_out items

  abbrev pub items_in : Layout → List (ℕ × Element)
  items_in none = []
  items_in (some items) = items

  -- the published rects, `isMeasured`, and the attempts left of the pass that is queued
  pub record Measuring : Type 0 where
    pub rects : List (Option (ItemRect F))
    pub is_measured : Bool
    pub queued : Option ℕ

  abbrev published :
      (F.N → F.N → Bool) → Layout → List (Option (ItemRect F)) → List (Option (ItemRect F))
  published same layout before =
      let rects = read_items (items_in layout) [] in
      if is_unchanged same before rects then before else rects

  -- `runMeasurement`: the rects after it, and whether it could be completed
  abbrev pub run_measurement :
      (F.N → F.N → Bool) → Layout → List (Option (ItemRect F)) → List (Option (ItemRect F)) × Bool
  run_measurement same layout before =
      if is_complete layout then (published same layout before, true) else (before, false)

  -- `scheduleMeasurement`, which cancels the pass that was queued
  unfoldable pub schedule_measurement : ℕ → Measuring → Measuring
  schedule_measurement attempts_left s = record s { queued = some attempts_left }

  -- `remeasure`, which a registration and its end call too
  unfoldable pub remeasure : Measuring → Measuring
  unfolding schedule_measurement
  remeasure s = schedule_measurement measurement_attempts (record s { is_measured = false })

  -- the observers' callback: an item or the container has another size
  unfoldable pub resized : Measuring → Measuring
  unfolding schedule_measurement
  resized s = schedule_measurement measurement_attempts s

  -- the pass in its frame
  abbrev run_pass : (F.N → F.N → Bool) → Layout → ℕ → Measuring → Measuring
  run_pass same layout attempts_left s =
      let measured = run_measurement same layout s.rects in
      if measured.1
      then record { rects = measured.0; is_measured = true; queued = none }
      else record s { queued = if ltb 1 attempts_left then some (attempts_left - 1) else none }

  unfoldable pub measure_frame : (F.N → F.N → Bool) → Layout → Measuring → Measuring
  measure_frame same layout s = elim s.queued [
    | none ↦ s
    | some attempts_left ↦ run_pass same layout attempts_left s
  ]

  -- the highlighted index, and the move whose frame is waited for
  pub record Pointer : Type 0 where
    pub active : Option ℕ
    pub moved : Option (Input F)
    pub session : ℕ

  -- `handleMouseMove`, which cancels the frame of the move before
  unfoldable pub mouse_move : Input F → Pointer → Pointer
  mouse_move input p = record p { moved = some input }

  -- its frame
  unfoldable pub pointer_frame : Bool → List (Option (ItemRect F)) → Pointer → Pointer
  pointer_frame has_container rects p = elim p.moved [
    | none ↦ p
    | some input ↦
        if has_container
        then record p { active = pick_nearest F input rects; moved = none }
        else record p { moved = none }
  ]

  unfoldable pub mouse_enter : Pointer → Pointer
  mouse_enter p = record p { session = suc p.session }

  unfoldable pub mouse_leave : Pointer → Pointer
  mouse_leave p = record p { active = none; moved = none }

abbrev is_at : Option ℕ → ℕ → Bool
is_at none index = false
is_at (some active) index = nat_eq active index

-- The end of a registration: the highlight goes with the item, unless another has its index by then.
unfoldable pub unregistered : ℕ → Bool → Option ℕ → Option ℕ
unregistered index taken active = if is_at active index && not taken then none else active

-- What `handleClick` asks of the document, and of the highlighted item.
pub record Click : Type 0 where
  pub has_target : Bool
  pub in_item : Bool
  pub is_connected : Bool
  pub in_control : Bool
  pub gap_click : Bool
  pub is_registered : ℕ → Bool
  pub is_disabled : ℕ → Bool
  pub is_too_far : ℕ → Bool

-- the item that a click is routed to, if any
unfoldable pub routed_to : Click → Option ℕ → Option ℕ
routed_to c none = none
routed_to c (some index) =
    if c.has_target
      && not c.in_item
      && c.is_connected
      && not c.in_control
      && c.gap_click
      && c.is_registered index
      && not (c.is_disabled index)
      && not (c.is_too_far index)
    then some index
    else none
