-- ===== src/Hover/Tests.antt =====
-- Runs of the hook over natural numbers.
use fleet_agent.Base.{
  ℕ, ◌+◌, ◌-◌, ◌*◌, ◌/◌, ◌≡◌, refl, Bool, true, false, Option, none, some, List, [], ◌∷◌, ◌||◌, ltb,
  leb, nat_eq, arith,
}
use fleet_agent.Hover.Numbers.{Numbers}
use fleet_agent.Hover.Nearest.{
  Axis, ItemRect, Input, contains, distance, look_at, look_from, pick_nearest,
}
use fleet_agent.Hover.Nearest.Laws.{IsItem, IsBest, pick_nearest-IsBest}
use fleet_agent.Hover.Measure.{Layout, is_complete, Element, Measuring, remeasure, measure_frame}
use fleet_agent.Hover.Measure.Laws.{remeasure-three_frames}

ltb_irrefl : (a : ℕ) → ltb a a ≡ false
ltb_irrefl a = ground arith

ltb_trans : (a b c : ℕ) → ltb a b ≡ true → ltb b c ≡ true → ltb a c ≡ true
ltb_trans a b c h i = ground arith

-- Natural numbers up to a thousand, in place of floating-point ones.
abbrev naturals : Numbers
naturals = record {
  N = ℕ;
  zero_num = 0;
  one_num = 1;
  two_num = 2;
  infinity = 1000;
  add = λ a b. a + b;
  sub = λ a b. (a - b) + (b - a);
  mul = λ a b. a * b;
  div = λ a b. a / b;
  abs = λ a. a;
  hypot = λ a b. a + b;
  lt = ltb;
  le = leb;
  lt_irrefl = ltb_irrefl;
  lt_trans = ltb_trans;
}

abbrev row : ℕ → ItemRect naturals
row top = record { top = top; height = 10; left = 0; width = 50 }

abbrev pointer_at : ℕ → Input naturals
pointer_at y = record {
  axis = Axis.y;
  point = record { x = 5; y = y };
  container = record { top = 0; height = 100; left = 0; width = 50 };
  scroll = record { x = 0; y = 0 };
  border = record { x = 0; y = 0 };
  layout_width = 50;
  layout_height = 100;
  is_disabled = λ index. false;
}

-- two rows that meet at 20, a slot without a row, and one after a gap
abbrev rows : List (Option (ItemRect naturals))
rows = some (row 10) ∷ some (row 20) ∷ none ∷ some (row 50) ∷ []

gap_test : pick_nearest naturals (pointer_at 44) rows ≡ some 3
unfolding pick_nearest look_from look_at contains distance
gap_test = refl

-- On the edge that two rows share, the pointer is in both, and the later one is picked.
edge_test : pick_nearest naturals (pointer_at 20) rows ≡ some 1
unfolding pick_nearest look_from look_at contains distance
edge_test = refl

pick_nearest-IsBest_example :
    (r : ItemRect naturals) × IsItem naturals (pointer_at 44) 0 rows 3 r
    × IsBest naturals (pointer_at 44) rows r
pick_nearest-IsBest_example = pick_nearest-IsBest naturals (pointer_at 44) rows 3 gap_test

abbrev element : ℕ → Element naturals
element height = record {
  has_offset_parent = false;
  offset_top = 10;
  offset_left = 0;
  offset_width = 0;
  offset_height = height;
  ancestors = [];
}

abbrev hidden : Layout naturals
hidden = some ((0, element 0) ∷ [])

abbrev shown : Layout naturals
shown = some ((0, element 10) ∷ [])

abbrev measuring : Measuring naturals
measuring = record { rects = []; is_measured = true; queued = none }

abbrev same : ℕ → ℕ → Bool
same a b = nat_eq a b

remeasure-three_frames_example :
    ((measure_frame naturals same shown (
        measure_frame naturals same shown
          (measure_frame naturals same hidden (remeasure naturals measuring)))).queued
      ≡ none)
    × ((measure_frame naturals same shown (
          measure_frame naturals same shown
            (measure_frame naturals same hidden (remeasure naturals measuring)))).is_measured
        ≡ (is_complete naturals hidden
            || (is_complete naturals shown || is_complete naturals shown)))
remeasure-three_frames_example = remeasure-three_frames naturals same hidden shown shown measuring
