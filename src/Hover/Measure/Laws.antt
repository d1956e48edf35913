-- ===== src/Hover/Measure/Laws.antt =====
-- That a measurement settles, and that a pointer which has left stays away.
use fleet_agent.Base.{
  ◌≡◌, refl, Bool, true, Option, none, List, [], ◌∷◌, ◌||◌, Bool-cases, inl, inr,
}
use fleet_agent.Hover.Numbers.{Numbers}
use fleet_agent.Hover.Nearest.{ItemRect}
use fleet_agent.Hover.Measure.{
  Layout, is_complete, Measuring, remeasure, measure_frame, Pointer, mouse_leave, pointer_frame,
}

-- Three frames after the items have changed no pass is queued any more, and the rects count as measured
-- exactly when all items were laid out in one of the three.
pub remeasure-three_frames :
    (F : Numbers) (same : F.N → F.N → Bool) (a b c : Layout F) (s : Measuring F)
    → let after =
        measure_frame F same c (measure_frame F same b (measure_frame F same a (remeasure F s))) in
      (after.queued ≡ none)
      × (after.is_measured ≡ (is_complete F a || (is_complete F b || is_complete F c)))
unfolding remeasure measure_frame
remeasure-three_frames F same a b c s = elim (Bool-cases (is_complete F a)) [
  | inl e ↦ rw e (refl, refl)
  | inr e ↦ elim (Bool-cases (is_complete F b)) [
    | inl f ↦ rw (e, f) (refl, refl)
    | inr f ↦ elim (Bool-cases (is_complete F c)) [
      | inl g ↦ rw (e, f, g) (refl, refl)
      | inr g ↦ rw (e, f, g) (refl, refl)
    ]
  ]
]

-- Frames of a pointer, one after the other.
abbrev pub frames : (F : Numbers) → List (List (Option (ItemRect F))) → Pointer F → Pointer F
frames F [] p = p
frames F (rects ∷ rest) p = frames F rest (pointer_frame F true rects p)

-- After the pointer has left, no frame highlights an item again, also not one that was waited for.
frames-mouse_leave :
    (F : Numbers) (layouts : List (List (Option (ItemRect F)))) (p : Pointer F)
    → (frames F layouts (mouse_leave F p)).active ≡ none
unfolding pointer_frame mouse_leave
frames-mouse_leave F [] p = refl
frames-mouse_leave F (rects ∷ rest) p = frames-mouse_leave F rest p
