-- ===== src/Process/Activity/Toggles.antt =====
-- When the card of a run's activity is open.
use fleet_agent.Base.{
  ◌≡◌, refl, ap, ◌∙◌, Bool, true, false, not, Option, List, [], ◌∷◌, ◌&&◌, ◌||◌, arith, Bool-cases,
  inl, inr,
}
use fleet_agent.Process.Notice.{or_else}
use fleet_agent.Process.Activity.{Opening, render_opening, toggle_opening, is_open}

-- Renders of a card, one after the other.
abbrev pub renders : List Bool → Opening → Opening
renders [] o = o
renders (running ∷ rest) o = renders rest (render_opening running o)

-- No render of these starts a run.
abbrev pub never_starts : Bool → List Bool → Bool
never_starts running [] = true
never_starts running (r ∷ rest) = (not r || running) && never_starts r rest

-- The choice is kept while no run starts.
renders-kept :
    (runs : List Bool) (o : Opening)
    → never_starts o.was_running runs ≡ true
    → (renders runs o).user_open ≡ o.user_open
unfolding render_opening
renders-kept [] o h = refl
renders-kept (false ∷ rest) o h = renders-kept rest (render_opening false o) h
renders-kept (true ∷ rest) o h = elim (Bool-cases o.was_running) [
  | inl w ↦ renders-kept rest (render_opening true o) (ground arith) ∙ ground arith
  | inr w ↦ absurd (ground arith)
]

-- The card in a message stays as the user has put it, open or closed, as long as no run starts.
toggle_opening-kept :
    (opened : Bool) (runs : List Bool) (o : Opening)
    → never_starts o.was_running runs ≡ true
    → is_open false (renders runs (toggle_opening false opened o)) ≡ opened
unfolding toggle_opening is_open
toggle_opening-kept opened runs o h =
    let k = renders-kept runs (toggle_opening false opened o) h in
    ap (λ (u : Option Bool). or_else u (renders runs (toggle_opening false opened o)).was_running) k

-- Whatever the user chose before, the card in a message is open when a run starts, and it closes
-- when that run ends; the card in the panel is left as it was.
render_opening-run :
    (o : Opening)
    → (is_open false (renders (false ∷ true ∷ []) o) ≡ true)
      × (is_open false (renders (false ∷ true ∷ false ∷ []) o) ≡ false)
      × (is_open true (renders (false ∷ true ∷ false ∷ []) o) ≡ is_open true o)
unfolding render_opening is_open
render_opening-run o = (refl, refl, refl)
