-- ===== src/Workspace/Panes/Laws.antt =====
-- That the panels and the store stay in line, and that a toggle shows what was hidden.
use fleet_agent.Base.{
  ◌≡◌, ◌≢◌, ◌↔◌, refl, sym, ap, ◌∙◌, Bool, true, false, not, arith, Bool-cases, inl, inr,
  if◌then◌else◌,
}
use fleet_agent.Workspace.{Workspace, change}
use fleet_agent.Workspace.Panes.{
  Width, mobile, compact, wide, is_compact, toggle_process, process_panel_active, hidden, in_sheet,
  in_panel, process_place, close_process, PanelHandle, reconcile, resize_sidebar, resize_process,
  changed, sheet, panel,
}

-- The effect leaves the panel as the store says, and does nothing more when it runs again.
reconcile-collapsed :
    (H : PanelHandle) (should : Bool) (p : H.P) → H.is_collapsed (reconcile H should p) ≡ should
unfolding reconcile
reconcile-collapsed H true p = elim (Bool-cases (H.is_collapsed p)) [
  | inl e ↦ rw e e
  | inr e ↦ rw e (H.collapse_collapsed p)
]
reconcile-collapsed H false p = elim (Bool-cases (H.is_collapsed p)) [
  | inl e ↦ rw e (H.expand_collapsed p)
  | inr e ↦ rw e e
]

reconcile_of_same :
    (H : PanelHandle) (should : Bool) (p : H.P)
    → H.is_collapsed p ≡ should
    → reconcile H should p ≡ p
unfolding reconcile
reconcile_of_same H true p h = rw h refl
reconcile_of_same H false p h = rw h refl

sidebar-follows :
    (H : PanelHandle) (p : H.P) (system_dark : Bool) (w : Workspace)
    → (changed system_dark (resize_sidebar H p w.state) w).state.sidebar_collapsed
      ≡ H.is_collapsed p
unfolding resize_sidebar change
sidebar-follows H p system_dark w = ground arith

process-follows :
    (H : PanelHandle) (p : H.P) (system_dark : Bool) (w : Workspace)
    → (changed system_dark (resize_process H p w.state) w).state.process_panel_open
      ≡ not (H.is_collapsed p)
unfolding resize_process change
process-follows H p system_dark w = ground arith

not-not : (b : Bool) → not (not b) ≡ b
not-not true = refl
not-not false = refl

-- After the user has dragged a panel, the store follows it: it says whether the sidebar is collapsed
-- and whether the process panel is open, and the effects then leave both panels as they were dragged.
pub resize-settles :
    (H : PanelHandle) (sidebar process : H.P) (system_dark : Bool) (w : Workspace)
    → ((changed system_dark (resize_sidebar H sidebar w.state) w).state.sidebar_collapsed
        ≡ H.is_collapsed sidebar)
      × ((changed system_dark (resize_process H process w.state) w).state.process_panel_open
          ≡ not (H.is_collapsed process))
      × (reconcile H
            (changed system_dark (resize_sidebar H sidebar w.state) w).state.sidebar_collapsed
            sidebar
          ≡ sidebar)
      × (reconcile H
            (not
              (changed system_dark (resize_process H process w.state) w).state.process_panel_open)
            process
          ≡ process)
resize-settles H sidebar process system_dark w =
    let s = sidebar-follows H sidebar system_dark w in
    let p = process-follows H process system_dark w in
    (
      s,
      p,
      reconcile_of_same H _ sidebar (sym s),
      reconcile_of_same H _ process (sym (ap not p ∙ not-not (H.is_collapsed process))),
    )

sheet_shown : (b : Bool) → (b ≡ true) ↔ (sheet b ≢ hidden)
sheet_shown true = (λ h e. cc, λ h. refl)
sheet_shown false = (λ h. cc, λ h. absurd (h refl))

panel_shown : (b : Bool) → (b ≡ true) ↔ (panel b ≢ hidden)
panel_shown true = (λ h e. cc, λ h. refl)
panel_shown false = (λ h. cc, λ h. absurd (h refl))

opened : (b : Bool) → panel b ≡ hidden → panel (not b) ≡ in_panel
opened true h = cc
opened false h = refl

-- The header's button for the process: where the panel is hidden it is shown by one click, in a sheet
-- below 1200 pixels and beside the conversation above; the button is pressed exactly while the
-- process is shown; and closing hides it.
pub toggle_process-shows :
    (width : Width) (system_dark : Bool) (w : Workspace)
    → (process_place width w.state ≡ hidden
        → process_place width (change system_dark (toggle_process width w.state) w).state
          ≡ (if is_compact width then in_sheet else in_panel))
      × ((process_panel_active width w.state ≡ true) ↔ (process_place width w.state ≢ hidden))
      × (process_place width (change system_dark (close_process width) w).state ≡ hidden)
unfolding toggle_process process_place process_panel_active close_process change
toggle_process-shows mobile system_dark w =
    (λ h. refl, sheet_shown w.state.process_sheet_open, refl)
toggle_process-shows compact system_dark w =
    (λ h. refl, sheet_shown w.state.process_sheet_open, refl)
toggle_process-shows wide system_dark w =
    (λ h. opened w.state.process_panel_open h, panel_shown w.state.process_panel_open, refl)
