-- ===== src/Workspace/Laws.antt =====
-- That a reload keeps what is persisted, and the theme.
use fleet_agent.Base.{◌≡◌, refl, sym, Bool, some, none, List, [], ◌∷◌}
use fleet_agent.Workspace.{
  Workspace, apply_theme, Change, change, set_theme, set_sidebar_collapsed, set_process_panel_open,
  set_sidebar_sheet_open, set_process_sheet_open, set_process_panel_tab, set_selected_artifact_id,
  partialize, rehydrate,
}

abbrev changes : Bool → List Change → Workspace → Workspace
changes system_dark [] w = w
changes system_dark (c ∷ rest) w = changes system_dark rest (change system_dark c w)

change-is_dark :
    (system_dark : Bool) (c : Change) (w : Workspace)
    → w.is_dark ≡ apply_theme system_dark w.state.theme
    → (change system_dark c w).is_dark
      ≡ apply_theme system_dark (change system_dark c w).state.theme
unfolding change
change-is_dark system_dark (set_theme theme) w h = refl
change-is_dark system_dark (set_sidebar_collapsed b) w h = h
change-is_dark system_dark (set_process_panel_open b) w h = h
change-is_dark system_dark (set_sidebar_sheet_open b) w h = h
change-is_dark system_dark (set_process_sheet_open b) w h = h
change-is_dark system_dark (set_process_panel_tab tab) w h = h
change-is_dark system_dark (set_selected_artifact_id id) w h = h

changes-is_dark :
    (system_dark : Bool) (cs : List Change) (w : Workspace)
    → w.is_dark ≡ apply_theme system_dark w.state.theme
    → (changes system_dark cs w).is_dark
      ≡ apply_theme system_dark (changes system_dark cs w).state.theme
changes-is_dark system_dark [] w h = h
changes-is_dark system_dark (c ∷ rest) w h =
    changes-is_dark system_dark rest (change system_dark c w) (change-is_dark system_dark c w h)

-- Whatever was changed, a reload keeps what is persisted, and the document is as dark as before.
reload-partialize :
    (system_dark : Bool) (cs : List Change)
    → let w = changes system_dark cs (rehydrate system_dark none) in
      let r = rehydrate system_dark (some (partialize w.state)) in
      (partialize r.state ≡ partialize w.state) × (r.is_dark ≡ w.is_dark)
unfolding rehydrate partialize
reload-partialize system_dark cs =
    (refl, sym (changes-is_dark system_dark cs (rehydrate system_dark none) refl))
