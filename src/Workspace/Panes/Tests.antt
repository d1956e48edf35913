-- ===== src/Workspace/Panes/Tests.antt =====
-- Runs of the panes.
use fleet_agent.Base.{◌≡◌, refl, Bool, true, false, not}
use fleet_agent.Workspace.{Workspace, initial_state}
use fleet_agent.Workspace.Panes.{PanelHandle, reconcile, resize_sidebar, resize_process, changed}
use fleet_agent.Workspace.Panes.Laws.{resize-settles}

-- a panel that is its own state
abbrev panel_handle : PanelHandle
panel_handle = record {
  P = Bool;
  is_collapsed = λ p. p;
  collapse = λ p. true;
  expand = λ p. false;
  collapse_collapsed = λ p. refl;
  expand_collapsed = λ p. refl;
}

abbrev first : Workspace
first = record { is_dark = true; state = initial_state }

resize-settles_example :
    ((changed true (resize_sidebar panel_handle true initial_state) first).state.sidebar_collapsed
      ≡ true)
    × ((changed true
          (resize_process panel_handle true initial_state)
          first).state.process_panel_open
        ≡ not true)
    × (reconcile panel_handle
          (changed true
            (resize_sidebar panel_handle true initial_state)
            first).state.sidebar_collapsed
          true
        ≡ true)
    × (reconcile panel_handle
          (not
            (changed true
              (resize_process panel_handle true initial_state)
              first).state.process_panel_open)
          true
        ≡ true)
resize-settles_example = resize-settles panel_handle true true true first
