-- ===== src/Workspace.antt =====
-- state/workspace-store.ts: the layout of the workspace, and what of it outlives the page.
mod Laws
pub mod Panes
use fleet_agent.Base.{String, Bool, true, false, Option, none, some, ◌≡◌}
use fleet_agent.Process.Tabs.{ProcessPanelTab, activity}

pub data ThemeMode : Type 0 where
  dark light system : ThemeMode

pub record WorkspaceState : Type 0 where
  pub theme : ThemeMode
  pub sidebar_collapsed : Bool
  pub process_panel_open : Bool
  pub process_panel_tab : ProcessPanelTab
  pub sidebar_sheet_open : Bool
  pub process_sheet_open : Bool
  pub selected_artifact_id : Option String

-- whether the document is dark after `applyTheme`; `system_dark` is the browser's preference
unfoldable pub apply_theme : Bool → ThemeMode → Bool
apply_theme system_dark dark = true
apply_theme system_dark light = false
apply_theme system_dark system = system_dark

-- The document's class, and the store.
pub record Workspace : Type 0 where
  pub is_dark : Bool
  pub state : WorkspaceState

abbrev pub initial_state : WorkspaceState
initial_state = record {
  theme = dark;
  sidebar_collapsed = false;
  process_panel_open = true;
  process_panel_tab = activity;
  sidebar_sheet_open = false;
  process_sheet_open = false;
  selected_artifact_id = none;
}

-- The setters.
pub data Change : Type 0 where
  set_theme : ThemeMode → Change
  set_sidebar_collapsed set_process_panel_open set_sidebar_sheet_open set_process_sheet_open :
      Bool → Change
  set_process_panel_tab : ProcessPanelTab → Change
  set_selected_artifact_id : Option String → Change

unfoldable pub change : Bool → Change → Workspace → Workspace
change system_dark (set_theme theme) w = record {
  is_dark = apply_theme system_dark theme;
  state = record w.state { theme = theme };
}
change system_dark (set_sidebar_collapsed b) w = record w {
  state = record w.state { sidebar_collapsed = b };
}
change system_dark (set_process_panel_open b) w = record w {
  state = record w.state { process_panel_open = b };
}
change system_dark (set_sidebar_sheet_open b) w = record w {
  state = record w.state { sidebar_sheet_open = b };
}
change system_dark (set_process_sheet_open b) w = record w {
  state = record w.state { process_sheet_open = b };
}
change system_dark (set_process_panel_tab tab) w = record w {
  state = record w.state { process_panel_tab = tab };
}
change system_dark (set_selected_artifact_id id) w = record w {
  state = record w.state { selected_artifact_id = id };
}

-- `partialize`
pub record Persisted : Type 0 where
  pub theme : ThemeMode
  pub sidebar_collapsed : Bool
  pub process_panel_open : Bool
  pub process_panel_tab : ProcessPanelTab

unfoldable pub partialize : WorkspaceState → Persisted
partialize s = record {
  theme = s.theme;
  sidebar_collapsed = s.sidebar_collapsed;
  process_panel_open = s.process_panel_open;
  process_panel_tab = s.process_panel_tab;
}

-- what `persist` makes of what it finds, over the initial state, and the theme that is applied then
unfoldable pub rehydrate : Bool → Option Persisted → Workspace
rehydrate system_dark none = record {
  is_dark = apply_theme system_dark initial_state.theme;
  state = initial_state;
}
rehydrate system_dark (some p) = record {
  is_dark = apply_theme system_dark p.theme;
  state = record initial_state {
    theme = p.theme;
    sidebar_collapsed = p.sidebar_collapsed;
    process_panel_open = p.process_panel_open;
    process_panel_tab = p.process_panel_tab;
  };
}
