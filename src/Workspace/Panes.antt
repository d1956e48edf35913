-- ===== src/Workspace/Panes.antt =====
-- components/workspace/agent-workspace.tsx: the panes around a conversation. A panel of the layout
-- library is a parameter, with what its handle does.
pub mod Laws
mod Tests
use fleet_agent.Base.{
  String, ◌≡◌, Bool, true, false, not, Option, none, some, List, [], ◌∷◌, find, ◌==◌, ◌&&◌,
  if◌then◌else◌,
}
use fleet_agent.Workspace.{
  WorkspaceState, Workspace, Change, change, set_sidebar_collapsed, set_process_panel_open,
  set_sidebar_sheet_open, set_process_sheet_open,
}

pub record NamedProject : Type 0 where
  pub id : String
  pub name : String

-- `projects.data?.find(…)?.name ?? projectId ?? 'Current project'`
unfoldable pub project_label : Option (List NamedProject) → Option String → String
project_label none none = "Current project"
project_label none (some id) = id
project_label (some ps) none = "Current project"
project_label (some ps) (some id) = elim (find (λ (p : NamedProject). p.id == id) ps) [
  | none ↦ id
  | some p ↦ p.name
]

-- The width of the window: below 781 and below 1200 pixels. What is mobile is compact.
pub data Width : Type 0 where
  mobile compact wide : Width

abbrev pub is_mobile : Width → Bool
is_mobile mobile = true
is_mobile _ = false

abbrev pub is_compact : Width → Bool
is_compact wide = false
is_compact _ = true

-- `usePaneActions`
unfoldable pub toggle_sidebar : Width → WorkspaceState → Change
toggle_sidebar width s =
    if is_mobile width
    then set_sidebar_sheet_open true
    else set_sidebar_collapsed (not s.sidebar_collapsed)

unfoldable pub toggle_process : Width → WorkspaceState → Change
toggle_process width s =
    if is_compact width
    then set_process_sheet_open true
    else set_process_panel_open (not s.process_panel_open)

unfoldable pub process_panel_active : Width → WorkspaceState → Bool
process_panel_active width s =
    if is_compact width then s.process_sheet_open else s.process_panel_open

-- Where the projects and the process stand, if they are shown.
pub data Place : Type 0 where
  hidden in_sheet in_panel : Place

abbrev pub sheet : Bool → Place
sheet true = in_sheet
sheet false = hidden

abbrev pub panel : Bool → Place
panel true = in_panel
panel false = hidden

-- DesktopWorkspace and MobileWorkspace
unfoldable pub sidebar_place : Width → WorkspaceState → Place
sidebar_place width s =
    if is_mobile width then sheet s.sidebar_sheet_open else panel (not s.sidebar_collapsed)

unfoldable pub process_place : Width → WorkspaceState → Place
process_place width s =
    if is_compact width then sheet s.process_sheet_open else panel s.process_panel_open

-- `onClose` of the process panel, and `onOpenChange` of the sheet
unfoldable pub close_process : Width → Change
close_process width =
    if is_compact width then set_process_sheet_open false else set_process_panel_open false

-- The handle of a collapsible panel: after `collapse()` and `expand()`, `isCollapsed()` says so.
pub record PanelHandle : Type 1 where
  pub P : Type 0
  pub is_collapsed : P → Bool
  pub collapse : P → P
  pub expand : P → P
  pub collapse_collapsed : (p : P) → is_collapsed (collapse p) ≡ true
  pub expand_collapsed : (p : P) → is_collapsed (expand p) ≡ false

module _ (H : PanelHandle) where
  -- the effects that bring a panel in line with the store, on whether it should be collapsed
  unfoldable pub reconcile : Bool → H.P → H.P
  reconcile true p = if H.is_collapsed p then p else H.collapse p
  reconcile false p = if H.is_collapsed p then H.expand p else p

  abbrev same_bool : Bool → Bool → Bool
  same_bool true b = b
  same_bool false b = not b

  -- `onResize` of the sidebar and of the process panel: the change of the store, if any
  unfoldable pub resize_sidebar : H.P → WorkspaceState → Option Change
  resize_sidebar p s =
      if same_bool (H.is_collapsed p) s.sidebar_collapsed
      then none
      else some (set_sidebar_collapsed (H.is_collapsed p))

  unfoldable pub resize_process : H.P → WorkspaceState → Option Change
  resize_process p s =
      if same_bool (H.is_collapsed p) s.process_panel_open
      then some (set_process_panel_open (not (H.is_collapsed p)))
      else none

abbrev pub changed : Bool → Option Change → Workspace → Workspace
changed system_dark none w = w
changed system_dark (some c) w = change system_dark c w
