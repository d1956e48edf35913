-- ===== src/Projects/Sidebar.antt =====
-- project-sidebar.tsx: the sidebar around the projects, and app/routes/workspace-bootstrap-route.tsx,
-- the page that leads to one of them. The case mapping of texts is a parameter.
pub mod Laws
use Prim.Native.String
use fleet_agent.Base.{
  ℕ, String, Bool, true, false, not, Option, none, some, List, [], ◌∷◌, keep, map, is_empty, ◌==◌,
  ◌||◌, ◌&&◌, if◌then◌else◌,
}
use fleet_agent.Api.{Call, create_thread, create_project}
use fleet_agent.Threads.Route.{Query, pending, failed, succeeded}
use fleet_agent.Providers.Settings.ModelChoice.{includes}
use fleet_agent.Workspace.{ThemeMode, dark, light, system}
use fleet_agent.Projects.Section.{
  Effect, request, refresh_threads, refresh_projects, navigate, project_path, thread_path, is_param,
  default_title,
}

pub record Project : Type 0 where
  pub id : String
  pub name : String

unfoldable pub filtered_projects : (String → String) → String → List Project → List Project
filtered_projects lower filter projects =
    if is_empty filter
    then projects
    else keep (λ p. includes (lower p.name) (lower filter)) projects

-- What stands below the label "Projects": the sections, each with whether it starts open.
pub data ProjectList : Type 0 where
  skeletons no_projects : ProjectList
  sections : List (Project × Bool) → ProjectList

abbrev with_opening : Option String → Project → Project × Bool
with_opening current p = (p, is_param current p.id)

abbrev sections_of : Option String → List Project → ProjectList
sections_of current [] = no_projects
sections_of current (p ∷ ps) = sections (map (with_opening current) (p ∷ ps))

unfoldable pub project_list :
    (String → String) → Option String → String → Query (List Project) → ProjectList
unfolding filtered_projects
project_list lower current filter (succeeded ps) =
    sections_of current (filtered_projects lower filter ps)
project_list lower current filter _ = skeletons

-- The links of the header, which need a project.
pub data Link : Type 0 where
  optimizer tools connectors : Link

abbrev link_path : Link → String
link_path optimizer = "/optimizer"
link_path tools = "/tools"
link_path connectors = "/connectors"

pub record LinkView : Type 0 where
  pub is_active : Bool
  pub disabled : Bool

unfoldable pub link_view : Link → Option String → String → LinkView
link_view link project pathname = record {
  is_active = includes pathname (link_path link);
  disabled = elim project [ none ↦ true | some id ↦ is_empty id ];
}

unfoldable pub link_clicked : Link → Option String → List Effect
link_clicked link none = []
link_clicked link (some project) =
    if is_empty project
    then []
    else navigate (String.◌++◌ (project_path project) (link_path link)) ∷ []

-- NewThreadMenuItem: whether it is disabled, its click, and `onSuccess` of its mutation
unfoldable pub new_thread_disabled : Option String → Bool → Bool
new_thread_disabled none is_pending = true
new_thread_disabled (some project) is_pending = is_empty project || is_pending

unfoldable pub new_thread_clicked : Option String → List Effect
new_thread_clicked none = []
new_thread_clicked (some project) =
    if is_empty project then [] else request (create_thread project default_title) ∷ []

unfoldable pub new_thread_created : String → String → List Effect
new_thread_created project thread =
    refresh_threads project ∷ navigate (thread_path project thread) ∷ []

-- CreateProjectDialog: `onSubmit` and `onSuccess`
unfoldable pub create_request : String → List Effect
create_request name = request (create_project name) ∷ []

unfoldable pub project_created : String → List Effect
project_created id = refresh_projects ∷ navigate (project_path id) ∷ []

-- ThemeDropdownMenu: its icon, and the item that is marked
pub data ThemeIcon : Type 0 where
  sun moon laptop : ThemeIcon

unfoldable pub theme_icon : ThemeMode → ThemeIcon
theme_icon light = sun
theme_icon dark = moon
theme_icon system = laptop

-- The page at the root.
pub data Boot : Type 0 where
  loading_workspace projects_failed loading_threads : Boot
  create_first : Boot
  to : String → Boot

-- ProjectEntry: `data?.[0]`, with no data after an error
abbrev entry_of : String → Query (List String) → Boot
entry_of project pending = loading_threads
entry_of project (succeeded (thread ∷ rest)) = to (thread_path project thread)
entry_of project _ = to (project_path project)

unfoldable pub bootstrap_view : Query (List Project) → (String → Query (List String)) → Boot
bootstrap_view pending threads = loading_workspace
bootstrap_view failed threads = projects_failed
bootstrap_view (succeeded []) threads = create_first
bootstrap_view (succeeded (p ∷ ps)) threads = entry_of p.id (threads p.id)

-- EmptyBootstrap: the mutation, as far as it has got
pub data Creation : Type 0 where
  not_asked creating not_created : Creation
  created : String → Creation

pub record EmptyView : Type 0 where
  pub leads_to : Option String
  pub disabled : Bool
  pub error : Option String

unfoldable pub empty_bootstrap : Creation → EmptyView
empty_bootstrap not_asked = record { leads_to = none; disabled = false; error = none }
empty_bootstrap creating = record { leads_to = none; disabled = true; error = none }
empty_bootstrap not_created = record {
  leads_to = none;
  disabled = false;
  error = some "Could not create the project.";
}
empty_bootstrap (created id) = record {
  leads_to = some (project_path id);
  disabled = false;
  error = none;
}

unfoldable pub workspace_created : List Effect
workspace_created = refresh_projects ∷ []

unfoldable pub create_workspace_clicked : List Effect
create_workspace_clicked = request (create_project "Workspace") ∷ []
