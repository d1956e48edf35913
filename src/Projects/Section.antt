-- ===== src/Projects/Section.antt =====
-- project-sidebar.tsx: ProjectSection, a project with its threads, and DeleteProjectDialog. What a
-- handler causes outside its own state is a list of effects; a request that it awaits ends in a
-- handler of its own.
pub mod Laws
use Prim.Native.String
use fleet_agent.Base.{
  ℕ, String, Bool, true, false, not, Option, none, some, List, [], ◌∷◌, length, take, map, ltb,
  ◌==◌, ◌||◌, ◌&&◌, if◌then◌else◌,
}
use fleet_agent.Api.{Call, create_thread, delete_thread, rename_project, delete_project}
use fleet_agent.Threads.Route.{Query, pending, failed, succeeded}
use fleet_agent.Projects.NameDialog.{NameDialog}

pub record ListedThread : Type 0 where
  pub id : String
  pub title : String

-- The parameters of the route.
pub record RouteParams : Type 0 where
  pub project_id : Option String
  pub thread_id : Option String

pub data Effect : Type 0 where
  request : Call → Effect
  refresh_threads : String → Effect  -- the query of a project's threads is invalidated
  refresh_projects : Effect
  forget_threads forget_bootstrap : String → Effect  -- the query is removed from the cache
  navigate : String → Effect

pub record SectionState : Type 0 where
  pub is_open : Bool
  pub show_all : Bool
  pub rename_open : Bool
  pub delete_open : Bool

-- the first render
unfoldable pub mount_section : Bool → SectionState
mount_section default_open = record {
  is_open = default_open;
  show_all = false;
  rename_open = false;
  delete_open = false;
}

abbrev pub default_title : String
default_title = "New conversation"

abbrev pub project_path : String → String
project_path project = String.◌++◌ "/projects/" project

abbrev pub thread_path : String → String → String
thread_path project thread = String.◌++◌ (project_path project) (String.◌++◌ "/threads/" thread)

abbrev pub is_param : Option String → String → Bool
is_param none id = false
is_param (some p) id = p == id

-- The clicks on the section.
pub data Click : Type 0 where
  toggle_section toggle_all open_rename open_delete add_thread : Click
  press_key : String → Click  -- on the label
  open_thread remove_thread : String → Click

abbrev toggled : SectionState → SectionState
toggled s = record s { is_open = not s.is_open }

unfoldable pub click : String → Click → SectionState → SectionState × List Effect
click project toggle_section s = (toggled s, [])
click project (press_key key) s = if key == "Enter" || key == " " then (toggled s, []) else (s, [])
click project toggle_all s = (record s { show_all = not s.show_all }, [])
click project open_rename s = (record s { rename_open = true }, [])
click project open_delete s = (record s { delete_open = true }, [])
click project add_thread s = (s, request (create_thread project default_title) ∷ [])
click project (open_thread id) s = (s, navigate (thread_path project id) ∷ [])
click project (remove_thread id) s = (s, request (delete_thread id) ∷ [])

-- `onSuccess` of `newThreadMutation`
unfoldable pub thread_added : String → String → SectionState → SectionState × List Effect
thread_added project thread s = (
  record s { is_open = true },
  refresh_threads project ∷ navigate (thread_path project thread) ∷ [],
)

-- `onSuccess` of `deleteThreadMutation`
unfoldable pub thread_removed : String → RouteParams → String → List Effect
thread_removed project params thread =
    refresh_threads project
    ∷ forget_bootstrap thread
    ∷ (if is_param params.thread_id thread then navigate (project_path project) ∷ [] else [])

-- `onSubmit` and `onSuccess` of the dialog that renames the project
unfoldable pub rename_request : String → String → List Effect
rename_request project name = request (rename_project project name) ∷ []

unfoldable pub project_renamed : List Effect
project_renamed = refresh_projects ∷ []

-- DeleteProjectDialog: the click on its button, which is disabled while the request is pending
unfoldable pub delete_clicked : String → Bool → List Effect
delete_clicked project is_pending = if is_pending then [] else request (delete_project project) ∷ []

-- `onSuccess` of its mutation
unfoldable pub project_deleted : String → Bool → SectionState → SectionState × List Effect
project_deleted project is_active s = (
  record s { delete_open = false },
  forget_threads project ∷ refresh_projects ∷ (if is_active then navigate "/" ∷ [] else []),
)

abbrev pub thread_preview_count : ℕ
thread_preview_count = 5

unfoldable pub visible_threads : Bool → List ListedThread → List ListedThread
visible_threads show_all all_threads =
    if show_all then all_threads else take thread_preview_count all_threads

unfoldable pub has_hidden : List ListedThread → Bool
has_hidden all_threads = ltb thread_preview_count (length all_threads)

pub record ThreadRow : Type 0 where
  pub id : String
  pub title : String
  pub active : Bool

-- The rows, or the remark "No chats"; and the label of the button below them.
pub record SectionBody : Type 0 where
  pub rows : List ThreadRow
  pub is_without_chats : Bool
  pub more_button : Option String

pub record SectionView : Type 0 where
  pub name : String
  pub badge : Option ℕ
  pub body : Option SectionBody

abbrev thread_row : String → RouteParams → ListedThread → ThreadRow
thread_row project params t = record {
  id = t.id;
  title = t.title;
  active = is_param params.thread_id t.id && is_param params.project_id project;
}

-- `threads.data ?? []`
abbrev data_or_none : Query (List ListedThread) → List ListedThread
data_or_none (succeeded ts) = ts
data_or_none _ = []

abbrev badge_of : Query (List ListedThread) → Option ℕ
badge_of (succeeded ts) = some (length ts)
badge_of _ = none

abbrev section_body : String → RouteParams → Bool → List ListedThread → SectionBody
section_body project params show_all ts = record {
  rows = map (thread_row project params) (visible_threads show_all ts);
  is_without_chats = elim ts [ [] ↦ true | _ ∷ _ ↦ false ];
  more_button =
      if has_hidden ts then some (if show_all then "Show less" else "Show more") else none;
}

unfoldable pub section_view :
    String → String → RouteParams → Query (List ListedThread) → SectionState → SectionView
section_view project name params threads s = record {
  name = name;
  badge = badge_of threads;
  body =
      if s.is_open
      then some (section_body project params s.show_all (data_or_none threads))
      else none;
}
