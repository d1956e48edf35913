-- ===== src/Tools.antt =====
-- app/routes/tools-route.tsx, with the entries of features/tools/tools-api.ts: the catalog of tools.
mod Laws
use fleet_agent.Base.{
  ℕ, String, Bool, true, false, not, Option, none, some, List, [], ◌∷◌, keep, map, find, ◌==◌, ◌++◌,
  if◌then◌else◌,
}
use fleet_agent.Threads.Route.{Query, pending, failed, succeeded}

pub data Capability : Type 0 where
  retrieval utility artifact workspace_read workspace_write shell : Capability

pub record ToolCatalogEntry : Type 0 where
  pub name : String
  pub description : String
  pub capability : Capability
  pub read_only : Bool
  pub idempotent : Option Bool
  pub parallelizable : Bool
  pub timeout_seconds : Option ℕ
  pub requires_approval : Bool

pub data ToolIcon : Type 0 where
  search file_code globe clock folder_search terminal wrench : ToolIcon

pub record ToolMeta : Type 0 where
  pub name : String
  pub icon : ToolIcon
  pub type : String

abbrev meta : String → ToolIcon → String → ToolMeta
meta name icon type = record { name = name; icon = icon; type = type }

abbrev pub tool_metas : List ToolMeta
tool_metas =
    meta "search_docs" search "Built-in Knowledge"
    ∷ meta "write_report" file_code "Artifact Generation"
    ∷ meta "web_search" globe "Web Discovery"
    ∷ meta "fetch_page" globe "Web Discovery"
    ∷ meta "get_current_time" clock "Utility"
    ∷ meta "ls" folder_search "Workspace inspection"
    ∷ meta "find" folder_search "Workspace inspection"
    ∷ meta "grep" search "Workspace inspection"
    ∷ meta "read" file_code "Workspace inspection"
    ∷ meta "write" file_code "Workspace mutation"
    ∷ meta "edit" file_code "Workspace mutation"
    ∷ meta "bash" terminal "Workspace command"
    ∷ []

unfoldable pub tool_meta : String → ToolMeta
tool_meta name = elim (find (λ (m : ToolMeta). m.name == name) tool_metas) [
  | none ↦ meta name wrench "Registered Tool"
  | some m ↦ m
]

pub data Badge : Type 0 where
  parallelizable_badge idempotent_badge approval_required : Badge
  timeout : ℕ → Badge

pub record ToolCard : Type 0 where
  pub name : String
  pub description : String
  pub icon : ToolIcon
  pub type : String
  pub capability_label : String
  pub badges : List Badge

abbrev badge_if : Bool → Badge → List Badge
badge_if true b = b ∷ []
badge_if false b = []

abbrev is_set : Option Bool → Bool
is_set none = false
is_set (some b) = b

abbrev timeout_of : Option ℕ → List Badge
timeout_of none = []
timeout_of (some n) = timeout n ∷ []

abbrev pub capability_label : Capability → Bool → String
capability_label shell read_only = "Shell"
capability_label _ true = "Read-only"
capability_label _ false = "Mutation"

unfoldable pub tool_card : ToolCatalogEntry → ToolCard
unfolding tool_meta
tool_card t = record {
  name = t.name;
  description = t.description;
  icon = (tool_meta t.name).icon;
  type = (tool_meta t.name).type;
  capability_label = capability_label t.capability t.read_only;
  badges =
      badge_if t.parallelizable parallelizable_badge
      ++ badge_if (is_set t.idempotent) idempotent_badge
      ++ badge_if t.requires_approval approval_required
      ++ timeout_of t.timeout_seconds;
}

pub data ToolsBody : Type 0 where
  loading_tools could_not_load no_read_only_tools no_tools : ToolsBody
  cards : List ToolCard → ToolsBody

pub record ToolsPage : Type 0 where
  pub switch_on : Bool
  pub switch_disabled : Bool
  pub body : ToolsBody

abbrev pub listed_tools : Bool → List ToolCatalogEntry → ToolsBody
listed_tools true [] = no_read_only_tools
listed_tools false [] = no_tools
listed_tools only (t ∷ ts) = cards (map tool_card (t ∷ ts))

abbrev visible_tools : Bool → List ToolCatalogEntry → List ToolCatalogEntry
visible_tools read_only_only ts =
    if read_only_only then keep (λ (t : ToolCatalogEntry). t.read_only) ts else ts

-- the page, with whether only the read-only tools are asked for
unfoldable pub tools_page : Query (List ToolCatalogEntry) → Bool → ToolsPage
tools_page pending only = record { switch_on = only; switch_disabled = true; body = loading_tools }
tools_page failed only = record { switch_on = only; switch_disabled = true; body = could_not_load }
tools_page (succeeded ts) only = record {
  switch_on = only;
  switch_disabled = false;
  body = listed_tools only (visible_tools only ts);
}
