-- ===== src/Providers/Settings/ModelChoice.antt =====
-- settings-dialog.tsx, the section of the active model, and model-cards-row.tsx, the list of models.
-- The case mapping of texts is a parameter.
pub mod Laws
pub mod Run
pub mod Routing
use Prim.Native.String
use fleet_agent.Base.{
  ℕ, ◌-◌, String, Bool, true, false, not, Option, none, some, List, [], ◌∷◌, length, take, any,
  find, keep, map, leb, ltb, trim, is_empty, ◌==◌, ◌||◌, ◌&&◌, if◌then◌else◌,
}
use fleet_agent.Browser.{Tab}
use fleet_agent.Providers.Profiles.{
  opencode_zen_profile_id, openrouter_base_url, opencode_zen_base_url,
}
use fleet_agent.Providers.Models.{ProviderModel}
use fleet_agent.Providers.Hooks.{AuthView, choose_model, enable_custom, act}
use fleet_agent.Providers.Settings.Keys.{Vendor, openrouter, opencode_zen, config_of, rereads}

-- The tab and the hook, with the input of the section.
abbrev pub ModelState : Type 0
ModelState = (Tab × AuthView) × String

-- `onSelectModel`
unfoldable pub select_model : Vendor → String → ModelState → ModelState
select_model vendor id (s, input) =
    let c = config_of vendor in
    let r = rereads vendor in (act r c (choose_model id) (act r c (enable_custom true) s), id)

-- `handleCustomModelSubmit` and `handleOpenCodeZenCustomModelSubmit`
unfoldable pub submit_custom_model : Vendor → ModelState → ModelState
submit_custom_model vendor (s, input) =
    if is_empty (trim input)
    then (s, input)
    else (act (rereads vendor) (config_of vendor) (choose_model (trim input)) s, input)

-- `onToggle` of the switch
unfoldable pub toggle_custom_model : Vendor → ModelState → ModelState
toggle_custom_model vendor ((t, v), input) = (
  act (rereads vendor) (config_of vendor) (enable_custom (not v.custom_model_enabled)) (t, v),
  input,
)

-- the section that is shown
abbrev pub shown_vendor : Option String → Vendor
shown_vendor none = openrouter
shown_vendor (some id) = if id == opencode_zen_profile_id then opencode_zen else openrouter

pub record ModelSection : Type 0 where
  pub status : String
  pub base_url : String
  pub api_key : Option String
  pub selected_model : String
  pub input : String
  pub can_apply : Bool
  pub routed : String

unfoldable pub model_section : Vendor → ModelState → ModelSection
model_section vendor ((t, v), input) = record {
  status = if v.custom_model_enabled then "Active" else "Disabled";
  base_url = elim vendor [
    | openrouter ↦ openrouter_base_url
    | opencode_zen ↦ opencode_zen_base_url
  ];
  api_key = v.api_key;
  selected_model = v.selected_model;
  input = input;
  can_apply = not (is_empty (trim input) || input == v.selected_model);
  routed = if v.custom_model_enabled then v.selected_model else "Default Server Model";
}

-- `text.includes(part)`
abbrev is_prefix : String → String → Bool
is_prefix String.[] s = true
is_prefix (String.◌∷◌ c p) String.[] = false
is_prefix (String.◌∷◌ c p) (String.◌∷◌ d s) =
    String.◌∷◌ c String.[] == String.◌∷◌ d String.[] && is_prefix p s

abbrev pub includes : String → String → Bool
includes String.[] part = is_prefix part String.[]
includes (String.◌∷◌ c s) part = is_prefix part (String.◌∷◌ c s) || includes s part

-- how many models are shown where nothing is searched for
abbrev pub limit : ℕ
limit = 80

abbrev pub is_model : String → ProviderModel → Bool
is_model id m = m.id == id

-- The first models, with the selected one in front if it is not among them.
unfoldable pub initial_models : List ProviderModel → String → List ProviderModel
initial_models models selected =
    let initial = take limit models in
    if not (is_empty selected) && not (any (is_model selected) initial)
    then (elim (find (is_model selected) models) [
      | none ↦ initial
      | some found ↦ found ∷ take (limit - 1) initial
    ])
    else initial

module _ (lower : String → String) where
  abbrev pub matches : String → ProviderModel → Bool
  matches query m = includes (lower m.name) (lower query) || includes (lower m.id) (lower query)

  unfoldable pub filtered_models :
      Option (List ProviderModel) → String → String → List ProviderModel
  unfolding initial_models
  filtered_models none query selected = []
  filtered_models (some models) query selected =
      if not (is_empty (trim query))
      then keep (matches query) models
      else if leb (length models) limit
      then models
      else initial_models models selected

-- The query of the models, as far as it has got.
pub data ModelsQuery : Type 0 where
  models_loading models_failed : ModelsQuery
  models_found : Option (List ProviderModel) → ModelsQuery

pub record ModelCard : Type 0 where
  pub name : String
  pub id : String
  pub selected : Bool
  pub button : String

pub data ModelsRow : Type 0 where
  loading_models unable_to_fetch no_models : ModelsRow
  available_models : ℕ → Option ℕ → Bool → List ModelCard → ModelsRow

unfoldable pub model_card : String → ProviderModel → ModelCard
model_card selected m = record {
  name = m.name;
  id = m.id;
  selected = selected == m.id;
  button = if selected == m.id then "Connected" else "Connect";
}

-- The list with its label: how many are shown, and of how many if some are not; and whether the
-- filter is offered.
unfoldable pub listed_models : List ProviderModel → List ProviderModel → String → ModelsRow
unfolding model_card
listed_models [] shown selected = no_models
listed_models (m ∷ ms) shown selected =
    let total = length (m ∷ ms) in
    available_models (length shown) (if ltb (length shown) total then some total else none)
      (ltb 5 total) (map (model_card selected) shown)

-- what `ModelCardsRow` shows
unfoldable pub models_row : (String → String) → ModelsQuery → String → String → ModelsRow
unfolding listed_models
models_row lower models_loading query selected = loading_models
models_row lower models_failed query selected = unable_to_fetch
models_row lower (models_found none) query selected = no_models
models_row lower (models_found (some models)) query selected =
    listed_models models (filtered_models lower (some models) query selected) selected
