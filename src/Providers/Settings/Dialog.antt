-- ===== src/Providers/Settings/Dialog.antt =====
-- settings-dialog.tsx, provider-card.tsx, provider-form.tsx, appearance-section.tsx and
-- openrouter-button.tsx: what the dialog shows of the providers, the profiles and the theme.
pub mod Laws
use fleet_agent.Base.{
  ℕ, String, Bool, true, false, not, Option, none, some, List, [], ◌∷◌, length, keep, map, min,
  find, is_empty, ◌==◌, ◌&&◌, ◌||◌, Result, ok, err, ◌>>=◌, if◌then◌else◌,
}
use fleet_agent.Json.{Json, null, str, truthy}
use fleet_agent.Browser.{Tab}
use fleet_agent.Workspace.{ThemeMode, dark, light, system}
use fleet_agent.Providers.Profiles.{
  ProviderProfile, ResponseFormat, MessagesFormat, native_function_calling, json_tool_calls,
  system_role, developer_role, openrouter_profile_id, opencode_zen_profile_id,
}
use fleet_agent.Providers.Readiness.{ProviderError, type_error}
use fleet_agent.Providers.Registry.{ProvidersView, Edit, choose, edit_providers, provider_readiness}
use fleet_agent.Providers.Settings.Form.{
  ProviderFormData, FormState, FieldChange, set_response_format, set_messages_format,
}

pub data SettingsCategory : Type 0 where
  providers models appearance : SettingsCategory

pub record CategoryEntry : Type 0 where
  pub id : SettingsCategory
  pub label : String
  pub description : String

abbrev pub settings_categories : List CategoryEntry
settings_categories =
    record {
      id = providers;
      label = "Providers";
      description = "Connect accounts and manage provider endpoints.";
    }
    ∷ record {
      id = models;
      label = "Models";
      description = "Choose the model used for agent runs.";
    }
    ∷ record {
      id = appearance;
      label = "Appearance";
      description = "Set your preferred color theme.";
    }
    ∷ []

abbrev is_category : SettingsCategory → SettingsCategory → Bool
is_category providers providers = true
is_category models models = true
is_category appearance appearance = true
is_category _ _ = false

-- the entry whose label and description head the dialog
unfoldable pub active_entry : SettingsCategory → Option CategoryEntry
active_entry active = find (λ entry. is_category entry.id active) settings_categories

-- the profiles that are not presets
unfoldable pub custom_profiles : List ProviderProfile → List ProviderProfile
custom_profiles ps =
    keep (λ p. not (p.id == openrouter_profile_id) && not (p.id == opencode_zen_profile_id)) ps

pub data ProviderIcon : Type 0 where
  globe cpu server : ProviderIcon

-- What stands below the name of a provider.
pub data Caption : Type 0 where
  setup_needed default_model : Caption
  named_model : Json → Caption

pub record ProviderCard : Type 0 where
  pub id : String
  pub name : String
  pub icon : ProviderIcon
  pub selected : Bool
  pub caption : Caption

abbrev pub icon_of : String → ProviderIcon
icon_of id =
    if id == openrouter_profile_id
    then globe
    else if id == opencode_zen_profile_id
    then cpu
    else server

abbrev pub is_active : Option String → String → Bool
is_active none id = false
is_active (some active) id = active == id

-- `profile.modelId || …`
abbrev pub model_caption : Option Json → Caption
model_caption none = default_model
model_caption (some v) = if truthy v then named_model v else default_model

-- One card of the section "Active Provider"; the readiness is asked for while it is rendered.
unfoldable pub provider_card :
    Option String → ProviderProfile → Tab → Tab × Result ProviderError ProviderCard
provider_card active p t =
    let (t', r) = provider_readiness (some p.id) t in
    (
      t',
      do
        ready ← r
        ok (record {
          id = p.id;
          name = p.name;
          icon = icon_of p.id;
          selected = is_active active p.id;
          caption = if ready.ready then model_caption p.model_id else setup_needed;
        }),
    )

-- the columns of the group of cards
unfoldable pub card_columns : Bool → List ProviderProfile → ℕ
card_columns is_mobile ps = if is_mobile then 1 else min 3 (length ps)

-- a click on a card
unfoldable pub choose_card : String → Tab × ProvidersView → Tab × ProvidersView
choose_card id s = edit_providers (choose (some id)) s

pub record CustomCard : Type 0 where
  pub name : String
  pub active : Bool
  pub caption : Caption
  pub base_url : Option Json
  pub api_key : Option Json  -- which `maskApiKey` masks

unfoldable pub custom_card : Option String → ProviderProfile → CustomCard
custom_card active p = record {
  name = p.name;
  active = is_active active p.id;
  caption = model_caption p.model_id;
  base_url = p.base_url;
  api_key = p.api_key;
}

-- The section "Custom Providers": its button, the remark where there are none, the cards, the form.
pub record CustomSection : Type 0 where
  pub button : String
  pub has_remark : Bool
  pub cards : List CustomCard
  pub form : Option (ProviderFormData × Option String)

unfoldable pub custom_section : ProvidersView → FormState → CustomSection
unfolding custom_profiles custom_card
custom_section v f =
    let custom = custom_profiles v.profiles in
    record {
      button = if f.show_provider_form then "Cancel" else "Add Provider";
      has_remark = elim custom [ [] ↦ not f.show_provider_form | _ ∷ _ ↦ false ];
      cards = map (custom_card v.active_provider_id) custom;
      form = if f.show_provider_form then some (f.provider_form, f.provider_form_error) else none;
    }

-- One button of a group of options, and the change that a click makes.
pub record SegmentedOption : Type 0 where
  pub label : String
  pub is_chosen : Bool
  pub on_change : FieldChange

abbrev is_native : ResponseFormat → Bool
is_native native_function_calling = true
is_native json_tool_calls = false

abbrev is_system : MessagesFormat → Bool
is_system system_role = true
is_system developer_role = false

unfoldable pub response_format_options : ProviderFormData → List SegmentedOption
response_format_options d =
    record {
      label = "Native function calling";
      is_chosen = is_native d.response_format;
      on_change = set_response_format native_function_calling;
    }
    ∷ record {
      label = "JSON tool calls";
      is_chosen = not (is_native d.response_format);
      on_change = set_response_format json_tool_calls;
    }
    ∷ []

unfoldable pub messages_format_options : ProviderFormData → List SegmentedOption
messages_format_options d =
    record {
      label = "System role";
      is_chosen = is_system d.messages_format;
      on_change = set_messages_format system_role;
    }
    ∷ record {
      label = "Developer role";
      is_chosen = not (is_system d.messages_format);
      on_change = set_messages_format developer_role;
    }
    ∷ []

-- A card of the section "Interface Theme", and the theme that a click sets.
pub record ThemeCard : Type 0 where
  pub theme : ThemeMode
  pub label : String
  pub selected : Bool

abbrev pub is_theme : ThemeMode → ThemeMode → Bool
is_theme dark dark = true
is_theme light light = true
is_theme system system = true
is_theme _ _ = false

unfoldable pub appearance_section : ThemeMode → List ThemeCard
appearance_section theme =
    record { theme = light; label = "Light"; selected = is_theme theme light }
    ∷ record { theme = dark; label = "Dark"; selected = is_theme theme dark }
    ∷ record { theme = system; label = "System"; selected = is_theme theme system }
    ∷ []
