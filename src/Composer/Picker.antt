-- ===== src/Composer/Picker.antt =====
-- ComposerModelPicker: the routes that can be picked, the one that is active, and a pick. What the
-- hooks of the providers show is a record beside the tab that their calls change; whether a provider
-- is ready is an argument.
pub mod Options
pub mod Kept
pub mod Picked
pub mod Laws
pub mod Tests
use fleet_agent.Base.{
  String, Bool, true, false, not, Option, none, some, is_some, List, [], ◌∷◌, ◌++◌, map, any, find,
  keep, prefixed, trim, is_empty, ◌==◌, ◌&&◌, ◌||◌, Result, ok, err, ◌>>=◌, if◌then◌else◌,
}
use fleet_agent.Providers.Profiles.{
  ProviderProfile, openrouter_profile_id, opencode_zen_profile_id, is_preset_id,
}
use fleet_agent.Providers.Readiness.{ProviderError, trimmed}
use fleet_agent.Browser.{Tab}
use fleet_agent.Providers.Hooks.{AuthView, choose_model, enable_custom, act}
use fleet_agent.Providers.Registry.{ProvidersView, choose, after_edit, edit_providers}
use fleet_agent.Providers.Settings.Keys.{Vendor, openrouter, opencode_zen, config_of, rereads}

pub record ModelOption : Type 0 where
  pub key : String
  pub model_id : Option String
  pub label : String
  pub description : String
  pub provider_id : String
  pub ready : Bool

abbrev pub model_option_key : String → String → String
model_option_key provider model = prefixed provider (prefixed ":" model)

abbrev pub default_model_key : String
default_model_key = "__default__"

pub record PopularModel : Type 0 where
  pub id : String
  pub label : String

-- What differs between the two built-in providers.
pub record Route : Type 0 where
  pub id : String
  pub name : String
  pub popular : List PopularModel
  pub fallback : String

abbrev popular : String → String → PopularModel
popular id label = record { id = id; label = label }

abbrev pub openrouter_route : Route
openrouter_route = record {
  id = openrouter_profile_id;
  name = "OpenRouter";
  popular =
      popular "openai/gpt-4o-mini" "GPT-4o mini (OpenAI)"
      ∷ popular "anthropic/claude-3.5-sonnet" "Claude 3.5 Sonnet (Anthropic)"
      ∷ popular "deepseek/deepseek-r1" "DeepSeek R1"
      ∷ popular "deepseek/deepseek-chat" "DeepSeek V3"
      ∷ popular "meta-llama/llama-3.3-70b-instruct" "Llama 3.3 70B (Meta)"
      ∷ popular "google/gemini-3.1-flash-lite" "Gemini 3.1 Flash Lite (Google)"
      ∷ popular "google/gemini-2.5-flash" "Gemini 2.5 Flash (Google)"
      ∷ popular "qwen/qwen-2.5-72b-instruct" "Qwen 2.5 72B (Alibaba)"
      ∷ [];
  fallback = "openai/gpt-4o-mini";
}

abbrev pub opencode_zen_route : Route
opencode_zen_route = record {
  id = opencode_zen_profile_id;
  name = "OpenCode Zen";
  popular =
      popular "muse-spark-1.3-contributor-free" "Muse Spark 1.3 (Contributor Free)"
      ∷ popular "muse-spark-1.2" "Muse Spark 1.2"
      ∷ popular "muse-spark-1.2-contributor-free" "Muse Spark 1.2 (Contributor Free)"
      ∷ popular "claude-opus-4-8" "Claude Opus 4.8"
      ∷ popular "claude-sonnet-4-6" "Claude Sonnet 4.6"
      ∷ popular "claude-haiku-4-5" "Claude Haiku 4.5"
      ∷ popular "gpt-5.5" "GPT 5.5"
      ∷ popular "gpt-5.4" "GPT 5.4"
      ∷ popular "gemini-3.1-pro" "Gemini 3.1 Pro"
      ∷ popular "gemini-3.5-flash" "Gemini 3.5 Flash"
      ∷ popular "deepseek-v4-pro" "DeepSeek V4 Pro"
      ∷ popular "qwen3.6-plus" "Qwen 3.6 Plus"
      ∷ [];
  fallback = "muse-spark-1.3-contributor-free";
}

-- What the three hooks show.
pub record PickerState : Type 0 where
  pub providers : ProvidersView
  pub openrouter : AuthView
  pub opencode_zen : AuthView

abbrev pub default_option : String → String → ModelOption
default_option provider name = record {
  key = model_option_key provider default_model_key;
  model_id = none;
  label = prefixed name " default model";
  description = prefixed "Provider default · via " name;
  provider_id = provider;
  ready = true;
}

abbrev pub popular_option : Route → PopularModel → ModelOption
popular_option r m = record {
  key = model_option_key r.id m.id;
  model_id = some m.id;
  label = m.label;
  description = prefixed m.id (prefixed " · via " r.name);
  provider_id = r.id;
  ready = true;
}

abbrev pub custom_option : Route → String → ModelOption
custom_option r model = record {
  key = model_option_key r.id model;
  model_id = some model;
  label = model;
  description = prefixed "Custom model · via " r.name;
  provider_id = r.id;
  ready = true;
}

abbrev pub is_popular : Route → String → Bool
is_popular r model = any (λ (m : PopularModel). m.id == model) r.popular

-- the options of a built-in provider that is ready
unfoldable pub route_options : Route → AuthView → List ModelOption
route_options r s =
    (if s.custom_model_enabled then [] else default_option r.id r.name ∷ [])
    ++ map (popular_option r) r.popular
    ++ (if s.custom_model_enabled
          && not (is_empty s.selected_model)
          && not (is_popular r s.selected_model)
        then custom_option r s.selected_model ∷ []
        else [])

abbrev named_option : ProviderProfile → String → ModelOption
named_option p model = record {
  key = model_option_key p.id model;
  model_id = some model;
  label = model;
  description = prefixed "via " p.name;
  provider_id = p.id;
  ready = true;
}

abbrev pub profile_option : ProviderProfile → Option String → ModelOption
profile_option p none = default_option p.id p.name
profile_option p (some model) =
    if is_empty model then default_option p.id p.name else named_option p model

-- the options of the custom profiles that are ready; reading a model that is no text throws
unfoldable pub profile_options :
    (String → Bool) → List ProviderProfile → Result ProviderError (List ModelOption)
profile_options ready [] = ok []
profile_options ready (p ∷ ps) =
    let rest = profile_options ready ps in
    if is_preset_id p.id || not (ready p.id)
    then rest
    else do model ← trimmed p.model_id; options ← rest; ok (profile_option p model ∷ options)

abbrev pub has_key : String → ModelOption → Bool
has_key key o = o.key == key

-- the filter by `seenKeys`, with the keys that were seen
unfoldable pub unseen_options : List String → List ModelOption → List ModelOption
unseen_options seen [] = []
unseen_options seen (o ∷ os) =
    let rest = unseen_options (o.key ∷ seen) os in
    if any (λ k. k == o.key) seen then unseen_options seen os else o ∷ rest

unfoldable pub model_options :
    (String → Bool) → PickerState → Result ProviderError (List ModelOption)
unfolding route_options profile_options unseen_options
model_options ready s = do
  custom ← profile_options ready s.providers.profiles
  ok (
      unseen_options [] (
        (if ready openrouter_profile_id then route_options openrouter_route s.openrouter else [])
        ++ (if ready opencode_zen_profile_id
            then route_options opencode_zen_route s.opencode_zen
            else [])
        ++ custom))

abbrev pub key_or : String → Option ModelOption → String
key_or d none = d
key_or d (some o) = o.key

abbrev pub option_of : String → List ModelOption → Option ModelOption
option_of key os = find (λ o. has_key key o && o.ready) os

abbrev or_fallback : String → String → String
or_fallback model fallback = if is_empty model then fallback else model

-- the key of a built-in provider that is active and ready
unfoldable pub route_key : Route → AuthView → List ModelOption → String
route_key r s os =
    if s.custom_model_enabled
    then key_or (key_or "" (find (λ (o : ModelOption). o.provider_id == r.id) os))
        (option_of (model_option_key r.id (or_fallback s.selected_model r.fallback)) os)
    else model_option_key r.id default_model_key

abbrev pub or_default_key : Option String → String
or_default_key none = default_model_key
or_default_key (some model) = if is_empty model then default_model_key else model

abbrev profile_key : Option ProviderProfile → List ModelOption → Result ProviderError String
profile_key none os = ok ""
profile_key (some p) os = do
  model ← trimmed p.model_id
  ok (key_or "" (option_of (model_option_key p.id (or_default_key model)) os))

-- `activeModelKey`
unfoldable pub active_model_key :
    (String → Bool) → PickerState → List ModelOption → Result ProviderError String
unfolding route_key
active_model_key ready s os = elim s.providers.active_provider_id [
  | none ↦ ok ""
  | some id ↦
      if not (ready id)
      then ok ""
      else if id == openrouter_profile_id
      then ok (route_key openrouter_route s.openrouter os)
      else if id == opencode_zen_profile_id
      then ok (route_key opencode_zen_route s.opencode_zen os)
      else profile_key (find (λ (p : ProviderProfile). p.id == id) s.providers.profiles) os
]

-- the calls of `setSelectedModel`, if there is a model, and `setCustomModelEnabled`
unfoldable pub selected : Vendor → Option String → Tab × AuthView → Tab × AuthView
selected vendor none a = act (rereads vendor) (config_of vendor) (enable_custom false) a
selected vendor (some model) a =
    let c = config_of vendor in
    let r = rereads vendor in
    if is_empty model
    then act r c (enable_custom false) a
    else act r c (enable_custom true) (act r c (choose_model model) a)

abbrev pub selected_if : Bool → Vendor → Option String → Tab × AuthView → Tab × AuthView
selected_if b vendor model a = if b then selected vendor model a else a

-- `handleModelChange` with an option that is ready. The listener of `useProviders` is called by the
-- built-in providers' modules too; what it reads last is what it then shows.
unfoldable pub pick : ModelOption → Tab × PickerState → Tab × PickerState
unfolding selected
pick o (t, s) =
    let (t1, v) = edit_providers (choose (some o.provider_id)) (t, s.providers) in
    let (t2, a) =
      selected_if (o.provider_id == openrouter_profile_id) openrouter o.model_id
        (t1, s.openrouter) in
    let (t3, b) =
      selected_if (o.provider_id == opencode_zen_profile_id) opencode_zen o.model_id
        (t2, s.opencode_zen) in
    let (t4, v') = after_edit t1 t3 v in
    (t4, record { providers = v'; openrouter = a; opencode_zen = b })

-- `handleModelChange`
unfoldable pub handle_model_change :
    String → List ModelOption → Tab × PickerState → Tab × PickerState
unfolding pick
handle_model_change key os s = elim (find (has_key key) os) [
  | none ↦ s
  | some o ↦ if o.ready then pick o s else s
]

abbrev name_of : Option ProviderProfile → String
name_of none = "Provider"
name_of (some p) = p.name

-- what the trigger says
unfoldable pub active_model_label : Bool → String → List ModelOption → PickerState → String
active_model_label fixtures key os s =
    if fixtures then "Fixture mode" else elim (find (has_key key) os) [
      | some o ↦ o.label
      | none ↦ elim s.providers.active_provider_id [
        | none ↦ "Choose a provider"
        | some id ↦
            if is_empty id
            then "Choose a provider"
            else prefixed
                (name_of (find (λ (p : ProviderProfile). p.id == id) s.providers.profiles))
                " needs setup"
      ]
    ]
