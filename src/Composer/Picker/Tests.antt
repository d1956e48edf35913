-- ===== src/Composer/Picker/Tests.antt =====
-- Picks of the two built-in providers' models.
use fleet_agent.Base.{
  some, trim, is_space, subst, String, Bool, true, false, ◌≡◌, refl, none, List, [], ok, ◌==◌,
}
use fleet_agent.Providers.Profiles.{openrouter_profile_id}
use mathlib.Core.Option.{some-injective}
use fleet_agent.Browser.{Tab, TextStore, notify, called, set_item, remove}
use fleet_agent.Providers.Auth.{set_selected_model, set_custom_model_enabled}
use fleet_agent.Providers.Store.{
  set_active_provider_id, load_provider_store, load_document, write_document, save_provider_store,
  get_profiles, get_active_provider_id, has_profile, with_presets,
}
use fleet_agent.Providers.Registry.{edit_providers, after_edit, set_states}
use fleet_agent.Providers.Hooks.{after_call}
use fleet_agent.Providers.Profiles.Codec.{read_store, write_store}
use fleet_agent.Providers.Hooks.{AuthView, act}
use fleet_agent.Composer.Picker.{
  selected, PickerState, ModelOption, openrouter_route, custom_option, pick, route_options,
  profile_options, unseen_options, model_options, active_model_key, handle_model_change,
}
use fleet_agent.Composer.Picker.Laws.{active_model_key-pick}

abbrev storage : TextStore
storage = record { items = []; readable = true; accepts = λ _ _. true }

abbrev tab : Tab
tab = record {
  window = true;
  local = storage;
  document = none;
  accepts_document = λ _. true;
  session = storage;
  listeners = [];
  calls = [];
}

abbrev hook : AuthView
hook = record {
  api_key = some "sk-or-1";
  selected_model = "a/b";
  custom_model_enabled = false;
  is_loading = false;
  error = none;
}

abbrev shown : PickerState
shown = record {
  providers = record { profiles = []; active_provider_id = none };
  openrouter = hook;
  opencode_zen = record hook { selected_model = "muse-spark-1.2"; custom_model_enabled = true };
}

-- only OpenRouter is ready
abbrev ready : String → Bool
ready id = id == openrouter_profile_id

abbrev own : ModelOption
own = custom_option openrouter_route "x/y"

-- the option of the model that was picked is made
abbrev options : List ModelOption
options = unseen_options [] (
    route_options openrouter_route
      (record hook { selected_model = "x/y"; custom_model_enabled = true }))

own-trimmed : (m : String) → some "x/y" ≡ some m → trim m ≡ m
own-trimmed m e =
    subst (λ n. trim n ≡ n) (some-injective _ _ e) (unfold trim in unfold is_space in refl)

options-made : model_options ready (pick own (tab, shown)).1 ≡ ok options
unfolding pick selected act after_call edit_providers after_edit set_states get_active_provider_id
    set_active_provider_id load_provider_store load_document write_document save_provider_store
    get_profiles set_selected_model set_custom_model_enabled set_item remove notify called
    has_profile with_presets read_store write_store model_options unseen_options route_options
    profile_options
options-made = refl

active_model_key-pick_example :
    active_model_key ready (pick own (tab, shown)).1 options ≡ ok "openrouter:x/y"
active_model_key-pick_example =
    active_model_key-pick ready own tab shown options
      (record { window = refl; readable = refl; accepted = λ _. refl })
      (record { window = refl; readable = refl; accepted = λ _ _. refl }) own-trimmed refl refl
      options-made

-- a key that is no option changes nothing
stale_example : handle_model_change "openrouter:z" options (tab, shown) ≡ (tab, shown)
unfolding handle_model_change pick unseen_options route_options
stale_example = refl
