-- ===== src/Providers/Settings/Tests.antt =====
-- Runs of the settings dialog in a small tab.
use fleet_agent.Base.{
  String, ◌≡◌, refl, true, false, none, some, List, [], ◌∷◌, trim, is_space, is_empty, ok,
}
use fleet_agent.Json.{str}
use fleet_agent.Providers.Readiness.Active.{active_profile}
use fleet_agent.Providers.Settings.ModelChoice.Run.{model_headers}
use fleet_agent.Browser.{parsed, Tab, lookup, get_item}
use fleet_agent.Threads.Units.{utf16}
use fleet_agent.Providers.Tests.{tab, tab_of, mine}
use fleet_agent.Providers.Auth.{get_api_key}
use fleet_agent.Providers.OpenRouter
use fleet_agent.Providers.OpenRouter.Masking.{mask_api_key}
use fleet_agent.Providers.Profiles.{
  native_function_calling, system_role, openrouter_profile, openrouter_profile_id,
  openrouter_base_url,
}
use fleet_agent.Providers.Profiles.Codec.{read_store, write_store}
use fleet_agent.Providers.Store.Editing.{CanWrite}
use fleet_agent.Providers.Models.{ProviderModel}
use fleet_agent.Providers.Hooks.{AuthView}
use fleet_agent.Providers.Readiness.{trimmed!, get_agent_provider_headers}
use fleet_agent.Providers.Registry.{ProvidersView, edit_providers, save}
use fleet_agent.Providers.Registry.Laws.{view_of}
use fleet_agent.Providers.Store.{
  load_provider_store, load_document, load_valid, with_presets, has_profile,
}
use fleet_agent.Providers.Settings.Form.{
  FormState, ProviderFormData, Entered, closed_form, start_edit_provider, submit_provider,
  entered_texts, entry_error, is_http_url, profile_of, new_profile_id, random_values, hex_bytes,
}
use fleet_agent.Providers.Settings.Form.Laws.{profile_headers, submit_provider-Sends}
use fleet_agent.Providers.Settings.Form.Editing.{submit_provider-start_edit_provider}
use fleet_agent.Providers.Settings.Keys.{
  openrouter, KeyForm, closed_key_form, key_refusal, submit_key, key_section, connected,
}
use fleet_agent.Providers.Settings.Keys.Laws.{submit_key-connects}
use fleet_agent.Providers.Settings.ModelChoice.{filtered_models, select_model, model_section}
use fleet_agent.Providers.Settings.ModelChoice.Laws.{IsInitial, filtered_models-IsInitial}
use fleet_agent.Providers.Settings.ModelChoice.Routing.{select_model-routes}

abbrev view : ProvidersView
view = record { profiles = []; active_provider_id = none }

abbrev typed : ProviderFormData
typed = record {
  name = " Gateway ";
  api_key = str " sk-1";
  model_id = str "";
  base_url = str "HTTPS://gateway.example ";
  response_format = native_function_calling;
  messages_format = system_role;
}

abbrev filled : FormState
filled = record closed_form { show_provider_form = true; provider_form = typed }

abbrev entered : Entered
entered = record {
  name = "Gateway";
  api_key = "sk-1";
  model_id = "";
  base_url = "HTTPS://gateway.example";
}

typed-entered : entered_texts typed ≡ ok entered
unfolding entered_texts trimmed! trim is_space
typed-entered = refl

entered-accepted : entry_error entered ≡ none
unfolding entry_error is_http_url
entered-accepted = refl

urls_test :
    (is_http_url "http://a" ≡ true)
    × (is_http_url "https://" ≡ false)
    × (is_http_url "ftp://a" ≡ false)
    × (is_http_url "httpss://a" ≡ false)
unfolding is_http_url
urls_test = (refl, refl, refl, refl)

id_test : new_profile_id (random_values (0 ∷ 255 ∷ 16 ∷ [])) ≡ "00ff10"
unfolding new_profile_id hex_bytes fleet_agent.Base.hex fleet_agent.Base.hex_from
    fleet_agent.Base.pad_zeros
id_test = refl

tab-CanWrite : CanWrite tab
tab-CanWrite = record { window = refl; readable = refl; accepted = λ _. refl }

submit_provider-Sends_example :
    (get_agent_provider_headers (submit_provider "1" ((tab, view), filled)).0.0).1
    ≡ ok (profile_headers entered typed)
submit_provider-Sends_example =
    submit_provider-Sends "1" tab view filled entered tab-CanWrite refl typed-entered
      entered-accepted

submit_provider-start_edit_provider_example :
    submit_provider "2" ((tab, view), start_edit_provider (profile_of "p" entered typed) filled)
    ≡ (edit_providers (save (profile_of "p" entered typed)) (tab, view), closed_form)
submit_provider-start_edit_provider_example =
    submit_provider-start_edit_provider "2" "p" (tab, view) filled typed entered typed-entered
      entered-accepted

abbrev auth_view : AuthView
auth_view = record {
  api_key = none;
  selected_model = "";
  custom_model_enabled = false;
  is_loading = false;
  error = some "failed";
}

abbrev key_form : KeyForm
key_form = record { key_input = " sk-or-1 "; show_key_form = true; key_error = none }

key-accepted : key_refusal openrouter (trim " sk-or-1 ") ≡ none
unfolding key_refusal trim is_space
key-accepted = refl

submit_key-connects_example :
    (get_api_key OpenRouter.config (submit_key openrouter ((tab, auth_view), key_form)).0.0
      ≡ some (trim " sk-or-1 "))
    × (key_section openrouter
          (submit_key openrouter ((tab, auth_view), key_form)).0.1
          (submit_key openrouter ((tab, auth_view), key_form)).1
        ≡ record {
          badge = "Connected";
          error = none;
          body = connected (mask_api_key (some (utf16 (trim " sk-or-1 "))));
        })
    × ((submit_key openrouter ((tab, auth_view), key_form)).1 ≡ closed_key_form)
submit_key-connects_example =
    submit_key-connects openrouter tab auth_view key_form key-accepted
      (record { window = refl; readable = refl; accepted = refl })

abbrev keyed : Tab
keyed = record tab { local = record tab.local { items = ("openrouter_api_key", "sk-or-1") ∷ [] } }

-- OpenRouter is selected in it.
abbrev keyed_selected : Tab
keyed_selected = record keyed {
  document = some (
      parsed
        (write_store (record { profiles = []; active_provider_id = some openrouter_profile_id })));
}

key-trimmed : is_empty (trim "sk-or-1") ≡ false
unfolding trim is_space
key-trimmed = refl

url-trimmed : is_empty (trim openrouter_base_url) ≡ false
unfolding trim is_space
url-trimmed = refl

keyed_key : get_api_key OpenRouter.config keyed_selected ≡ some "sk-or-1"
unfolding get_api_key get_item lookup
keyed_key = refl

model-trimmed : trim "openai/gpt" ≡ "openai/gpt"
unfolding trim is_space
model-trimmed = refl

keyed_active : active_profile keyed_selected ≡ some openrouter_profile
unfolding load_provider_store load_document load_valid read_store write_store with_presets
    has_profile
keyed_active = refl

select_model-routes_example :
    ((model_section openrouter
        (select_model openrouter "openai/gpt" ((keyed_selected, auth_view), ""))).routed
      ≡ "openai/gpt")
    × ((get_agent_provider_headers
          (select_model openrouter "openai/gpt" ((keyed_selected, auth_view), "")).0.0).1
        ≡ ok (model_headers openrouter openrouter_profile "sk-or-1" "openai/gpt"))
select_model-routes_example =
    select_model-routes openrouter "openai/gpt" "" "sk-or-1" openrouter_base_url openrouter_profile
      keyed_selected auth_view (record { window = refl; readable = refl; accepted = λ _ _. refl })
      model-trimmed refl keyed_key key-trimmed keyed_active refl refl url-trimmed

abbrev model : String → ProviderModel
model id = record { id = id; name = id; description = none; context_length = none }

filtered_models-IsInitial_example :
    IsInitial "b"
      (model "a" ∷ model "b" ∷ [])
      (filtered_models (λ s. s) (some (model "a" ∷ model "b" ∷ [])) "" "b")
filtered_models-IsInitial_example =
    filtered_models-IsInitial (λ s. s) (model "a" ∷ model "b" ∷ []) "" "b" (unfold trim in refl)
      refl

abbrev stored_view : ProvidersView
stored_view = view_of (load_provider_store (tab_of mine)).1
