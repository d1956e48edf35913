-- ===== src/Providers/Tests.antt =====
-- Runs on a small tab, of the store and of the readiness.
use fleet_agent.Base.{
  String, ◌≡◌, ◌≢◌, subst, refl, true, false, none, some, [], ◌∷◌, ◌==◌, trim, is_empty, ok, err,
  if◌then◌else◌,
}
use fleet_agent.Json.{Json, str, num}
use fleet_agent.Browser.{Tab, TextStore, parsed}
use fleet_agent.Providers.Auth.Laws.{IsSplit, CanStore}
use fleet_agent.Providers.OpenRouter.{config}
use fleet_agent.Providers.Profiles.{
  ProviderProfile, ProviderStore, native_function_calling, system_role, openrouter_profile,
  openrouter_profile_id,
}
use fleet_agent.Providers.Profiles.Codec.{response_name, messages_name, read_store, write_store}
use fleet_agent.Providers.Store.{
  has_profile, get_profiles, get_active_provider_id, load_document, load_valid, load_provider_store,
  save_provider_store, get_active_profile, is_named, with_presets, set_active_provider_id,
  upsert_profile, remove_profile, deselect, is_valid_id,
}
use fleet_agent.Providers.Store.Loading.{IsNormal, load-valid_selection, load_idem}
use fleet_agent.Providers.Store.Lookup.{by_id, canonical}
use fleet_agent.Providers.Store.Editing.{CanWrite, load-upsert_profile, load-remove_profile}
use fleet_agent.Providers.Readiness.{
  key_of, readiness_of, headers_of, Headers, type_error, get_provider_readiness,
  get_agent_provider_headers,
}
use fleet_agent.Providers.Readiness.Active.{
  answer, get_agent_provider_headers_lem, active_profile, IsTyped,
}
use fleet_agent.Providers.Readiness.Credentials.{Owns, headers-Owns}
use fleet_agent.Providers.Readiness.Agreement.{Agree, headers-Agree, readiness_throws}

-- Storage that holds nothing and takes every write, and storage that takes none.
abbrev pub storage : TextStore
storage = record { items = []; readable = true; accepts = λ _ _. true }

abbrev full_storage : TextStore
full_storage = record { items = []; readable = true; accepts = λ _ _. false }

abbrev pub tab : Tab
tab = record {
  window = true;
  local = storage;
  document = none;
  accepts_document = λ _. true;
  session = storage;
  listeners = ("openrouter_api_key", 1) ∷ ("opencode_zen_api_key", 2) ∷ [];
  calls = [];
}

abbrev full_tab : Tab
full_tab = record tab { local = full_storage }

abbrev profile_with : Json → ProviderProfile
profile_with base_url = record {
  id = "mine";
  name = "Mine";
  base_url = some base_url;
  api_key = some (str " sk-1 ");
  model_id = none;
  chat_completion_format = "openai-chat-completions";
  response_format = native_function_calling;
  messages_format = system_role;
}

abbrev pub mine : ProviderProfile
mine = profile_with (str "https://api.example.com ")

abbrev store_of : ProviderProfile → ProviderStore
store_of p = record { profiles = p ∷ []; active_provider_id = some "mine" }

-- A tab in which one custom profile is stored and selected.
abbrev pub tab_of : ProviderProfile → Tab
tab_of p = record tab { document = some (parsed (write_store (store_of p))) }

config-IsSplit : IsSplit config
config-IsSplit = record { key-model = refl; key-enabled = refl; model-enabled = refl }

tab-CanStore : (k v : String) → CanStore tab k v
tab-CanStore k v = record { window = refl; readable = refl; accepted = refl }

tab-CanWrite : CanWrite tab
tab-CanWrite = record { window = refl; readable = refl; accepted = λ _. refl }

load_idem_example : load_provider_store (load_provider_store tab).0 ≡ load_provider_store tab
load_idem_example = load_idem tab

-- The stored profile is loaded with its selection, whatever its base URL is.
pub loaded :
    (v : Json)
    → load_provider_store (tab_of (profile_with v))
      ≡ (tab_of (profile_with v), store_of (profile_with v))
unfolding load_provider_store load_document load_valid read_store write_store
loaded v = refl

pub active_loaded : (v : Json) → active_profile (tab_of (profile_with v)) ≡ some (profile_with v)
unfolding with_presets has_profile
active_loaded v = rw (loaded v) refl

mine-IsNormal : IsNormal (store_of mine)
unfolding fleet_agent.Providers.Store.normal_selection
mine-IsNormal = refl

load-valid_selection_example :
    (is_valid_id "mine" (load_provider_store (tab_of mine)).1.profiles ≡ true)
    × (mine.id ≢ "server")
load-valid_selection_example =
    load-valid_selection (tab_of mine) "mine" (rw (loaded (str "https://api.example.com ")) refl)

load-upsert_profile_example :
    (by_id "mine" (load_provider_store (upsert_profile mine tab)).1.profiles ≡ (
      if mine.id == "mine"
      then some (canonical mine)
      else by_id "mine" (load_provider_store tab).1.profiles))
    × ((load_provider_store (upsert_profile mine tab)).1.active_provider_id
        ≡ (load_provider_store tab).1.active_provider_id)
load-upsert_profile_example = load-upsert_profile mine tab "mine" tab-CanWrite

load-remove_profile_example :
    (by_id "mine" (load_provider_store (remove_profile "mine" (tab_of mine))).1.profiles ≡ (
      if "mine" == "mine"
      then none
      else by_id "mine" (load_provider_store (tab_of mine)).1.profiles))
    × ((load_provider_store (remove_profile "mine" (tab_of mine))).1.active_provider_id
        ≡ deselect "mine" (load_provider_store (tab_of mine)).1.active_provider_id)
load-remove_profile_example =
    load-remove_profile "mine" (tab_of mine) "mine"
      (record { window = refl; readable = refl; accepted = λ _. refl }) refl

-- An override of the preset, with another name and another base URL.
abbrev override : ProviderProfile
override = record mine { id = openrouter_profile_id }

abbrev kept_preset : ProviderProfile
kept_preset = record openrouter_profile { api_key = some (str " sk-1 ") }

override_loaded :
    by_id "openrouter" (load_provider_store (upsert_profile override tab)).1.profiles
    ≡ some kept_preset
unfolding fleet_agent.Providers.Profiles.build_preset_profile
override_loaded = (load-upsert_profile override tab "openrouter" tab-CanWrite).0

abbrev sent : Headers
sent =
    ("X-LLM-Key", trim " sk-1 ")
    ∷ ("X-LLM-Base-Url", trim "https://api.example.com ")
    ∷ ("X-LLM-Response-Format", "native_function_calling")
    ∷ ("X-LLM-Messages-Format", "system_role")
    ∷ []

mine-sent : (get_agent_provider_headers (tab_of mine)).1 ≡ ok sent
unfolding readiness_of answer headers_of key_of trim response_name messages_name
mine-sent =
    rw (get_agent_provider_headers_lem (tab_of mine))
      (rw (active_loaded (str "https://api.example.com ")) refl)

pub mine-IsTyped : (p : ProviderProfile) → active_profile (tab_of mine) ≡ some p → IsTyped p
mine-IsTyped p h =
    let same : mine ≡ p = cc (active_loaded (str "https://api.example.com ")) in
    subst IsTyped same (record { base_url = tt; api_key = tt; model_id = tt })

headers-Owns_example :
    (p : ProviderProfile) × (active_profile (tab_of mine) ≡ some p) × Owns p (tab_of mine) sent
headers-Owns_example = headers-Owns (tab_of mine) sent mine-sent

headers-Agree_example :
    Agree (get_provider_readiness (tab_of mine)).1 (get_agent_provider_headers (tab_of mine)).1
headers-Agree_example = headers-Agree (tab_of mine) mine-IsTyped

key_found :
    key_of (profile_with (num 5)) (load_provider_store (tab_of (profile_with (num 5)))).0
    ≡ some (str " sk-1 ")
unfolding key_of
key_found = refl

key_visible : is_empty (trim " sk-1 ") ≡ false
unfolding trim
key_visible = refl

readiness_throws_example :
    ((get_provider_readiness (tab_of (profile_with (num 5)))).1 ≡ err type_error)
    × ((get_agent_provider_headers (tab_of (profile_with (num 5)))).1 ≡ err type_error)
readiness_throws_example =
    readiness_throws (tab_of (profile_with (num 5))) (profile_with (num 5)) (num 5) " sk-1 "
      (active_loaded (num 5)) key_found key_visible refl (λ h. h)
