-- ===== src/Providers/Hooks/Tests.antt =====
-- Runs of the hooks in a small tab.
use fleet_agent.Base.{◌≡◌, refl, true, false, none, [], ◌∷◌, trim, is_space}
use fleet_agent.Browser.{TextStore, Tab, lookup, get_item, set_item}
use fleet_agent.Providers.Auth.{get_api_key, set_api_key}
use fleet_agent.Providers.Auth.Laws.{IsSplit}
use fleet_agent.Providers.OpenRouter.{config}
use fleet_agent.Providers.Hooks.{AuthView, mount_auth, after_call, enter_key, act, is_authenticated}
use fleet_agent.Providers.Hooks.Laws.{Agrees, act-Agrees}

abbrev storage : TextStore
storage = record { items = []; readable = true; accepts = λ _ _. true }

abbrev tab : Tab
tab = record {
  window = true;
  local = storage;
  document = none;
  accepts_document = λ _. true;
  session = storage;
  listeners = ("openrouter_api_key", 1) ∷ [];
  calls = [];
}

abbrev full_tab : Tab
full_tab = record tab { local = record storage { accepts = λ _ _. false } }

abbrev split : IsSplit config
split = record { key-model = refl; key-enabled = refl; model-enabled = refl }

mounted-Agrees : Agrees config tab (mount_auth config tab)
unfolding mount_auth
mounted-Agrees = record { api_key = refl; selected_model = refl; custom_model_enabled = refl }

abbrev entered : Tab × AuthView
entered = act false config (enter_key "sk-1") (tab, mount_auth config tab)

act-Agrees_example : Agrees config entered.0 entered.1
act-Agrees_example =
    act-Agrees false config (enter_key "sk-1") tab (mount_auth config tab) split
      (record { window = refl; readable = refl; accepted = refl }, unfold trim is_space in refl)
      mounted-Agrees

-- OpenRouter's hook shows a key that a full storage has not taken; OpenCode Zen's shows what is stored.
full_storage_test :
    (is_authenticated (act false config (enter_key "k") (full_tab, mount_auth config full_tab)).1
      ≡ true)
    × (is_authenticated (act true config (enter_key "k") (full_tab, mount_auth config full_tab)).1
        ≡ false)
    × (get_api_key config
          (act false config (enter_key "k") (full_tab, mount_auth config full_tab)).0
        ≡ none)
unfolding act after_call mount_auth set_api_key get_api_key set_item get_item lookup
full_storage_test = (refl, refl, refl)
