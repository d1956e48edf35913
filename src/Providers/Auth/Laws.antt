-- ===== src/Providers/Auth/Laws.antt =====
-- What a setter of local-storage-auth.ts leaves for the getters and for the listeners.
use fleet_agent.Base.{
  String, ◌≡◌, Bool, true, false, none, some, ◌++◌, trim, is_empty, ◌==◌, eq_iff, eq_refl, arith,
  if◌then◌else◌,
}
use fleet_agent.Browser.{Tab, get_item, set_item, remove_item, notify, called, lookup}
use fleet_agent.Browser.Laws.{lookup-remove}
use fleet_agent.Providers.Auth.{
  Config, get_api_key, set_api_key, clear_api_key, get_selected_model, set_selected_model,
  is_custom_model_enabled, set_custom_model_enabled,
}

-- The three keys of a configuration differ.
pub record IsSplit (c : Config) : Type 0 where
  pub key-model : (c.storage_key == c.model_storage_key) ≡ false
  pub key-enabled : (c.storage_key == c.custom_model_enabled_key) ≡ false
  pub model-enabled : (c.model_storage_key == c.custom_model_enabled_key) ≡ false

-- A tab in which reads work and the write of this value does too.
pub record CanStore (t : Tab) (k v : String) : Type 0 where
  pub window : t.window ≡ true
  pub readable : t.local.readable ≡ true
  pub accepted : t.local.accepts k v ≡ true

-- After a key was set, the getters see it without its margin, and the model and its flag as before;
-- every listener of the module has been called once.
pub set_api_key_lem :
    (c : Config) (key : String) (t : Tab)
    → IsSplit c
    → CanStore t c.storage_key (trim key)
    → (get_api_key c (set_api_key c key t) ≡ some (trim key))
      × (get_selected_model c (set_api_key c key t) ≡ get_selected_model c t)
      × (is_custom_model_enabled c (set_api_key c key t) ≡ is_custom_model_enabled c t)
      × ((set_api_key c key t).calls ≡ t.calls ++ called c.storage_key t.listeners)
unfolding get_api_key set_api_key get_selected_model is_custom_model_enabled set_item get_item
    notify lookup
set_api_key_lem c key t s h = (
  ground (arith, eq_refl c.storage_key),
  ground (arith, lookup-remove c.storage_key c.model_storage_key t.local.items, s.key-model),
  ground
      (arith, lookup-remove c.storage_key c.custom_model_enabled_key t.local.items, s.key-enabled),
  ground arith,
)

-- After a model was set, the getters see it without its margin, or the default model if nothing is
-- left, and the key and the flag as before; every listener of the module has been called once.
pub set_selected_model_lem :
    (c : Config) (model : String) (t : Tab)
    → IsSplit c
    → CanStore t c.model_storage_key (trim model)
    → (get_selected_model c (set_selected_model c model t)
        ≡ (if is_empty (trim model) then c.default_model else trim model))
      × (get_api_key c (set_selected_model c model t) ≡ get_api_key c t)
      × (is_custom_model_enabled c (set_selected_model c model t) ≡ is_custom_model_enabled c t)
      × ((set_selected_model c model t).calls ≡ t.calls ++ called c.storage_key t.listeners)
unfolding get_api_key set_selected_model get_selected_model is_custom_model_enabled set_item
    get_item notify lookup
set_selected_model_lem c model t s h = (
  ground (arith, eq_refl c.model_storage_key),
  ground (
    arith,
    lookup-remove c.model_storage_key c.storage_key t.local.items,
    s.key-model,
    eq_iff c.storage_key c.model_storage_key,
    eq_iff c.model_storage_key c.storage_key,
  ),
  ground (
    arith,
    lookup-remove c.model_storage_key c.custom_model_enabled_key t.local.items,
    s.model-enabled,
  ),
  ground arith,
)

is_custom_model_enabled-set :
    (c : Config) (enabled : Bool) (t : Tab)
    → CanStore t c.custom_model_enabled_key (if enabled then "true" else "false")
    → is_custom_model_enabled c (set_custom_model_enabled c enabled t) ≡ enabled
unfolding set_custom_model_enabled is_custom_model_enabled set_item get_item notify lookup
is_custom_model_enabled-set c true t h = ground (arith, eq_refl c.custom_model_enabled_key)
is_custom_model_enabled-set c false t h = ground (arith, eq_refl c.custom_model_enabled_key)

-- After the flag was set, the getter sees it, and the key and the model as before.
pub set_custom_model_enabled_lem :
    (c : Config) (enabled : Bool) (t : Tab)
    → IsSplit c
    → CanStore t c.custom_model_enabled_key (if enabled then "true" else "false")
    → (is_custom_model_enabled c (set_custom_model_enabled c enabled t) ≡ enabled)
      × (get_api_key c (set_custom_model_enabled c enabled t) ≡ get_api_key c t)
      × (get_selected_model c (set_custom_model_enabled c enabled t) ≡ get_selected_model c t)
unfolding get_api_key set_custom_model_enabled get_selected_model is_custom_model_enabled set_item
    get_item notify lookup
set_custom_model_enabled_lem c enabled t s h = (
  is_custom_model_enabled-set c enabled t h,
  ground (
    arith,
    lookup-remove c.custom_model_enabled_key c.storage_key t.local.items,
    s.key-enabled,
    eq_iff c.storage_key c.custom_model_enabled_key,
    eq_iff c.custom_model_enabled_key c.storage_key,
  ),
  ground (
    arith,
    lookup-remove c.custom_model_enabled_key c.model_storage_key t.local.items,
    s.model-enabled,
    eq_iff c.model_storage_key c.custom_model_enabled_key,
    eq_iff c.custom_model_enabled_key c.model_storage_key,
  ),
)

-- A key that was cleared is gone, whatever was set before; the model and its flag stay.
pub clear_api_key_lem :
    (c : Config) (t : Tab)
    → IsSplit c
    → t.local.readable ≡ true
    → (get_api_key c (clear_api_key c t) ≡ none)
      × (get_selected_model c (clear_api_key c t) ≡ get_selected_model c t)
      × (is_custom_model_enabled c (clear_api_key c t) ≡ is_custom_model_enabled c t)
unfolding get_api_key clear_api_key get_selected_model is_custom_model_enabled remove_item get_item
    notify lookup
clear_api_key_lem c t s h = (
  ground (arith, eq_refl c.storage_key, lookup-remove c.storage_key c.storage_key t.local.items),
  ground (arith, lookup-remove c.storage_key c.model_storage_key t.local.items, s.key-model),
  ground
      (arith, lookup-remove c.storage_key c.custom_model_enabled_key t.local.items, s.key-enabled),
)

-- A browser that takes no write makes every setter do nothing: no item changes, no listener runs.
setters_when_full :
    (c : Config) (t : Tab) (key model : String) (enabled : Bool)
    → ((k v : String) → t.local.accepts k v ≡ false)
    → (set_api_key c key t ≡ t)
      × (set_selected_model c model t ≡ t)
      × (set_custom_model_enabled c enabled t ≡ t)
unfolding set_api_key set_selected_model set_custom_model_enabled set_item
setters_when_full c t key model enabled full = (
  ground (arith, full c.storage_key (trim key)),
  ground (arith, full c.model_storage_key (trim model)),
  ground (arith, full c.custom_model_enabled_key "true", full c.custom_model_enabled_key "false"),
)
