-- ===== src/Providers/Auth.antt =====
-- local-storage-auth.ts. An instance of `createLocalStorageAuth` is its configuration; the key of
-- the API key names its set of listeners.
pub mod Laws
use fleet_agent.Base.{
  ℕ, String, Bool, true, false, not, Option, none, some, trim, is_empty, ◌==◌, ◌||◌, if◌then◌else◌,
}
use fleet_agent.Browser.{
  TextStore, Tab, get_item, set_item, remove_item, subscribe, unsubscribe, notify,
}

pub record Config : Type 0 where
  pub storage_key : String
  pub model_storage_key : String
  pub custom_model_enabled_key : String
  pub default_model : String

-- the end of each setter: `notify` after a write that did not throw
abbrev pub written : Config → Tab → Option TextStore → Tab
written c t none = t
written c t (some s) = notify c.storage_key (record t { local = s })

-- the value of an item, or `d` where it cannot be had
abbrev pub found : Option (Option String) → Option String
found none = none
found (some v) = v

-- `stored || defaultModel`
abbrev pub or_default : String → Option String → String
or_default d none = d
or_default d (some m) = if is_empty m then d else m

abbrev pub is_true : Option String → Bool
is_true none = false
is_true (some s) = s == "true"

unfoldable pub on_auth_change : Config → ℕ → Tab → Tab
on_auth_change c fn t = subscribe c.storage_key fn t

-- what `onAuthChange` returns
unfoldable pub off_auth_change : Config → ℕ → Tab → Tab
off_auth_change c fn t = unsubscribe c.storage_key fn t

-- the module's handler of `storage` events, which other tabs cause
unfoldable pub on_storage_event : Config → Option String → Tab → Tab
on_storage_event c none t = notify c.storage_key t
on_storage_event c (some key) t =
    if key == c.storage_key || key == c.model_storage_key || key == c.custom_model_enabled_key
    then notify c.storage_key t
    else t

unfoldable pub get_api_key : Config → Tab → Option String
get_api_key c t = if t.window then found (get_item t.local c.storage_key) else none

unfoldable pub set_api_key : Config → String → Tab → Tab
set_api_key c key t =
    if t.window then written c t (set_item t.local c.storage_key (trim key)) else t

unfoldable pub clear_api_key : Config → Tab → Tab
clear_api_key c t = if t.window then written c t (remove_item t.local c.storage_key) else t

unfoldable pub get_selected_model : Config → Tab → String
get_selected_model c t =
    if t.window
    then or_default c.default_model (found (get_item t.local c.model_storage_key))
    else c.default_model

unfoldable pub set_selected_model : Config → String → Tab → Tab
set_selected_model c model t =
    if t.window then written c t (set_item t.local c.model_storage_key (trim model)) else t

unfoldable pub is_custom_model_enabled : Config → Tab → Bool
is_custom_model_enabled c t =
    if t.window then is_true (found (get_item t.local c.custom_model_enabled_key)) else false

unfoldable pub set_custom_model_enabled : Config → Bool → Tab → Tab
set_custom_model_enabled c enabled t =
    if t.window
    then written c t
        (set_item t.local c.custom_model_enabled_key (if enabled then "true" else "false"))
    else t
