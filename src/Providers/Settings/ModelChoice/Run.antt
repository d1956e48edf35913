-- ===== src/Providers/Settings/ModelChoice/Run.antt =====
-- What a run names where the active profile is one of the two built-in ones.
use fleet_agent.Base.{
  String, ◌≡◌, refl, ◌∙◌, ap, true, false, some, [], ◌∷◌, trim, is_empty, ok, nonempty_of_trim,
  find, arith,
}
use fleet_agent.Json.{str}
use fleet_agent.Browser.{Tab, set_item, notify}
use fleet_agent.Providers.Auth.{
  Config, get_api_key, get_selected_model, is_custom_model_enabled, set_selected_model,
  set_custom_model_enabled,
}
use fleet_agent.Providers.Profiles.{
  ProviderProfile, ProviderStore, openrouter_profile_id, opencode_zen_profile_id,
  openrouter_base_url, opencode_zen_base_url,
}
use fleet_agent.Providers.Profiles.Codec.{response_name, messages_name}
use fleet_agent.Providers.Store.{load_provider_store, with_presets, is_named}
use fleet_agent.Providers.Store.Loading.{load-keeps, load_same}
use fleet_agent.Providers.Readiness.{
  Headers, readiness_of, is_ready, key_of, trimmed, headers_of, preset_headers,
  get_agent_provider_headers,
}
use fleet_agent.Providers.Readiness.Active.{active_profile, answer, get_agent_provider_headers_lem}
use fleet_agent.Providers.Settings.Keys.{Vendor, openrouter, opencode_zen, config_of}

-- The id and the endpoint of the built-in profile.
abbrev pub vendor_profile_id : Vendor → String
vendor_profile_id openrouter = openrouter_profile_id
vendor_profile_id opencode_zen = opencode_zen_profile_id

abbrev pub vendor_base_url : Vendor → String
vendor_base_url openrouter = openrouter_base_url
vendor_base_url opencode_zen = opencode_zen_base_url

-- The headers of a run that names a model.
abbrev pub model_headers : Vendor → ProviderProfile → String → String → Headers
model_headers vendor p key id =
    ("X-LLM-Key", key)
    ∷ ("X-LLM-Base-Url", vendor_base_url vendor)
    ∷ ("X-LLM-Response-Format", response_name p.response_format)
    ∷ ("X-LLM-Messages-Format", messages_name p.messages_format)
    ∷ ("X-LLM-Model", id)
    ∷ []

-- What the settings of a vendor say.
pub record HasModel (c : Config) (key id : String) (t : Tab) : Type 0 where
  pub at_key : get_api_key c t ≡ some key
  pub enabled : is_custom_model_enabled c t ≡ true
  pub selected : get_selected_model c t ≡ id

HasModel-load :
    (c : Config) (key id : String) (t : Tab)
    → HasModel c key id t
    → HasModel c key id (load_provider_store t).0
unfolding get_api_key is_custom_model_enabled get_selected_model
HasModel-load c key id t h =
    let k = load-keeps t in
    record {
      at_key = rw (k.0, k.1) h.at_key;
      enabled = rw (k.0, k.1) h.enabled;
      selected = rw (k.0, k.1) h.selected;
    }

key_of-vendor :
    (vendor : Vendor) (p : ProviderProfile) (key : String) (t : Tab)
    → get_api_key (config_of vendor) t ≡ some key
    → p.id ≡ vendor_profile_id vendor
    → key_of p t ≡ some (str key)
unfolding key_of
key_of-vendor openrouter p key t h e = simp (e, h)
key_of-vendor opencode_zen p key t h e = simp (e, h)

ready_with :
    (p : ProviderProfile) (key base : String) (t : Tab)
    → key_of p t ≡ some (str key)
    → is_empty (trim key) ≡ false
    → p.base_url ≡ some (str base)
    → is_empty (trim base) ≡ false
    → readiness_of (some p) t ≡ ok is_ready
unfolding readiness_of trimmed
ready_with p key base t at hk hb he = simp (at, hk, hb, he)

preset_headers-named :
    (vendor : Vendor) (p : ProviderProfile) (key id message : String) (t : Tab)
    → HasModel (config_of vendor) key id t
    → is_empty key ≡ false
    → trim id ≡ id
    → is_empty id ≡ false
    → preset_headers (config_of vendor) (vendor_base_url vendor) p message t
      ≡ ok (model_headers vendor p key id)
unfolding preset_headers
preset_headers-named vendor p key id message t h hk ht hi =
    rw (h.at_key, preset_headers) (rw (hk, h.enabled, h.selected, ht) (rw hi refl))

headers_of-vendor :
    (vendor : Vendor) (p : ProviderProfile) (message : String) (t : Tab)
    → p.id ≡ vendor_profile_id vendor
    → headers_of (some p) message t
      ≡ preset_headers (config_of vendor) (vendor_base_url vendor) p message t
unfolding headers_of
headers_of-vendor openrouter p message t e = simp e
headers_of-vendor opencode_zen p message t e = simp e

ready_answer :
    (vendor : Vendor) (p : ProviderProfile) (key base id : String) (t : Tab)
    → HasModel (config_of vendor) key id t
    → is_empty (trim key) ≡ false
    → trim id ≡ id
    → is_empty id ≡ false
    → p.id ≡ vendor_profile_id vendor
    → p.base_url ≡ some (str base)
    → is_empty (trim base) ≡ false
    → answer (readiness_of (some p) t) (some p) t ≡ ok (model_headers vendor p key id)
unfolding answer
ready_answer vendor p key base id t h hk ht hi hp hb he =
    rw (ready_with p key base t (key_of-vendor vendor p key t h.at_key hp) hk hb he) (
      headers_of-vendor vendor p "" t hp
      ∙ preset_headers-named vendor p key id "" t h (nonempty_of_trim key hk) ht hi)

-- A run in a tab whose active profile is that of the vendor, with an endpoint.
pub run_names :
    (vendor : Vendor) (p : ProviderProfile) (key base id : String) (t : Tab)
    → HasModel (config_of vendor) key id t
    → is_empty (trim key) ≡ false
    → trim id ≡ id
    → is_empty id ≡ false
    → active_profile t ≡ some p
    → p.id ≡ vendor_profile_id vendor
    → p.base_url ≡ some (str base)
    → is_empty (trim base) ≡ false
    → (get_agent_provider_headers t).1 ≡ ok (model_headers vendor p key id)
run_names vendor p key base id t h hk ht hi found hp hb he = rw (get_agent_provider_headers_lem t) (
    rw found (
      ready_answer vendor p key base id (load_provider_store t).0
        (HasModel-load (config_of vendor) key id t h) hk ht hi hp hb he))

stored-document :
    (c : Config) (id : String) (t : Tab)
    → ((set_selected_model c id t).document ≡ t.document)
      × ((set_selected_model c id t).window ≡ t.window)
      × ((set_selected_model c id t).local.readable ≡ t.local.readable)
unfolding set_selected_model set_item notify
stored-document c id t = ground arith

enabled-document :
    (c : Config) (t : Tab)
    → ((set_custom_model_enabled c true t).document ≡ t.document)
      × ((set_custom_model_enabled c true t).window ≡ t.window)
      × ((set_custom_model_enabled c true t).local.readable ≡ t.local.readable)
unfolding set_custom_model_enabled set_item notify
enabled-document c t = ground arith

-- A choice of a model leaves the active profile.
pub active_profile-choice :
    (c : Config) (id : String) (t : Tab)
    → active_profile (set_selected_model c id (set_custom_model_enabled c true t))
      ≡ active_profile t
active_profile-choice c id t =
    let e = enabled-document c t in
    let s = stored-document c id (set_custom_model_enabled c true t) in
    ap
      (λ (store : ProviderStore).
        find (is_named store.active_provider_id) (with_presets store.profiles))
      (load_same (set_selected_model c id (set_custom_model_enabled c true t)) t (s.1 ∙ e.1)
        (s.2 ∙ e.2) (s.0 ∙ e.0))
