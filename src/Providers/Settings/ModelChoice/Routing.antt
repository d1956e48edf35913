-- ===== src/Providers/Settings/ModelChoice/Routing.antt =====
-- That the model which is chosen in the settings is the one that a run names.
use fleet_agent.Base.{String, ◌≡◌, refl, ◌∙◌, true, false, some, trim, is_empty, ok}
use fleet_agent.Browser.{Tab, set_item, notify}
use fleet_agent.Providers.Auth.{
  Config, get_api_key, get_selected_model, is_custom_model_enabled, set_selected_model,
  set_custom_model_enabled,
}
use fleet_agent.Providers.Auth.Laws.{
  IsSplit, CanStore, set_selected_model_lem, set_custom_model_enabled_lem,
}
use fleet_agent.Providers.Hooks.{AuthView, act, sync_state, after_call}
use fleet_agent.Providers.Hooks.Laws.{after_call_lem}
use fleet_agent.Providers.Profiles.{ProviderProfile}
use fleet_agent.Json.{str}
use fleet_agent.Providers.Readiness.{get_agent_provider_headers}
use fleet_agent.Providers.Readiness.Active.{active_profile}
use fleet_agent.Providers.Settings.ModelChoice.Run.{
  vendor_profile_id, model_headers, run_names, active_profile-choice,
}
use fleet_agent.Providers.Settings.Keys.{Vendor, config_of}
use fleet_agent.Providers.Settings.Keys.Laws.{config_of-IsSplit}
use fleet_agent.Providers.Settings.ModelChoice.{select_model, model_section}

-- A tab whose storage takes every write.
pub record CanStoreAll (t : Tab) : Type 0 where
  pub window : t.window ≡ true
  pub readable : t.local.readable ≡ true
  pub accepted : (k v : String) → t.local.accepts k v ≡ true

one-CanStore : (t : Tab) (k v : String) → CanStoreAll t → CanStore t k v
one-CanStore t k v c = record {
  window = c.window;
  readable = c.readable;
  accepted = c.accepted k v;
}

CanStoreAll-enable :
    (c : Config) (t : Tab) → CanStoreAll t → CanStoreAll (set_custom_model_enabled c true t)
unfolding set_custom_model_enabled set_item notify
CanStoreAll-enable c t h =
    rw (h.window, h.accepted)
      (record { window = refl; readable = h.readable; accepted = h.accepted })

-- What the two calls of `onSelectModel` leave in the storage.
stored_choice :
    (c : Config) (id : String) (t : Tab)
    → IsSplit c
    → CanStoreAll t
    → trim id ≡ id
    → is_empty id ≡ false
    → (is_custom_model_enabled c (set_selected_model c id (set_custom_model_enabled c true t))
        ≡ true)
      × (get_selected_model c (set_selected_model c id (set_custom_model_enabled c true t)) ≡ id)
      × (get_api_key c (set_selected_model c id (set_custom_model_enabled c true t))
          ≡ get_api_key c t)
stored_choice c id t split h same full =
    let t1 = set_custom_model_enabled c true t in
    let enabled =
      set_custom_model_enabled_lem c true t split
        (one-CanStore t c.custom_model_enabled_key "true" h) in
    let chosen =
      set_selected_model_lem c id t1 split
        (one-CanStore t1 c.model_storage_key (trim id) (CanStoreAll-enable c t h)) in
    (chosen.2 ∙ enabled.0, chosen.0 ∙ rw (same, full) refl, chosen.1 ∙ enabled.1)

select_model-tab :
    (vendor : Vendor) (id input : String) (t : Tab) (v : AuthView)
    → is_empty id ≡ false
    → (select_model vendor id ((t, v), input)).0.0
      ≡ set_selected_model
          (config_of vendor)
          id
          (set_custom_model_enabled (config_of vendor) true t)
unfolding select_model act
select_model-tab vendor id input t v full = rw full refl

select_model-routed :
    (vendor : Vendor) (id input : String) (t : Tab) (v : AuthView)
    → CanStoreAll t
    → trim id ≡ id
    → is_empty id ≡ false
    → (model_section vendor (select_model vendor id ((t, v), input))).routed ≡ id
unfolding select_model act model_section
select_model-routed vendor id input t v h same full =
    let c = config_of vendor in
    let t1 = set_custom_model_enabled c true t in
    let t2 = set_selected_model c id t1 in
    let v1 = record (after_call c t t1 v) { custom_model_enabled = true } in
    let stored = stored_choice c id t (config_of-IsSplit vendor) h same full in
    let enabled : (after_call c t1 t2 v1).custom_model_enabled ≡ true =
      after_call_lem c t1 t2 v1 (λ (w : AuthView). w.custom_model_enabled) true
        (unfold sync_state in stored.0) refl in
    rw full (rw enabled refl)

-- In a tab whose storage takes every write, where the active profile is the built-in one of the
-- section's vendor, with an endpoint, and the vendor has a key (neither of them only a margin): a
-- model without a margin that is chosen in the list is the one that the section says is routed, and
-- the next run is sent with it, with the key as before and to the vendor's endpoint.
pub select_model-routes :
    (vendor : Vendor) (id input key base : String) (p : ProviderProfile) (t : Tab) (v : AuthView)
    → CanStoreAll t
    → trim id ≡ id
    → is_empty id ≡ false
    → get_api_key (config_of vendor) t ≡ some key
    → is_empty (trim key) ≡ false
    → active_profile t ≡ some p
    → p.id ≡ vendor_profile_id vendor
    → p.base_url ≡ some (str base)
    → is_empty (trim base) ≡ false
    → ((model_section vendor (select_model vendor id ((t, v), input))).routed ≡ id)
      × ((get_agent_provider_headers (select_model vendor id ((t, v), input)).0.0).1
          ≡ ok (model_headers vendor p key id))
select_model-routes vendor id input key base p t v h same full at_key has_key found hp hb he =
    let c = config_of vendor in
    let stored = stored_choice c id t (config_of-IsSplit vendor) h same full in
    (
      select_model-routed vendor id input t v h same full,
      rw (select_model-tab vendor id input t v full) (
          run_names vendor p key base id
            (set_selected_model c id (set_custom_model_enabled c true t))
            (record { at_key = stored.2 ∙ at_key; enabled = stored.0; selected = stored.1 }) has_key
            same full (active_profile-choice c id t ∙ found) hp hb he),
    )
