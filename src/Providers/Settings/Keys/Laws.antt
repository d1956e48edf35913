-- ===== src/Providers/Settings/Keys/Laws.antt =====
-- That a key which was entered is stored, and shown as connected.
use fleet_agent.Base.{
  String, ◌≡◌, refl, ◌∙◌, ap, false, none, some, trim, trim_idem, is_empty, arith,
}
use fleet_agent.Browser.{Tab}
use fleet_agent.Providers.Auth.{get_api_key}
use fleet_agent.Providers.Auth.Laws.{IsSplit, CanStore, set_api_key_lem}
use fleet_agent.Providers.OpenRouter
use fleet_agent.Providers.OpenRouter.Masking.{mask_api_key}
use fleet_agent.Providers.OpenCodeZen
use fleet_agent.Providers.Hooks.{AuthView, act}
use fleet_agent.Providers.Settings.Keys.{
  Vendor, openrouter, opencode_zen, config_of, KeyForm, closed_key_form, key_refusal, submit_key,
  connected, key_section,
}
use fleet_agent.Threads.Units.{utf16}

pub config_of-IsSplit : (vendor : Vendor) → IsSplit (config_of vendor)
config_of-IsSplit openrouter = record { key-model = refl; key-enabled = refl; model-enabled = refl }
config_of-IsSplit opencode_zen = record {
  key-model = refl;
  key-enabled = refl;
  model-enabled = refl;
}

key_refusal-eq_none :
    (vendor : Vendor) (key : String) → key_refusal vendor key ≡ none → is_empty key ≡ false
unfolding key_refusal
key_refusal-eq_none openrouter key h = ground arith
key_refusal-eq_none opencode_zen key h = ground arith

-- A key that is not refused, entered where the storage takes it, is stored without its margin; the
-- section then says that it is connected and shows the key masked, with no error, and the form is
-- empty and closed.
pub submit_key-connects :
    (vendor : Vendor) (t : Tab) (v : AuthView) (k : KeyForm)
    → key_refusal vendor (trim k.key_input) ≡ none
    → CanStore t (config_of vendor).storage_key (trim k.key_input)
    → (get_api_key (config_of vendor) (submit_key vendor ((t, v), k)).0.0 ≡ some (trim k.key_input))
      × (key_section vendor (submit_key vendor ((t, v), k)).0.1 (submit_key vendor ((t, v), k)).1
          ≡ record {
            badge = "Connected";
            error = none;
            body = connected (mask_api_key (some (utf16 (trim k.key_input))));
          })
      × ((submit_key vendor ((t, v), k)).1 ≡ closed_key_form)
unfolding submit_key act key_section
submit_key-connects openrouter t v k h c =
    let key = trim k.key_input in
    let full = key_refusal-eq_none openrouter key h in
    let stored =
      (set_api_key_lem OpenRouter.config key t (config_of-IsSplit openrouter)
        (rw (trim_idem k.key_input) c)).0 in
    rw (h, submit_key)
      (
        stored ∙ ap (λ (s : String). some s) (trim_idem k.key_input),
        rw (full, key_section) refl,
        refl,
      )
submit_key-connects opencode_zen t v k h c =
    let key = trim k.key_input in
    let full = key_refusal-eq_none opencode_zen key h in
    let stored =
      (set_api_key_lem OpenCodeZen.config key t (config_of-IsSplit opencode_zen)
        (rw (trim_idem k.key_input) c)).0
      ∙ ap (λ (s : String). some s) (trim_idem k.key_input) in
    rw (h, submit_key) (stored, rw (stored, key_section) (rw (full, key_section) refl), refl)
