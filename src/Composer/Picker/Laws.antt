-- ===== src/Composer/Picker/Laws.antt =====
-- Which option of the picker is the active one.
use fleet_agent.Base.{
  String, Bool, true, false, ◌≡◌, refl, sym, ap, ◌∙◌, Option, none, some, List, [], ◌++◌, any, all,
  is_empty, trim, ◌==◌, arith, Bool-cases, inl, inr, eq_iff, Result, ok, err, >>=-eq-ok, ◌⊎◌,
  if◌then◌else◌, subst, any-append,
}
use fleet_agent.Providers.Profiles.{is_preset_id, openrouter_profile_id, opencode_zen_profile_id}
use fleet_agent.Providers.Readiness.{ProviderError}
use fleet_agent.Composer.Picker.{
  PickerState, openrouter_route, opencode_zen_route, or_default_key, model_options,
  active_model_key, pick, default_model_key, profile_options, ModelOption, Route, has_key,
  unseen_options, route_options, route_key, model_option_key,
}
use fleet_agent.Browser.{Tab}
use fleet_agent.Providers.Hooks.{AuthView}
use fleet_agent.Providers.Store.Editing.{CanWrite}
use fleet_agent.Providers.Settings.ModelChoice.Routing.{CanStoreAll}
use fleet_agent.Composer.Picker.Picked.{Shown, IsPicked, pick-IsPicked}
use fleet_agent.Composer.Picker.Options.{
  is_ready, any-unseen_options, all-unseen_options, option_of-any, all-append, all-route_options,
  returned_ready, profile_options-ready, or_true, any-route_options,
}

or_default_key-blank :
    (chosen : Option String)
    → ((m : String) → chosen ≡ some m → is_empty m ≡ true)
    → or_default_key chosen ≡ default_model_key
or_default_key-blank none h = refl
or_default_key-blank (some m) h = rw (h m refl) refl

-- The key of a built-in provider whose hook shows a choice, among options that are ready and have the
-- model.
route_key-Shown :
    (r : Route) (a : AuthView) (chosen : Option String) (os : List ModelOption)
    → Shown chosen a
    → all is_ready os ≡ true
    → (a.custom_model_enabled ≡ true
        → is_empty a.selected_model ≡ false
        → any (has_key (model_option_key r.id a.selected_model)) os ≡ true)
    → route_key r a os ≡ model_option_key r.id (or_default_key chosen)
unfolding route_key
route_key-Shown r a chosen os (inl (off, blank)) hr h =
    rw off (ap (λ key. model_option_key r.id key) (sym (or_default_key-blank chosen blank)))
route_key-Shown r a chosen os (inr (m, e, full, on, sel)) hr h =
    let full' : is_empty a.selected_model ≡ false = ap is_empty sel ∙ full in
    let named : or_default_key chosen ≡ a.selected_model =
      ap or_default_key e ∙ rw full (sym sel) in
    rw (on, full')
      (option_of-any _ (model_option_key r.id a.selected_model) os hr (h on full')
        ∙ ap (λ key. model_option_key r.id key) (sym named))

any-append_left :
    (key : String) (xs ys : List ModelOption)
    → any (has_key key) xs ≡ true
    → any (has_key key) (xs ++ ys) ≡ true
any-append_left key xs ys h = rw (any-append (has_key key) xs ys, h) refl

any-append_right :
    (key : String) (xs ys : List ModelOption)
    → any (has_key key) ys ≡ true
    → any (has_key key) (xs ++ ys) ≡ true
any-append_right key xs ys h =
    rw (any-append (has_key key) xs ys, h) (or_true (any (has_key key) xs))

abbrev offered : Route → Bool → AuthView → List ModelOption
offered r b s = if b then route_options r s else []

all-offered : (r : Route) (b : Bool) (s : AuthView) → all is_ready (offered r b s) ≡ true
all-offered r true s = all-route_options r s
all-offered r false s = refl

-- The options, before the filter, of the profiles that could be read.
abbrev unfiltered : (String → Bool) → PickerState → List ModelOption → List ModelOption
unfiltered ready s custom =
    offered openrouter_route (ready openrouter_profile_id) s.openrouter
    ++ offered opencode_zen_route (ready opencode_zen_profile_id) s.opencode_zen
    ++ custom

all-unfiltered :
    (ready : String → Bool) (s : PickerState) (custom : List ModelOption)
    → all is_ready custom ≡ true
    → all is_ready (unfiltered ready s custom) ≡ true
all-unfiltered ready s custom h =
    let a = offered openrouter_route (ready openrouter_profile_id) s.openrouter in
    let b = offered opencode_zen_route (ready opencode_zen_profile_id) s.opencode_zen in
    all-append (a ++ b) custom
      (all-append a b (all-offered openrouter_route (ready openrouter_profile_id) s.openrouter)
        (all-offered opencode_zen_route (ready opencode_zen_profile_id) s.opencode_zen))
      h

abbrev returned_options : Result ProviderError (List ModelOption) → List ModelOption
returned_options (err thrown) = []
returned_options (ok os) = os

-- Options that could be made are the filter of what the three kinds of providers offer.
model_options_lem :
    (ready : String → Bool) (s : PickerState) (os : List ModelOption)
    → model_options ready s ≡ ok os
    → (custom : List ModelOption) × (all is_ready custom ≡ true)
      × (os ≡ unseen_options [] (unfiltered ready s custom))
unfolding model_options
model_options_lem ready s os h =
    let (custom, at_custom, at_os) = >>=-eq-ok (profile_options ready s.providers.profiles) _ h in
    (
      custom,
      subst (λ r. returned_ready r ≡ true) at_custom
          (profile_options-ready ready s.providers.profiles),
      sym (ap returned_options at_os),
    )

-- Options that could be made are ready, and have each model that a provider offers.
has_offered :
    (ready : String → Bool) (s : PickerState) (os : List ModelOption) (key : String)
    → model_options ready s ≡ ok os
    → (any (has_key key) (offered openrouter_route (ready openrouter_profile_id) s.openrouter)
        ≡ true)
      ⊎ (any
            (has_key key)
            (offered opencode_zen_route (ready opencode_zen_profile_id) s.opencode_zen)
          ≡ true)
    → any (has_key key) os ≡ true
has_offered ready s os key h there =
    let (custom, _, at_os) = model_options_lem ready s os h in
    let a = offered openrouter_route (ready openrouter_profile_id) s.openrouter in
    let b = offered opencode_zen_route (ready opencode_zen_profile_id) s.opencode_zen in
    let whole : any (has_key key) (a ++ b ++ custom) ≡ true =
      any-append_left key (a ++ b) custom
        (elim there [ inl e ↦ any-append_left key a b e | inr e ↦ any-append_right key a b e ]) in
    subst (λ l. any (has_key key) l ≡ true) (sym at_os)
      (any-unseen_options key [] (a ++ b ++ custom) refl ∙ whole)

options-ready :
    (ready : String → Bool) (s : PickerState) (os : List ModelOption)
    → model_options ready s ≡ ok os
    → all is_ready os ≡ true
options-ready ready s os h =
    let (custom, hr, at_os) = model_options_lem ready s os h in
    subst (λ l. all is_ready l ≡ true) (sym at_os)
      (all-unseen_options [] (unfiltered ready s custom) (all-unfiltered ready s custom hr))

route_active :
    (ready : String → Bool) (o : ModelOption) (s : PickerState) (os : List ModelOption)
    → IsPicked o s
    → is_preset_id o.provider_id ≡ true
    → ready o.provider_id ≡ true
    → model_options ready s ≡ ok os
    → active_model_key ready s os ≡ ok (model_option_key o.provider_id (or_default_key o.model_id))
unfolding active_model_key
route_active ready o s os picked hp hr h =
    let hs = options-ready ready s os h in
    elim (Bool-cases (o.provider_id == openrouter_profile_id)) [
      | inl e ↦
          let same = (eq_iff o.provider_id openrouter_profile_id).0 e in
          let at : ready openrouter_profile_id ≡ true = subst (λ id. ready id ≡ true) same hr in
          rw (picked.active) (
            rw (hr, e)
              (ap ok (
                route_key-Shown openrouter_route s.openrouter o.model_id os (picked.openrouter e) hs
                  (λ on full.
                    has_offered ready s os
                      (model_option_key openrouter_profile_id s.openrouter.selected_model) h
                      (inl (rw at (any-route_options openrouter_route s.openrouter on full))))
                ∙ ap (λ id. model_option_key id (or_default_key o.model_id)) (sym same))))
      | inr e ↦
          let zen : (o.provider_id == opencode_zen_profile_id) ≡ true = ground (arith, hp, e) in
          let same = (eq_iff o.provider_id opencode_zen_profile_id).0 zen in
          let at : ready opencode_zen_profile_id ≡ true = subst (λ id. ready id ≡ true) same hr in
          rw (picked.active) (
            rw (hr, e, zen)
              (ap ok (
                route_key-Shown opencode_zen_route s.opencode_zen o.model_id os
                  (picked.opencode_zen zen) hs
                  (λ on full.
                    has_offered ready s os
                      (model_option_key opencode_zen_profile_id s.opencode_zen.selected_model) h
                      (inr (rw at (any-route_options opencode_zen_route s.opencode_zen on full))))
                ∙ ap (λ id. model_option_key id (or_default_key o.model_id)) (sym same))))
    ]

-- In a tab whose storage takes every write, after an option of a built-in provider that is ready and
-- whose model, if any, has no margin is picked, and if the options can then be made: the active key is
-- that of the provider with the model that was picked, or with its default where the pick names no
-- model.
pub active_model_key-pick :
    (ready : String → Bool) (o : ModelOption) (t : Tab) (s : PickerState) (os : List ModelOption)
    → CanWrite t
    → CanStoreAll t
    → ((m : String) → o.model_id ≡ some m → trim m ≡ m)
    → is_preset_id o.provider_id ≡ true
    → ready o.provider_id ≡ true
    → model_options ready (pick o (t, s)).1 ≡ ok os
    → active_model_key ready (pick o (t, s)).1 os
      ≡ ok (model_option_key o.provider_id (or_default_key o.model_id))
active_model_key-pick ready o t s os c h e hp hr made =
    route_active ready o (pick o (t, s)).1 os (pick-IsPicked o t s c h hp e) hp hr made
