-- ===== src/Composer/Picker/Picked.antt =====
-- What the hooks show after a pick, in a tab that takes every write.
use fleet_agent.Base.{
  String, ◌≡◌, ◌≢◌, refl, ap, ◌∙◌, Bool, true, false, Option, none, some, trim, is_empty, ltb,
  length, ◌==◌, ◌⊎◌, inl, inr, arith, Bool-cases,
}
use fleet_agent.Browser.{Tab, TextStore, notify}
use fleet_agent.Providers.Auth.{get_selected_model, set_selected_model, set_custom_model_enabled}
use fleet_agent.Providers.Auth.Laws.{CanStore, set_selected_model_lem, set_custom_model_enabled_lem}
use fleet_agent.Providers.Hooks.{AuthView, act, sync_state, after_call}
use fleet_agent.Providers.Hooks.Laws.{after_call_lem}
use fleet_agent.Providers.Profiles.{
  is_preset_id, ProviderStore, openrouter_profile_id, opencode_zen_profile_id,
}
use fleet_agent.Providers.Store.{
  get_profiles, save_provider_store, load_provider_store, set_active_provider_id,
  get_active_provider_id, is_valid_id,
}
use fleet_agent.Providers.Store.Loading.{load_idem, load_same, load-keeps}
use fleet_agent.Providers.Store.Editing.{CanWrite, load-set_active_provider_id}
use fleet_agent.Providers.Registry.{ProvidersView, choose, after_edit, set_states, edit_providers}
use fleet_agent.Providers.Registry.Laws.{read_providers_lem, edit_providers-tab}
use fleet_agent.Providers.Settings.Keys.{Vendor, openrouter, opencode_zen, config_of}
use fleet_agent.Providers.Settings.Keys.Laws.{config_of-IsSplit}
use fleet_agent.Providers.Settings.ModelChoice.Routing.{CanStoreAll}
use fleet_agent.Composer.Picker.{ModelOption, PickerState, selected, selected_if, pick}
use fleet_agent.Composer.Picker.Kept.{Kept, Kept-trans, Kept-set_selected_model, Kept-selected_if}

-- What a hook shows after a choice of this model, or of the default.
abbrev pub Shown : Option String → AuthView → Type 0
Shown chosen a =
    ((a.custom_model_enabled ≡ false) × ((m : String) → chosen ≡ some m → is_empty m ≡ true))
    ⊎ ((m : String) × (chosen ≡ some m)
        × (is_empty m ≡ false)
        × (a.custom_model_enabled ≡ true)
        × (a.selected_model ≡ m))

CanStoreAll-Kept : (t u : Tab) → Kept t u → CanStoreAll u → CanStoreAll t
CanStoreAll-Kept t u k h = record {
  window = k.same.window ∙ h.window;
  readable = k.same.readable ∙ h.readable;
  accepted = λ x v. k.accepts x v ∙ h.accepted x v;
}

CanStore-CanStoreAll : (t : Tab) (k v : String) → CanStoreAll t → CanStore t k v
CanStore-CanStoreAll t k v h = record {
  window = h.window;
  readable = h.readable;
  accepted = h.accepted k v;
}

model_stays :
    (vendor : Vendor) (m : String) (t : Tab)
    → CanStoreAll t
    → trim m ≡ m
    → is_empty m ≡ false
    → get_selected_model (config_of vendor) (
        set_custom_model_enabled
          (config_of vendor)
          true
          (set_selected_model (config_of vendor) m t))
      ≡ m
model_stays vendor m t h same full =
    let c = config_of vendor in
    let t1 = set_selected_model c m t in
    let split = config_of-IsSplit vendor in
    (set_custom_model_enabled_lem c true t1 split (
      CanStore-CanStoreAll t1 c.custom_model_enabled_key "true"
        (CanStoreAll-Kept t1 t (Kept-set_selected_model c m t) h))).2
    ∙ (set_selected_model_lem c m t split (CanStore-CanStoreAll t c.model_storage_key (trim m) h)).0
    ∙ rw (same, full) refl

selected-Shown :
    (vendor : Vendor) (chosen : Option String) (t : Tab) (v : AuthView)
    → CanStoreAll t
    → ((m : String) → chosen ≡ some m → trim m ≡ m)
    → Shown chosen (selected vendor chosen (t, v)).1
unfolding selected act
selected-Shown vendor none t v h e = inl (refl, λ m absent. cc)
selected-Shown vendor (some m) t v h e = elim (Bool-cases (is_empty m)) [
  | inl blank ↦ rw blank (inl (refl, λ x at. cc))
  | inr full ↦
      let stays = model_stays vendor m t h (e m refl) full in
      let c = config_of vendor in
      let t1 = set_selected_model c m t in
      let v1 = record (after_call c t t1 v) { selected_model = m } in
      rw full (
        inr (
          m,
          refl,
          full,
          refl,
          after_call_lem c t1 (set_custom_model_enabled c true t1) v1
              (λ (w : AuthView). w.selected_model) m (unfold sync_state in stays) refl,
        ))
]

chosen_lem :
    (x : Option String) (t : Tab) (v : ProvidersView)
    → (edit_providers (choose x) (t, v)).1.active_provider_id
      ≡ (load_provider_store (set_active_provider_id x t)).1.active_provider_id
unfolding edit_providers after_edit set_states get_active_provider_id
chosen_lem x t v =
    let u = set_active_provider_id x t in
    elim (Bool-cases (ltb (length t.calls) (length u.calls))) [
      | inl e ↦ rw e (
          ap (λ (r : Tab × ProvidersView). (load_provider_store r.0).1.active_provider_id)
            (read_providers_lem u)
          ∙ ap (λ (r : Tab × ProviderStore). r.1.active_provider_id) (load_idem u))
      | inr e ↦ rw e refl
    ]

set_active-keeps :
    (id : String) (t : Tab)
    → ((set_active_provider_id (some id) t).window ≡ t.window)
      × ((set_active_provider_id (some id) t).local ≡ t.local)
unfolding set_active_provider_id get_profiles save_provider_store notify
set_active-keeps id t =
    let k = load-keeps t in let k' = load-keeps (load_provider_store t).0 in ground arith

-- The tab after the first call of a pick.
abbrev chosen_tab : String → Tab → ProvidersView → Tab
chosen_tab id t v = (edit_providers (choose (some id)) (t, v)).0

CanStoreAll-chosen_tab :
    (id : String) (t : Tab) (v : ProvidersView) → CanStoreAll t → CanStoreAll (chosen_tab id t v)
CanStoreAll-chosen_tab id t v h =
    let a = set_active-keeps id t in
    let k = load-keeps (set_active_provider_id (some id) t) in
    let local = k.1 ∙ a.1 in
    rw (edit_providers-tab (choose (some id)) t v) (record {
      window = k.0 ∙ a.0 ∙ h.window;
      readable = ap (λ (l : TextStore). l.readable) local ∙ h.readable;
      accepted = λ x y. ap (λ (l : TextStore). l.accepts x y) local ∙ h.accepted x y;
    })

preset_differs : (id : String) → is_preset_id id ≡ true → id ≢ "server"
preset_differs id h same = ground (arith, ap is_preset_id same)

selected_id :
    (id : String) (t : Tab)
    → CanWrite t
    → is_preset_id id ≡ true
    → (load_provider_store (set_active_provider_id (some id) t)).1.active_provider_id ≡ some id
selected_id id t c preset =
    let valid : is_valid_id id (load_provider_store t).1.profiles ≡ true =
      unfold is_valid_id in rw preset refl in
    rw (load-set_active_provider_id id t c (preset_differs id preset), valid) refl

-- A listener that is called later reads the same selection.
later_active :
    (id : String) (t u : Tab) (v : ProvidersView)
    → v.active_provider_id ≡ some id
    → (load_provider_store u).1.active_provider_id ≡ some id
    → (after_edit t u v).1.active_provider_id ≡ some id
unfolding after_edit
later_active id t u v h i = elim (Bool-cases (ltb (length t.calls) (length u.calls))) [
  | inl e ↦
      rw e (ap (λ (r : Tab × ProvidersView). r.1.active_provider_id) (read_providers_lem u) ∙ i)
  | inr e ↦ rw e h
]

-- What a pick of an option of a built-in provider leaves: the provider is active, and its hook shows
-- the choice.
pub record IsPicked (o : ModelOption) (s : PickerState) : Type 0 where
  pub active : s.providers.active_provider_id ≡ some o.provider_id
  pub openrouter : (o.provider_id == openrouter_profile_id) ≡ true → Shown o.model_id s.openrouter
  pub opencode_zen :
      (o.provider_id == opencode_zen_profile_id) ≡ true → Shown o.model_id s.opencode_zen

selected_if-Shown :
    (b : Bool) (vendor : Vendor) (chosen : Option String) (t : Tab) (v : AuthView)
    → CanStoreAll t
    → ((m : String) → chosen ≡ some m → trim m ≡ m)
    → b ≡ true
    → Shown chosen (selected_if b vendor chosen (t, v)).1
selected_if-Shown true vendor chosen t v h e on = selected-Shown vendor chosen t v h e
selected_if-Shown false vendor chosen t v h e on = cc

pub pick-IsPicked :
    (o : ModelOption) (t : Tab) (s : PickerState)
    → CanWrite t
    → CanStoreAll t
    → is_preset_id o.provider_id ≡ true
    → ((m : String) → o.model_id ≡ some m → trim m ≡ m)
    → IsPicked o (pick o (t, s)).1
unfolding pick
pick-IsPicked o t s c h preset e =
    let id = o.provider_id in
    let t1 = chosen_tab id t s.providers in
    let v1 = (edit_providers (choose (some id)) (t, s.providers)).1 in
    let a = selected_if (id == openrouter_profile_id) openrouter o.model_id (t1, s.openrouter) in
    let b =
      selected_if (id == opencode_zen_profile_id) opencode_zen o.model_id (a.0, s.opencode_zen) in
    let takes = CanStoreAll-chosen_tab id t s.providers h in
    let kept_a =
      Kept-selected_if (id == openrouter_profile_id) openrouter o.model_id t1 s.openrouter in
    let kept_b =
      Kept-trans b.0 a.0 t1
        (Kept-selected_if (id == opencode_zen_profile_id) opencode_zen o.model_id a.0
          s.opencode_zen)
        kept_a in
    let stored = selected_id id t c preset in
    let again : (load_provider_store b.0).1.active_provider_id ≡ some id =
      ap (λ (r : ProviderStore). r.active_provider_id)
        (load_same b.0 t1 kept_b.same.window kept_b.same.readable kept_b.same.document)
      ∙ ap (λ (u : Tab). (load_provider_store u).1.active_provider_id)
          (edit_providers-tab (choose (some id)) t s.providers)
      ∙ ap (λ (r : Tab × ProviderStore). r.1.active_provider_id)
          (load_idem (set_active_provider_id (some id) t))
      ∙ stored in
    record {
      active = later_active id t1 b.0 v1 (chosen_lem (some id) t s.providers ∙ stored) again;
      openrouter =
          selected_if-Shown (id == openrouter_profile_id) openrouter o.model_id t1 s.openrouter
            takes e;
      opencode_zen =
          selected_if-Shown (id == opencode_zen_profile_id) opencode_zen o.model_id a.0
            s.opencode_zen (CanStoreAll-Kept a.0 t1 kept_a takes) e;
    }
