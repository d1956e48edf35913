-- ===== src/Providers/Hooks/Laws.antt =====
-- That a hook shows what is stored.
use fleet_agent.Base.{
  String, ◌≡◌, refl, sym, ap, ◌∙◌, Bool, true, false, some, trim, is_empty, ltb, length, arith,
  Bool-cases, inl, inr, if◌then◌else◌,
}
use fleet_agent.Browser.{Tab}
use fleet_agent.Providers.Auth.{
  Config, get_api_key, set_api_key, clear_api_key, get_selected_model, set_selected_model,
  is_custom_model_enabled, set_custom_model_enabled,
}
use fleet_agent.Providers.Auth.Laws.{
  IsSplit, CanStore, set_api_key_lem, set_selected_model_lem, set_custom_model_enabled_lem,
  clear_api_key_lem,
}
use fleet_agent.Providers.Hooks.{
  AuthView, sync_state, after_call, Action, enter_key, choose_model, enable_custom, sign_out,
  or_default_model, act,
}

-- What the hook shows is what the getters read.
pub record Agrees (c : Config) (t : Tab) (v : AuthView) : Type 0 where
  pub api_key : v.api_key ≡ get_api_key c t
  pub selected_model : v.selected_model ≡ get_selected_model c t
  pub custom_model_enabled : v.custom_model_enabled ≡ is_custom_model_enabled c t

-- The storage takes the write. A key that is not read back has no space around it, and neither has a
-- model, which is not empty.
abbrev pub CanAct : Bool → Config → Action → Tab → Type 0
CanAct rereads c (enter_key key) t =
    CanStore t c.storage_key (trim key) × (if rereads then Unit else trim key ≡ key)
CanAct rereads c (choose_model model) t =
    CanStore t c.model_storage_key (trim (or_default_model c model))
    × (trim (or_default_model c model) ≡ or_default_model c model)
    × (is_empty (or_default_model c model) ≡ false)
CanAct rereads c (enable_custom enabled) t =
    CanStore t c.custom_model_enabled_key (if enabled then "true" else "false")
CanAct rereads c sign_out t = t.local.readable ≡ true

-- What the listener would have read, or what was shown before.
pub after_call_lem {ℓ} :
    {A : Type ℓ} (c : Config) (before t : Tab) (v : AuthView) (f : AuthView → A) (a : A)
    → f (sync_state c t v) ≡ a
    → f v ≡ a
    → f (after_call c before t v) ≡ a
unfolding after_call
after_call_lem c before t v f a h i =
    elim (Bool-cases (ltb (length before.calls) (length t.calls))) [
      | inl e ↦ rw e h
      | inr e ↦ rw e i
    ]

kept_key :
    (c : Config) (t u : Tab) (v : AuthView)
    → v.api_key ≡ get_api_key c t
    → get_api_key c u ≡ get_api_key c t
    → (after_call c t u v).api_key ≡ get_api_key c u
unfolding sync_state
kept_key c t u v h i =
    after_call_lem c t u v (λ (w : AuthView). w.api_key) (get_api_key c u) refl (h ∙ sym i)

kept_model :
    (c : Config) (t u : Tab) (v : AuthView)
    → v.selected_model ≡ get_selected_model c t
    → get_selected_model c u ≡ get_selected_model c t
    → (after_call c t u v).selected_model ≡ get_selected_model c u
unfolding sync_state
kept_model c t u v h i =
    after_call_lem c t u v (λ (w : AuthView). w.selected_model) (get_selected_model c u) refl
      (h ∙ sym i)

kept_enabled :
    (c : Config) (t u : Tab) (v : AuthView)
    → v.custom_model_enabled ≡ is_custom_model_enabled c t
    → is_custom_model_enabled c u ≡ is_custom_model_enabled c t
    → (after_call c t u v).custom_model_enabled ≡ is_custom_model_enabled c u
unfolding sync_state
kept_enabled c t u v h i =
    after_call_lem c t u v (λ (w : AuthView). w.custom_model_enabled) (is_custom_model_enabled c u)
      refl (h ∙ sym i)

stored_model :
    (c : Config) (m : String)
    → trim m ≡ m
    → is_empty m ≡ false
    → (if is_empty (trim m) then c.default_model else trim m) ≡ m
stored_model c m h i = ground (arith, h, i)

entered_key :
    (rereads : Bool) (c : Config) (key : String) (t : Tab)
    → IsSplit c
    → CanAct rereads c (enter_key key) t
    → (if rereads then get_api_key c (set_api_key c key t) else some key)
      ≡ get_api_key c (set_api_key c key t)
entered_key true c key t s h = refl
entered_key false c key t s h =
    sym ((set_api_key_lem c key t s h.0).0 ∙ ap (λ (k : String). some k) h.1)

-- A hook that shows what is stored still does after each of its calls, if the storage takes the write
-- and the text that is written has no space around it; the key of OpenCode Zen, which is read back,
-- may have.
pub act-Agrees :
    (rereads : Bool) (c : Config) (action : Action) (t : Tab) (v : AuthView)
    → IsSplit c
    → CanAct rereads c action t
    → Agrees c t v
    → Agrees c (act rereads c action (t, v)).0 (act rereads c action (t, v)).1
unfolding act
act-Agrees rereads c (enter_key key) t v s h a =
    let l = set_api_key_lem c key t s h.0 in
    record {
      api_key = entered_key rereads c key t s h;
      selected_model = kept_model c t (set_api_key c key t) v a.selected_model l.1;
      custom_model_enabled = kept_enabled c t (set_api_key c key t) v a.custom_model_enabled l.2;
    }
act-Agrees rereads c (choose_model model) t v s h a =
    let m = or_default_model c model in
    let l = set_selected_model_lem c m t s h.0 in
    let u = set_selected_model c m t in
    record {
      api_key = kept_key c t u v a.api_key l.1;
      selected_model = sym (l.0 ∙ stored_model c m h.1 h.2);
      custom_model_enabled = kept_enabled c t u v a.custom_model_enabled l.2;
    }
act-Agrees rereads c (enable_custom enabled) t v s h a =
    let l = set_custom_model_enabled_lem c enabled t s h in
    let u = set_custom_model_enabled c enabled t in
    record {
      api_key = kept_key c t u v a.api_key l.1;
      selected_model = kept_model c t u v a.selected_model l.2;
      custom_model_enabled = sym l.0;
    }
act-Agrees rereads c sign_out t v s h a =
    let l = clear_api_key_lem c t s h in
    let u = clear_api_key c t in
    record {
      api_key = sym l.0;
      selected_model = kept_model c t u v a.selected_model l.1;
      custom_model_enabled = kept_enabled c t u v a.custom_model_enabled l.2;
    }
