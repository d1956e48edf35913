-- ===== src/Composer/Picker/Kept.antt =====
-- What the calls of a pick leave as it was.
use fleet_agent.Base.{
  String, ◌≡◌, refl, ◌∙◌, Bool, true, false, Option, none, some, trim, is_empty, inl, inr,
  Bool-cases, if◌then◌else◌,
}
use fleet_agent.Browser.{Tab, set_item, notify}
use fleet_agent.Providers.Auth.{Config, written, set_selected_model, set_custom_model_enabled}
use fleet_agent.Providers.Hooks.{AuthView, act}
use fleet_agent.Providers.Settings.Keys.{Vendor, config_of}
use fleet_agent.Composer.Picker.{selected, selected_if}

-- The same storage for the providers' store.
pub record SameStore (t u : Tab) : Type 0 where
  pub window : t.window ≡ u.window
  pub readable : t.local.readable ≡ u.local.readable
  pub document : t.document ≡ u.document

-- What both setters of a model leave.
pub record Kept (t u : Tab) : Type 0 where
  pub same : SameStore t u
  pub accepts : (k v : String) → t.local.accepts k v ≡ u.local.accepts k v

pub Kept-refl : (t : Tab) → Kept t t
Kept-refl t = record {
  same = record { window = refl; readable = refl; document = refl };
  accepts = λ k v. refl;
}

pub Kept-trans : (t u w : Tab) → Kept t u → Kept u w → Kept t w
Kept-trans t u w a b = record {
  same = record {
    window = a.same.window ∙ b.same.window;
    readable = a.same.readable ∙ b.same.readable;
    document = a.same.document ∙ b.same.document;
  };
  accepts = λ k v. a.accepts k v ∙ b.accepts k v;
}

Kept-written : (c : Config) (t : Tab) (k v : String) → Kept (written c t (set_item t.local k v)) t
unfolding set_item notify
Kept-written c t k v = elim (Bool-cases (t.local.accepts k v)) [
  | inl e ↦ rw e (record {
    same = record { window = refl; readable = refl; document = refl };
    accepts = λ k v. refl;
  })
  | inr e ↦ rw e (Kept-refl t)
]

Kept-if : (b : Bool) (u t : Tab) → Kept u t → Kept (if b then u else t) t
Kept-if true u t h = h
Kept-if false u t h = Kept-refl t

pub Kept-set_selected_model :
    (c : Config) (m : String) (t : Tab) → Kept (set_selected_model c m t) t
unfolding set_selected_model
Kept-set_selected_model c m t =
    Kept-if t.window (written c t (set_item t.local c.model_storage_key (trim m))) t
      (Kept-written c t c.model_storage_key (trim m))

pub Kept-set_custom_model_enabled :
    (c : Config) (b : Bool) (t : Tab) → Kept (set_custom_model_enabled c b t) t
unfolding set_custom_model_enabled
Kept-set_custom_model_enabled c b t =
    let value = if b then "true" else "false" in
    Kept-if t.window (written c t (set_item t.local c.custom_model_enabled_key value)) t
      (Kept-written c t c.custom_model_enabled_key value)

Kept-selected :
    (vendor : Vendor) (m : Option String) (t : Tab) (v : AuthView)
    → Kept (selected vendor m (t, v)).0 t
unfolding selected act
Kept-selected vendor none t v = Kept-set_custom_model_enabled (config_of vendor) false t
Kept-selected vendor (some m) t v = elim (Bool-cases (is_empty m)) [
  | inl e ↦ rw e (Kept-set_custom_model_enabled (config_of vendor) false t)
  | inr e ↦
      let c = config_of vendor in
      let t1 = set_selected_model c m t in
      rw e (
        Kept-trans (set_custom_model_enabled c true t1) t1 t
          (Kept-set_custom_model_enabled c true t1) (Kept-set_selected_model c m t))
]

pub Kept-selected_if :
    (b : Bool) (vendor : Vendor) (m : Option String) (t : Tab) (v : AuthView)
    → Kept (selected_if b vendor m (t, v)).0 t
Kept-selected_if true vendor m t v = Kept-selected vendor m t v
Kept-selected_if false vendor m t v = Kept-refl t
