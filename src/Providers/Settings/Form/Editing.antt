-- ===== src/Providers/Settings/Form/Editing.antt =====
-- Editing a profile that the form made, and submitting it as it is.
use fleet_agent.Base.{
  String, ◌≡◌, refl, true, none, some, trim, trim_idem, is_empty, ok, >>=-eq-ok, Bool-cases, inl,
  inr, if◌then◌else◌,
}
use fleet_agent.Json.{str}
use fleet_agent.Browser.{Tab}
use fleet_agent.Providers.Readiness.{trimmed! }
use fleet_agent.Providers.Registry.{ProvidersView, edit_providers, save}
use fleet_agent.Providers.Settings.Form.{
  ProviderFormData, FormState, closed_form, or_empty, form_of, start_edit_provider, Entered,
  entered_texts, entry_error, profile_of, store_profile, submit_provider,
}
use fleet_agent.Providers.Settings.Form.Laws.{entered_texts-trim, submit_provider-stores}

nothing_of_empty : (s : String) → is_empty s ≡ true → s ≡ String.[]
nothing_of_empty String.[] h = refl
nothing_of_empty (String.◌∷◌ c s) h = cc

shown_model : (m : String) → or_empty (if is_empty m then none else some (str m)) ≡ str m
shown_model m = elim (Bool-cases (is_empty m)) [
  | inl e ↦ rw e (rw (nothing_of_empty m e) refl)
  | inr e ↦ rw e refl
]

entered_name : (d : ProviderFormData) (x : Entered) → entered_texts d ≡ ok x → trim x.name ≡ x.name
unfolding entered_texts
entered_name d x h =
    let (k, at_k, h1) = >>=-eq-ok (trimmed! (some d.api_key)) _ h in
    let (m, at_m, h2) = >>=-eq-ok (trimmed! (some d.model_id)) _ h1 in
    let (b, at_b, h3) = >>=-eq-ok (trimmed! (some d.base_url)) _ h2 in cc (trim_idem d.name)

entered_texts-form_of :
    (id : String) (d : ProviderFormData) (x : Entered)
    → entered_texts d ≡ ok x
    → entered_texts (form_of (profile_of id x d)) ≡ ok x
unfolding entered_texts trimmed!
entered_texts-form_of id d x h =
    let t = entered_texts-trim d x h in
    rw (shown_model x.model_id, entered_name d x h, t.0, t.1, t.2) refl

-- A profile that the form has stored, opened for editing and submitted as it is, is stored again as
-- it was, under its own id, and the form closes.
pub submit_provider-start_edit_provider :
    (new_id id : String) (r : Tab × ProvidersView) (f : FormState) (d : ProviderFormData)
    (x : Entered)
    → entered_texts d ≡ ok x
    → entry_error x ≡ none
    → submit_provider new_id (r, start_edit_provider (profile_of id x d) f)
      ≡ (edit_providers (save (profile_of id x d)) r, closed_form)
unfolding start_edit_provider store_profile
submit_provider-start_edit_provider new_id id r f d x h e =
    submit_provider-stores new_id r (start_edit_provider (profile_of id x d) f) x
      (entered_texts-form_of id d x h) e
