-- ===== src/Providers/Settings/Form/Laws.antt =====
-- What a submitted form leaves in the store, and the run that it makes possible.
use fleet_agent.Base.{
  String, ◌≡◌, ◌≢◌, refl, ap, ◌∙◌, true, false, Option, none, some, [], ◌∷◌, trim, trim_idem,
  is_empty, differ_by_first, first, eq_refl, arith, Bool-cases, inl, inr, ok, >>=-eq-ok,
  if◌then◌else◌,
}
use fleet_agent.Json.{Json, str}
use fleet_agent.Browser.{Tab, TextStore, notify}
use fleet_agent.Providers.Profiles.{
  ProviderProfile, ProviderStore, is_preset_id, openrouter_profile_id, opencode_zen_profile_id,
}
use fleet_agent.Providers.Profiles.Codec.{response_name, messages_name}
use fleet_agent.Providers.Store.{
  load_provider_store, save_provider_store, set_active_provider_id, upsert_profile, is_valid_id,
}
use fleet_agent.Providers.Readiness.{
  Headers, trimmed, trimmed!, readiness_of, key_of, is_ready, headers_of, custom_headers,
  get_agent_provider_headers,
}
use fleet_agent.Providers.Readiness.Active.{
  active_profile, active_profile-load, answer, get_agent_provider_headers_lem,
}
use fleet_agent.Providers.Store.Editing.{CanWrite, load-upsert_profile, load-set_active_provider_id}
use fleet_agent.Providers.Registry.{ProvidersView, edit_providers, choose, save}
use fleet_agent.Providers.Registry.Laws.{edit_providers-tab}
use fleet_agent.Providers.Store.Loading.{load-keeps, load_idem}
use fleet_agent.Providers.Store.Lookup.{by_id, has_profile-eq-by_id, by_id-with_presets}
use fleet_agent.Providers.Settings.Form.{
  FormState, closed_form, store_profile, Entered, entered_texts, entry_error, is_http_url,
  profile_id, profile_of, submit_provider, ProviderFormData,
}

-- The texts that the checks let through have no margin, and neither the key nor the URL is empty.
record IsEntered (x : Entered) : Type 0 where
  api_key : trim x.api_key ≡ x.api_key
  base_url : trim x.base_url ≡ x.base_url
  model_id : trim x.model_id ≡ x.model_id
  has_key : is_empty x.api_key ≡ false
  has_url : is_empty x.base_url ≡ false

new_id-IsCustom :
    (new_id : String)
    → (is_preset_id (profile_id none new_id) ≡ false) × (profile_id none new_id ≢ "server")
new_id-IsCustom new_id =
    let id = profile_id none new_id in
    let openrouter = differ_by_first id openrouter_profile_id (omega arith) in
    let zen = differ_by_first id opencode_zen_profile_id (omega arith) in
    (ground arith, λ e. omega (arith, ap first e))

-- The headers of a custom profile.
abbrev pub profile_headers : Entered → ProviderFormData → Headers
profile_headers x d =
    ("X-LLM-Key", x.api_key)
    ∷ ("X-LLM-Base-Url", x.base_url)
    ∷ ("X-LLM-Response-Format", response_name d.response_format)
    ∷ ("X-LLM-Messages-Format", messages_name d.messages_format)
    ∷ (if is_empty x.model_id then [] else ("X-LLM-Model", x.model_id) ∷ [])

custom_headers-profile_of :
    (id : String) (x : Entered) (d : ProviderFormData)
    → IsEntered x
    → custom_headers (profile_of id x d) ≡ ok (profile_headers x d)
unfolding custom_headers trimmed trimmed!
custom_headers-profile_of id x d h = elim (Bool-cases (is_empty x.model_id)) [
  | inl e ↦ rw (e, h.api_key, h.base_url) refl
  | inr e ↦ rw (e, h.api_key, h.base_url, h.model_id) (rw e refl)
]

readiness_of-profile_of :
    (id : String) (x : Entered) (d : ProviderFormData) (t : Tab)
    → IsEntered x
    → is_preset_id id ≡ false
    → readiness_of (some (profile_of id x d)) t ≡ ok is_ready
unfolding readiness_of key_of trimmed
readiness_of-profile_of id x d t h c = ground (arith, h.api_key, h.base_url, h.has_key, h.has_url)

headers_of-profile_of :
    (id m : String) (x : Entered) (d : ProviderFormData) (t : Tab)
    → IsEntered x
    → is_preset_id id ≡ false
    → headers_of (some (profile_of id x d)) m t ≡ ok (profile_headers x d)
unfolding headers_of
headers_of-profile_of id m x d t h c = ground (arith, custom_headers-profile_of id x d h)

trimmed!-trim : (v : Option Json) (k : String) → trimmed! v ≡ ok k → trim k ≡ k
unfolding trimmed!
trimmed!-trim (some (str s)) k h = cc (trim_idem s)
trimmed!-trim (some _) k h = cc
trimmed!-trim none k h = cc

not_empty-is_http_url : (url : String) → is_http_url url ≡ true → is_empty url ≡ false
unfolding is_http_url
not_empty-is_http_url String.[] h = cc
not_empty-is_http_url (String.◌∷◌ c s) h = refl

-- The checks let through a URL that has the form of one, and a key.
entry_error-eq_none :
    (x : Entered)
    → entry_error x ≡ none
    → (is_empty x.name ≡ false) × (is_http_url x.base_url ≡ true) × (is_empty x.api_key ≡ false)
unfolding entry_error
entry_error-eq_none x e = ground arith

pub entered_texts-trim :
    (d : ProviderFormData) (x : Entered)
    → entered_texts d ≡ ok x
    → (trim x.api_key ≡ x.api_key) × (trim x.base_url ≡ x.base_url) × (trim x.model_id ≡ x.model_id)
unfolding entered_texts
entered_texts-trim d x h =
    let (k, at_k, h1) = >>=-eq-ok (trimmed! (some d.api_key)) _ h in
    let (m, at_m, h2) = >>=-eq-ok (trimmed! (some d.model_id)) _ h1 in
    let (b, at_b, h3) = >>=-eq-ok (trimmed! (some d.base_url)) _ h2 in
    let kept = trimmed!-trim (some d.api_key) k at_k in
    let kept' = trimmed!-trim (some d.base_url) b at_b in
    let kept2 = trimmed!-trim (some d.model_id) m at_m in (cc, cc, cc)

entered_texts-IsEntered :
    (d : ProviderFormData) (x : Entered)
    → entered_texts d ≡ ok x
    → entry_error x ≡ none
    → IsEntered x
entered_texts-IsEntered d x h e =
    let t = entered_texts-trim d x h in
    let c = entry_error-eq_none x e in
    record {
      api_key = t.0;
      base_url = t.1;
      model_id = t.2;
      has_key = c.2;
      has_url = not_empty-is_http_url x.base_url c.1;
    }

-- The checks concern the form alone: with both passed, the profile goes to the store.
pub submit_provider-stores :
    (new_id : String) (r : Tab × ProvidersView) (f : FormState) (x : Entered)
    → entered_texts f.provider_form ≡ ok x
    → entry_error x ≡ none
    → submit_provider new_id (r, f) ≡ (
      store_profile f.editing_profile_id
          (profile_of (profile_id f.editing_profile_id new_id) x f.provider_form)
          r,
      closed_form,
    )
unfolding submit_provider
submit_provider-stores new_id r f x h e = rw (h, submit_provider) (rw e refl)

-- Loading and saving leave a tab that can be written.
CanWrite-load : (t : Tab) → CanWrite t → CanWrite (load_provider_store t).0
CanWrite-load t c =
    let k = load-keeps t in
    record {
      window = k.0 ∙ c.window;
      readable = ap (λ (l : TextStore). l.readable) k.1 ∙ c.readable;
      accepted = λ s. rw (k.4) (c.accepted s);
    }

CanWrite-save : (s : ProviderStore) (t : Tab) → CanWrite t → CanWrite (save_provider_store s t)
unfolding save_provider_store notify
CanWrite-save s t c =
    rw (c.window, c.accepted s)
      (record { window = refl; readable = c.readable; accepted = c.accepted })

CanWrite-upsert : (p : ProviderProfile) (t : Tab) → CanWrite t → CanWrite (upsert_profile p t)
unfolding upsert_profile
CanWrite-upsert p t c = CanWrite-save _ (load_provider_store t).0 (CanWrite-load t c)

-- Choosing a profile of the loaded store makes it the active one.
choose-active :
    (p : ProviderProfile) (t : Tab)
    → CanWrite t
    → p.id ≢ "server"
    → by_id p.id (load_provider_store t).1.profiles ≡ some p
    → active_profile (set_active_provider_id (some p.id) t) ≡ some p
choose-active p t c server found =
    let ps = (load_provider_store t).1.profiles in
    let valid : is_valid_id p.id ps ≡ true =
      unfold is_valid_id in ground (arith, has_profile-eq-by_id p.id ps) in
    rw (load-set_active_provider_id p.id t c server)
      (rw valid (by_id-with_presets p.id ps ∙ rw found refl))

-- A new profile that passed the checks is found under its id in the loaded store, and is selected.
create-loads :
    (p : ProviderProfile) (t : Tab) (v : ProvidersView)
    → CanWrite t
    → is_preset_id p.id ≡ false
    → p.id ≢ "server"
    → active_profile (store_profile none p (t, v)).0 ≡ some p
unfolding store_profile
create-loads p t v c custom server =
    let r = edit_providers (save p) (t, v) in
    let stored = upsert_profile p t in
    let saved = (load-upsert_profile p t p.id c).0 in
    rw (edit_providers-tab (choose (some p.id)) r.0 r.1) (
      rw (edit_providers-tab (save p) t v) (
        active_profile-load (set_active_provider_id (some p.id) (load_provider_store stored).0)
        ∙ choose-active p (load_provider_store stored).0
            (CanWrite-load stored (CanWrite-upsert p t c)) server
            (rw (load_idem stored) (saved ∙ rw (eq_refl p.id, custom) refl))))

-- A filled-in form for a new provider, submitted in a tab that can be written: the next run is sent
-- with the key, the base URL, the formats and the model, if any, that were entered, without their
-- margins.
pub submit_provider-Sends :
    (new_id : String) (t : Tab) (v : ProvidersView) (f : FormState) (x : Entered)
    → CanWrite t
    → f.editing_profile_id ≡ none
    → entered_texts f.provider_form ≡ ok x
    → entry_error x ≡ none
    → (get_agent_provider_headers (submit_provider new_id ((t, v), f)).0.0).1
      ≡ ok (profile_headers x f.provider_form)
unfolding answer
submit_provider-Sends new_id t v f x c new h e =
    let id = profile_id none new_id in
    let p = profile_of id x f.provider_form in
    let after = (store_profile none p (t, v)).0 in
    let is_custom = new_id-IsCustom new_id in
    let entered = entered_texts-IsEntered f.provider_form x h e in
    let active = create-loads p t v c is_custom.0 is_custom.1 in
    let loaded = (load_provider_store after).0 in
    rw (submit_provider-stores new_id (t, v) f x h e, new)
      (rw
        (
          get_agent_provider_headers_lem after,
          active,
          readiness_of-profile_of id x f.provider_form loaded entered is_custom.0,
        )
        (headers_of-profile_of id _ x f.provider_form loaded entered is_custom.0))
