-- ===== src/Providers/Registry/Laws.antt =====
-- That `useProviders` shows what is stored, in every tab and after every call.
use fleet_agent.Base.{
  String, ◌≡◌, refl, sym, ap, ◌∙◌, Option, none, some, List, [], ◌∷◌, ◌&&◌, ltb, length, arith,
  Bool-cases, inl, inr, ◌⊎◌,
}
use fleet_agent.Browser.{Tab, Document, parsed, notify}
use fleet_agent.Providers.Profiles.{ProviderProfile, ProviderStore}
use fleet_agent.Providers.Profiles.Codec.{write_store, read_store-write_store}
use fleet_agent.Providers.Store.{
  load_document, load_valid, load_provider_store, save_provider_store, with_presets, get_profiles,
  get_active_provider_id, set_active_provider_id, upsert, upsert_profile, has_profile,
}
use fleet_agent.Providers.Store.Loading.{
  IsNormal, load-IsNormal, load_idem, load-save, load_of_readable, load_of_unreadable,
}
use fleet_agent.Providers.Store.Editing.{IsNormal-upsert}
use fleet_agent.Providers.Readiness.{get_provider_readiness}
use fleet_agent.Providers.Registry.{
  ProvidersView, read_providers, after_edit, Edit, choose, save, delete, edited, set_states,
  edit_providers, edit_all, provider_readiness, readiness,
}

-- What is shown of a store.
abbrev pub view_of : ProviderStore → ProvidersView
view_of s = record { profiles = with_presets s.profiles; active_provider_id = s.active_provider_id }

-- The view shows what loading gives.
abbrev pub Shows : Tab × ProvidersView → Type 0
Shows (t, v) = v ≡ view_of (load_provider_store t).1

pub read_providers_lem :
    (t : Tab) → read_providers t ≡ ((load_provider_store t).0, view_of (load_provider_store t).1)
unfolding read_providers get_profiles get_active_provider_id
read_providers_lem t =
    let shown : Tab × ProviderStore → Tab × ProvidersView = λ r. (
      r.0,
      record {
        profiles = with_presets (load_provider_store t).1.profiles;
        active_provider_id = r.1.active_provider_id;
      },
    ) in
    ap shown (load_idem t)

read_providers-Shows : (t : Tab) → Shows (read_providers t)
read_providers-Shows t = rw (read_providers_lem t) (rw (load_idem t))

load_document-profiles :
    (s : ProviderStore) (t : Tab)
    → (load_document (some (parsed (write_store s))) t).1.profiles ≡ s.profiles
unfolding load_document load_valid
load_document-profiles s t = rw (read_store-write_store s, load_document) refl

-- What loading finds after a save: the profiles that were saved, and the whole store if its selection
-- is normal; or, where the storage takes no write or cannot be read, what it found before.
loads_after_save :
    (s : ProviderStore) (t : Tab)
    → (((load_provider_store (save_provider_store s t)).1.profiles ≡ s.profiles)
        × (IsNormal s → (load_provider_store (save_provider_store s t)).1 ≡ s))
      ⊎ ((load_provider_store (save_provider_store s t)).1 ≡ (load_provider_store t).1)
unfolding save_provider_store notify
loads_after_save s t = elim (Bool-cases (t.window && t.local.readable)) [
  | inr e ↦ inr (
      ap (λ (r : Tab × ProviderStore). r.1)
        (load_of_unreadable (save_provider_store s t) (ground arith))
      ∙ sym (ap (λ (r : Tab × ProviderStore). r.1) (load_of_unreadable t e)))
  | inl e ↦ elim (Bool-cases (t.accepts_document (write_store s))) [
    | inl a ↦
        let written : (save_provider_store s t).document ≡ some (parsed (write_store s)) =
          ground arith in
        inl (
          ap (λ (r : Tab × ProviderStore). r.1.profiles)
                (load_of_readable (save_provider_store s t) (ground arith))
              ∙ ap (λ (d : Option Document). (load_document d (save_provider_store s t)).1.profiles)
                  written
              ∙ load_document-profiles s (save_provider_store s t),
          λ n.
              ap (λ (r : Tab × ProviderStore). r.1)
                (load-save s t
                  (record { window = ground arith; readable = ground arith; accepted = a }) n),
        )
    | inr a ↦ inr (ap (λ (u : Tab). (load_provider_store u).1) (ground arith))
  ]
]

-- The edits keep the profiles or the selection that the hook does not read again.
edited-loads :
    (s : ProviderStore) (t : Tab)
    → (s.profiles ≡ (load_provider_store t).1.profiles
        → (load_provider_store (save_provider_store s (load_provider_store t).0)).1.profiles
          ≡ (load_provider_store t).1.profiles)
      × (IsNormal s
          → s.active_provider_id ≡ (load_provider_store t).1.active_provider_id
          → (load_provider_store
              (save_provider_store s (load_provider_store t).0)).1.active_provider_id
            ≡ (load_provider_store t).1.active_provider_id)
edited-loads s t = elim (loads_after_save s (load_provider_store t).0) [
  | inl (ps, whole) ↦
      (λ e. ps ∙ e, λ n e. ap (λ (r : ProviderStore). r.active_provider_id) (whole n) ∙ e)
  | inr same ↦ (
    λ e.
        ap (λ (r : ProviderStore). r.profiles) same
        ∙ ap (λ (r : Tab × ProviderStore). r.1.profiles) (load_idem t),
    λ n e.
        ap (λ (r : ProviderStore). r.active_provider_id) same
        ∙ ap (λ (r : Tab × ProviderStore). r.1.active_provider_id) (load_idem t),
  )
]

-- Choosing a provider keeps the profiles that are loaded.
choose-keeps_profiles :
    (id : Option String) (t : Tab)
    → (load_provider_store (set_active_provider_id id t)).1.profiles
      ≡ (load_provider_store t).1.profiles
unfolding set_active_provider_id get_profiles
choose-keeps_profiles none t =
    (edited-loads (record (load_provider_store t).1 { active_provider_id = none }) t).0 refl
choose-keeps_profiles (some id) t =
    rw (load_idem t)
      (elim (Bool-cases (has_profile id (with_presets (load_provider_store t).1.profiles))) [
        | inl e ↦ rw e (
            (edited-loads (record (load_provider_store t).1 { active_provider_id = some id }) t).0
              refl)
        | inr e ↦ rw e (ap (λ (r : Tab × ProviderStore). r.1.profiles) (load_idem t))
      ])

-- Saving a profile keeps the selection that is loaded.
save-keeps_selection :
    (p : ProviderProfile) (t : Tab)
    → (load_provider_store (upsert_profile p t)).1.active_provider_id
      ≡ (load_provider_store t).1.active_provider_id
unfolding upsert_profile
save-keeps_selection p t =
    let s = (load_provider_store t).1 in
    (edited-loads (record s { profiles = upsert p s.profiles }) t).1
      (IsNormal-upsert p s (load-IsNormal t)) refl

-- The state that a call does not set already shows what is stored.
abbrev IsKept : Edit → Tab × ProvidersView → Type 0
IsKept (choose id) (t, v) = v.profiles ≡ with_presets (load_provider_store t).1.profiles
IsKept (save p) (t, v) = v.active_provider_id ≡ (load_provider_store t).1.active_provider_id
IsKept (delete id) s = Unit

view-IsKept : (e : Edit) (t : Tab) (v : ProvidersView) → Shows (t, v) → IsKept e (t, v)
view-IsKept (choose id) t v h = ap (λ (w : ProvidersView). w.profiles) h
view-IsKept (save p) t v h = ap (λ (w : ProvidersView). w.active_provider_id) h
view-IsKept (delete id) t v h = tt

edited-IsKept : (e : Edit) (t : Tab) (v : ProvidersView) → Shows (t, v) → IsKept e (edited e t, v)
edited-IsKept (choose id) t v h =
    ap (λ (w : ProvidersView). w.profiles) h ∙ ap with_presets (sym (choose-keeps_profiles id t))
edited-IsKept (save p) t v h =
    ap (λ (w : ProvidersView). w.active_provider_id) h ∙ sym (save-keeps_selection p t)
edited-IsKept (delete id) t v h = tt

after_edit-IsKept :
    (e : Edit) (t : Tab) (v : ProvidersView) → Shows (t, v) → IsKept e (after_edit t (edited e t) v)
unfolding after_edit
after_edit-IsKept e t v h = elim (Bool-cases (ltb (length t.calls) (length (edited e t).calls))) [
  | inl heard ↦ rw heard (
      view-IsKept e (read_providers (edited e t)).0 (read_providers (edited e t)).1
        (read_providers-Shows (edited e t)))
  | inr unheard ↦ rw unheard (edited-IsKept e t v h)
]

set_states-Shows :
    (e : Edit) (t : Tab) (v : ProvidersView) → IsKept e (t, v) → Shows (set_states e (t, v))
unfolding set_states get_active_provider_id get_profiles
set_states-Shows (choose id) t v k = rw (load_idem t, k) refl
set_states-Shows (save p) t v k = rw (load_idem t, k) refl
set_states-Shows (delete id) t v k = read_providers-Shows t

-- Whatever the storage does, a hook that shows what is stored still does after each of its calls.
edit_providers-Shows :
    (e : Edit) (t : Tab) (v : ProvidersView) → Shows (t, v) → Shows (edit_providers e (t, v))
unfolding edit_providers
edit_providers-Shows e t v h =
    let r = after_edit t (edited e t) v in set_states-Shows e r.0 r.1 (after_edit-IsKept e t v h)

edit_all-Shows :
    (es : List Edit) (t : Tab) (v : ProvidersView) → Shows (t, v) → Shows (edit_all es (t, v))
unfolding edit_all
edit_all-Shows [] t v h = h
edit_all-Shows (e ∷ es) t v h =
    let r = edit_providers e (t, v) in edit_all-Shows es r.0 r.1 (edit_providers-Shows e t v h)

pub readiness_of_Shows :
    (t : Tab) (v : ProvidersView) → Shows (t, v) → readiness (t, v) ≡ get_provider_readiness t
unfolding readiness provider_readiness get_provider_readiness get_profiles get_active_provider_id
readiness_of_Shows t v h = rw (load_idem t, ap (λ (w : ProvidersView). w.active_provider_id) h) refl

-- In any tab, from the first render on and after any sequence of the hook's calls, whether or not the
-- storage takes them and its listener runs, the readiness that the hook returns is the one that a run
-- is sent by.
pub edit_all-readiness :
    (es : List Edit) (t : Tab)
    → readiness (edit_all es (read_providers t))
      ≡ get_provider_readiness (edit_all es (read_providers t)).0
edit_all-readiness es t =
    let first = read_providers t in
    let last = edit_all es first in
    readiness_of_Shows last.0 last.1 (edit_all-Shows es first.0 first.1 (read_providers-Shows t))

set_states-tab :
    (e : Edit) (t : Tab) (v : ProvidersView) → (set_states e (t, v)).0 ≡ (load_provider_store t).0
unfolding set_states get_active_provider_id get_profiles
set_states-tab (choose id) t v = refl
set_states-tab (save p) t v = refl
set_states-tab (delete id) t v = ap (λ (r : Tab × ProvidersView). r.0) (read_providers_lem t)

after_edit-tab :
    (t u : Tab) (v : ProvidersView)
    → (load_provider_store (after_edit t u v).0).0 ≡ (load_provider_store u).0
unfolding after_edit
after_edit-tab t u v = elim (Bool-cases (ltb (length t.calls) (length u.calls))) [
  | inl heard ↦ rw heard (
      ap (λ (r : Tab × ProvidersView). (load_provider_store r.0).0) (read_providers_lem u)
      ∙ ap (λ (r : Tab × ProviderStore). r.0) (load_idem u))
  | inr unheard ↦ rw unheard refl
]

-- The tab that a call of the hook leaves: the call of the store, and one more loading.
pub edit_providers-tab :
    (e : Edit) (t : Tab) (v : ProvidersView)
    → (edit_providers e (t, v)).0 ≡ (load_provider_store (edited e t)).0
unfolding edit_providers
edit_providers-tab e t v =
    let r = after_edit t (edited e t) v in
    set_states-tab e r.0 r.1 ∙ after_edit-tab t (edited e t) v
