-- ===== src/Providers/Store/Editing.antt =====
-- What the edits of the profile list do, as a later reader of the profiles sees it.
use fleet_agent.Base.{
  String, ◌≡◌, ◌≢◌, refl, ◌∙◌, ap, true, false, not, Option, none, some, List, [], ◌∷◌, ◌==◌,
  eq_iff, eq_refl, arith, Bool-cases, inl, inr, keep, if◌then◌else◌,
}
use fleet_agent.Browser.{Tab, TextStore}
use fleet_agent.Providers.Profiles.{
  ProviderProfile, ProviderStore, is_preset_id, openrouter_profile_id, openrouter_profile,
  opencode_zen_profile, build_preset_profile,
}
use fleet_agent.Providers.Profiles.Codec.{write_store, nullable}
use fleet_agent.Providers.Store.{
  has_profile, is_valid_id, normal_selection, load_provider_store, with_presets, get_profiles,
  set_active_provider_id, upsert, upsert_profile, deselect, remove_profile,
}
use fleet_agent.Providers.Store.Loading.{
  IsNormal, CanSave, load-save, load-keeps, load_idem, load-IsNormal,
}
use fleet_agent.Providers.Store.Lookup.{
  by_id, has_profile-eq-by_id, canonical, by_id-upsert, preset, by_id-with_presets,
}

-- A tab in which the store can be read and written.
pub record CanWrite (t : Tab) : Type 0 where
  pub window : t.window ≡ true
  pub readable : t.local.readable ≡ true
  pub accepted : (s : ProviderStore) → t.accepts_document (write_store s) ≡ true

CanSave-load : (s : ProviderStore) (t : Tab) → CanWrite t → CanSave s (load_provider_store t).0
CanSave-load s t c =
    let k = load-keeps t in
    record {
      window = k.0 ∙ c.window;
      readable = ap (λ (l : TextStore). l.readable) k.1 ∙ c.readable;
      accepted = rw (k.4) (c.accepted s);
    }

IsNormal-of_superset :
    (ps qs : List ProviderProfile) (active : Option String)
    → normal_selection ps (some (nullable active)) ≡ active
    → ((id : String) → has_profile id ps ≡ true → has_profile id qs ≡ true)
    → normal_selection qs (some (nullable active)) ≡ active
unfolding normal_selection
IsNormal-of_superset ps qs none n h = refl
IsNormal-of_superset ps qs (some id) n h = ground (arith, h id)

has_profile-upsert :
    (id : String) (p : ProviderProfile) (ps : List ProviderProfile)
    → has_profile id ps ≡ true
    → has_profile id (upsert p ps) ≡ true
has_profile-upsert id p ps h =
    ground (
      arith,
      has_profile-eq-by_id id ps,
      has_profile-eq-by_id id (upsert p ps),
      by_id-upsert id p ps,
    )

pub IsNormal-upsert :
    (p : ProviderProfile) (s : ProviderStore)
    → IsNormal s
    → IsNormal (record s { profiles = upsert p s.profiles })
IsNormal-upsert p s n =
    IsNormal-of_superset s.profiles (upsert p s.profiles) s.active_provider_id n
      (λ k h. has_profile-upsert k p s.profiles h)

-- Saving an upsert and loading again: the canonical profile is found under its id, every other
-- profile as before, and the selection stays.
pub load-upsert_profile :
    (p : ProviderProfile) (t : Tab) (id : String)
    → CanWrite t
    → (by_id id (load_provider_store (upsert_profile p t)).1.profiles
        ≡ (if p.id == id then some (canonical p) else by_id id (load_provider_store t).1.profiles))
      × ((load_provider_store (upsert_profile p t)).1.active_provider_id
          ≡ (load_provider_store t).1.active_provider_id)
unfolding upsert_profile
load-upsert_profile p t id c =
    let s = (load_provider_store t).1 in
    let s' = record s { profiles = upsert p s.profiles } in
    let loaded =
      load-save s' (load_provider_store t).0 (CanSave-load s' t c)
        (IsNormal-upsert p s (load-IsNormal t)) in
    rw loaded (by_id-upsert id p s.profiles, refl)

-- Whatever override is saved for a preset, the profile that is loaded under its id has the preset's
-- own name and base URL.
upsert_profile-keeps_preset :
    (p q : ProviderProfile) (t : Tab)
    → CanWrite t
    → is_preset_id p.id ≡ true
    → by_id p.id (load_provider_store (upsert_profile p t)).1.profiles ≡ some q
    → (r : ProviderProfile) × (preset p.id ≡ some r)
      × (q.id ≡ r.id)
      × (q.name ≡ r.name)
      × (q.base_url ≡ r.base_url)
unfolding build_preset_profile
upsert_profile-keeps_preset p q t c h e =
    let saved = (load-upsert_profile p t p.id c).0 in
    elim (Bool-cases (p.id == openrouter_profile_id)) [
      | inl is ↦ (
        openrouter_profile,
        rw is,
        ground (arith, eq_refl p.id),
        ground (arith, eq_refl p.id),
        ground (arith, eq_refl p.id),
      )
      | inr isnt ↦ (
        opencode_zen_profile,
        ground arith,
        ground (arith, eq_refl p.id),
        ground (arith, eq_refl p.id),
        ground (arith, eq_refl p.id),
      )
    ]

by_id-keep :
    (id k : String) (ps : List ProviderProfile)
    → by_id id (keep (λ p. not (p.id == k)) ps) ≡ (if k == id then none else by_id id ps)
by_id-keep id k [] = ground arith
by_id-keep id k (p ∷ ps) =
    ground (arith, by_id-keep id k ps, eq_iff p.id k, eq_iff p.id id, eq_iff k id)

is_valid_id-others :
    (id k : String) (ps : List ProviderProfile)
    → (k == id) ≡ false
    → is_valid_id id (keep (λ p. not (p.id == k)) ps) ≡ is_valid_id id ps
unfolding is_valid_id
is_valid_id-others id k ps h =
    let others = keep (λ (p : ProviderProfile). not (p.id == k)) ps in
    ground (arith, has_profile-eq-by_id id others, has_profile-eq-by_id id ps, by_id-keep id k ps)

is_valid_id-with_presets :
    (id : String) (ps : List ProviderProfile) → has_profile id (with_presets ps) ≡ is_valid_id id ps
unfolding is_valid_id
is_valid_id-with_presets id ps = ground (
  arith,
  has_profile-eq-by_id id (with_presets ps),
  has_profile-eq-by_id id ps,
  by_id-with_presets id ps,
)

IsNormal-remove :
    (k : String) (ps : List ProviderProfile) (active : Option String)
    → normal_selection ps (some (nullable active)) ≡ active
    → normal_selection (keep (λ p. not (p.id == k)) ps) (some (nullable (deselect k active)))
      ≡ deselect k active
unfolding normal_selection deselect
IsNormal-remove k ps none n = refl
IsNormal-remove k ps (some id) n =
    let others = keep (λ (p : ProviderProfile). not (p.id == k)) ps in
    elim (Bool-cases (id == k)) [
      | inl same ↦ rw same
      | inr differ ↦
          rw (differ, normal_selection)
            (ground (arith, is_valid_id-others id k ps, eq_iff id k, eq_iff k id))
    ]

-- Removing a custom profile and loading again: no profile is found under its id, every other one as
-- before, and the selection is cleared if it was this profile and stays otherwise.
pub load-remove_profile :
    (k : String) (t : Tab) (id : String)
    → CanWrite t
    → is_preset_id k ≡ false
    → (by_id id (load_provider_store (remove_profile k t)).1.profiles
        ≡ (if k == id then none else by_id id (load_provider_store t).1.profiles))
      × ((load_provider_store (remove_profile k t)).1.active_provider_id
          ≡ deselect k (load_provider_store t).1.active_provider_id)
unfolding remove_profile
load-remove_profile k t id c h =
    let s = (load_provider_store t).1 in
    let s' : ProviderStore = record {
      profiles = keep (λ p. not (p.id == k)) s.profiles;
      active_provider_id = deselect k s.active_provider_id;
    } in
    let loaded =
      load-save s' (load_provider_store t).0 (CanSave-load s' t c)
        (IsNormal-remove k s.profiles s.active_provider_id (load-IsNormal t)) in
    rw h (rw loaded (by_id-keep id k s.profiles, refl))

-- Removing a preset changes nothing.
remove_profile-preset : (k : String) (t : Tab) → is_preset_id k ≡ true → remove_profile k t ≡ t
unfolding remove_profile
remove_profile-preset k t h = rw h

IsNormal-selected :
    (id : String) (ps : List ProviderProfile)
    → id ≢ "server"
    → is_valid_id id ps ≡ true
    → normal_selection ps (some (nullable (some id))) ≡ some id
unfolding normal_selection
IsNormal-selected id ps h v = ground (arith, eq_iff id "server")

-- Selecting a listed profile that is not named "server" and loading again gives that selection;
-- selecting an unlisted one leaves what loading left.
pub load-set_active_provider_id :
    (id : String) (t : Tab)
    → CanWrite t
    → id ≢ "server"
    → (load_provider_store (set_active_provider_id (some id) t)).1 ≡ (
        if is_valid_id id (load_provider_store t).1.profiles
        then (record {
          profiles = (load_provider_store t).1.profiles;
          active_provider_id = some id;
        })
        else (load_provider_store t).1)
unfolding set_active_provider_id get_profiles
load-set_active_provider_id id t c h =
    let s = (load_provider_store t).1 in
    let s' = record s { active_provider_id = some id } in
    rw (load_idem t, is_valid_id-with_presets id s.profiles)
      (elim (Bool-cases (is_valid_id id s.profiles)) [
        | inl valid ↦ rw valid (
            ap (λ (r : Tab × ProviderStore). r.1)
              (load-save s' (load_provider_store t).0 (CanSave-load s' t c)
                (IsNormal-selected id s.profiles h valid)))
        | inr unknown ↦ rw unknown (ap (λ (r : Tab × ProviderStore). r.1) (load_idem t))
      ])
