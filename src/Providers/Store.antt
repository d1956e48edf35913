-- ===== src/Providers/Store.antt =====
-- providers-store.ts: loading, saving, selecting and editing profiles. A function that reads the
-- store may write a normalised copy of it, so it returns the tab too.
pub mod Loading
pub mod Lookup
pub mod Editing
use fleet_agent.Base.{
  ℕ, String, Bool, true, false, not, Option, none, some, List, [], ◌∷◌, ◌++◌, ◌==◌, ◌||◌, ◌&&◌, any,
  find, keep, map, if◌then◌else◌,
}
use fleet_agent.Json.{Json, null, str}
use fleet_agent.Browser.{Tab, Document, unparsable, parsed, notify, subscribe, unsubscribe}
use fleet_agent.Providers.Auth.{on_auth_change, off_auth_change}
use fleet_agent.Providers.OpenRouter
use fleet_agent.Providers.OpenCodeZen
use fleet_agent.Providers.Profiles.{
  ProviderProfile, ProviderStore, StoredProviderStore, providers_storage_key, openrouter_profile_id,
  opencode_zen_profile_id, openrouter_profile, opencode_zen_profile, default_store, is_preset_id,
  build_preset_profile,
}
use fleet_agent.Providers.Profiles.Codec.{read_store, write_store}

-- `onProvidersChange`: the listener hears this module and both key modules
unfoldable pub on_providers_change : ℕ → Tab → Tab
on_providers_change fn t =
    on_auth_change OpenCodeZen.config fn
      (on_auth_change OpenRouter.config fn (subscribe providers_storage_key fn t))

-- what `onProvidersChange` returns
unfoldable pub off_providers_change : ℕ → Tab → Tab
off_providers_change fn t =
    off_auth_change OpenCodeZen.config fn
      (off_auth_change OpenRouter.config fn (unsubscribe providers_storage_key fn t))

-- the module's handler of `storage` events
unfoldable pub on_storage_event : Option String → Tab → Tab
on_storage_event none t = notify providers_storage_key t
on_storage_event (some key) t =
    if key == providers_storage_key then notify providers_storage_key t else t

unfoldable pub has_profile : String → List ProviderProfile → Bool
has_profile id ps = any (λ p. p.id == id) ps

-- `validIds.has(id)`
unfoldable pub is_valid_id : String → List ProviderProfile → Bool
unfolding has_profile
is_valid_id id ps = is_preset_id id || has_profile id ps

unfoldable pub normal_selection : List ProviderProfile → Option Json → Option String
unfolding is_valid_id
normal_selection ps (some (str s)) =
    if not (s == "server") && is_valid_id s ps then some s else none
normal_selection ps _ = none

-- `activeProviderId === parsed.activeProviderId`
unfoldable pub is_selection : Option String → Option Json → Bool
is_selection none (some null) = true
is_selection (some s) (some (str r)) = s == r
is_selection _ _ = false

-- `localStorage.setItem` of the store, with its failure ignored
unfoldable pub write_document : ProviderStore → Tab → Tab
write_document s t =
    if t.accepts_document (write_store s)
    then record t { document = some (parsed (write_store s)) }
    else t

-- the branch of `loadProviderStore` for a store that passed `isValidStore`
unfoldable pub load_valid : StoredProviderStore → Tab → Tab × ProviderStore
unfolding normal_selection is_selection write_document
load_valid stored t =
    let active = normal_selection stored.profiles stored.active_provider_id in
    let store : ProviderStore = record {
      profiles = stored.profiles;
      active_provider_id = active;
    } in
    (if is_selection active stored.active_provider_id then t else write_document store t, store)

unfoldable pub load_document : Option Document → Tab → Tab × ProviderStore
unfolding load_valid write_document
load_document none t = (write_document default_store t, default_store)
load_document (some unparsable) t = (t, default_store)
load_document (some (parsed j)) t = elim (read_store j) [
  | none ↦ (t, default_store)
  | some stored ↦ load_valid stored t
]

unfoldable pub load_provider_store : Tab → Tab × ProviderStore
load_provider_store t =
    if t.window && t.local.readable then load_document t.document t else (t, default_store)

unfoldable pub save_provider_store : ProviderStore → Tab → Tab
save_provider_store s t =
    if t.window && t.accepts_document (write_store s)
    then notify providers_storage_key (record t { document = some (parsed (write_store s)) })
    else t

-- `getProfiles`, on the profiles that were loaded
unfoldable pub with_presets : List ProviderProfile → List ProviderProfile
with_presets stored =
    let first =
      (if has_profile openrouter_profile_id stored then stored else openrouter_profile ∷ stored) in
    if has_profile opencode_zen_profile_id first then first else first ++ opencode_zen_profile ∷ []

unfoldable pub get_profiles : Tab → Tab × List ProviderProfile
get_profiles t = let (t', store) = load_provider_store t in (t', with_presets store.profiles)

unfoldable pub get_active_provider_id : Tab → Tab × Option String
get_active_provider_id t = let (t', store) = load_provider_store t in (t', store.active_provider_id)

abbrev pub is_named : Option String → ProviderProfile → Bool
is_named none p = false
is_named (some id) p = p.id == id

-- The search of `getActiveProfile`, which loads the selection anew for every profile it tests.
unfoldable pub find_active : List ProviderProfile → Tab → Tab × Option ProviderProfile
find_active [] t = (t, none)
find_active (p ∷ ps) t =
    let (t', id) = get_active_provider_id t in
    let rest = find_active ps t' in if is_named id p then (t', some p) else rest

unfoldable pub get_active_profile : Tab → Tab × Option ProviderProfile
get_active_profile t = let (t', ps) = get_profiles t in find_active ps t'

unfoldable pub set_active_provider_id : Option String → Tab → Tab
set_active_provider_id none t =
    let (t', store) = load_provider_store t in
    save_provider_store (record store { active_provider_id = none }) t'
set_active_provider_id (some id) t =
    let (t', store) = load_provider_store t in
    let (t'', ps) = get_profiles t' in
    if has_profile id ps
    then save_provider_store (record store { active_provider_id = some id }) t''
    else t''

-- the profiles with those of this id replaced
unfoldable pub replace_profile :
    String → ProviderProfile → List ProviderProfile → List ProviderProfile
replace_profile id p [] = []
replace_profile id p (q ∷ qs) = (if q.id == id then p else q) ∷ replace_profile id p qs

unfoldable pub upsert : ProviderProfile → List ProviderProfile → List ProviderProfile
upsert p ps =
    if is_preset_id p.id
    then (let preset = build_preset_profile p.id p in
        if has_profile p.id ps then replace_profile p.id preset ps else preset ∷ ps)
    else if has_profile p.id ps
    then replace_profile p.id p ps
    else ps ++ p ∷ []

unfoldable pub upsert_profile : ProviderProfile → Tab → Tab
upsert_profile p t =
    let (t', store) = load_provider_store t in
    save_provider_store (record store { profiles = upsert p store.profiles }) t'

-- the selection after a profile is gone
unfoldable pub deselect : String → Option String → Option String
deselect id none = none
deselect id (some active) = if active == id then none else some active

unfoldable pub remove_profile : String → Tab → Tab
remove_profile id t =
    if is_preset_id id
    then t
    else (let (t', store) = load_provider_store t in
        save_provider_store
          (record {
            profiles = keep (λ p. not (p.id == id)) store.profiles;
            active_provider_id = deselect id store.active_provider_id;
          })
          t')
