-- ===== src/Providers/Registry.antt =====
-- use-providers.ts: what a mounted `useProviders` shows, beside the tab that its calls change.
pub mod Laws
mod Tests
use fleet_agent.Base.{
  ℕ, String, Option, none, some, List, [], ◌∷◌, find, ltb, length, Result, if◌then◌else◌,
}
use fleet_agent.Browser.{Tab}
use fleet_agent.Providers.Profiles.{ProviderProfile}
use fleet_agent.Providers.Store.{
  get_profiles, get_active_provider_id, set_active_provider_id, upsert_profile, remove_profile,
  is_named,
}
use fleet_agent.Providers.Readiness.{ProviderError, ProviderReadiness, readiness_of}

pub record ProvidersView : Type 0 where
  pub profiles : List ProviderProfile
  pub active_provider_id : Option String

-- Reading both states: the first render, and `syncState`, the hook's listener.
unfoldable pub read_providers : Tab → Tab × ProvidersView
read_providers t =
    let (t', ps) = get_profiles t in
    let (t'', id) = get_active_provider_id t' in
    (t'', record { profiles = ps; active_provider_id = id })

-- The listener runs when a call has notified, which the tab has recorded.
unfoldable pub after_edit : Tab → Tab → ProvidersView → Tab × ProvidersView
unfolding read_providers
after_edit before t v =
    if ltb (length before.calls) (length t.calls) then read_providers t else (t, v)

pub data Edit : Type 0 where
  choose : Option String → Edit
  save : ProviderProfile → Edit
  delete : String → Edit

-- the call of the store
abbrev pub edited : Edit → Tab → Tab
edited (choose id) t = set_active_provider_id id t
edited (save p) t = upsert_profile p t
edited (delete id) t = remove_profile id t

-- the states that the call sets itself
unfoldable pub set_states : Edit → Tab × ProvidersView → Tab × ProvidersView
unfolding read_providers
set_states (choose _) (t, v) =
    let (t', id) = get_active_provider_id t in (t', record v { active_provider_id = id })
set_states (save _) (t, v) = let (t', ps) = get_profiles t in (t', record v { profiles = ps })
set_states (delete _) (t, v) = read_providers t

unfoldable pub edit_providers : Edit → Tab × ProvidersView → Tab × ProvidersView
edit_providers e (t, v) = set_states e (after_edit t (edited e t) v)

-- any sequence of calls
unfoldable pub edit_all : List Edit → Tab × ProvidersView → Tab × ProvidersView
edit_all [] s = s
edit_all (e ∷ es) s = edit_all es (edit_providers e s)

-- `getProviderReadiness(id)`
unfoldable pub provider_readiness :
    Option String → Tab → Tab × Result ProviderError ProviderReadiness
provider_readiness id t =
    let (t', ps) = get_profiles t in (t', readiness_of (find (is_named id) ps) t')

-- the `readiness` that the hook returns
unfoldable pub readiness : Tab × ProvidersView → Tab × Result ProviderError ProviderReadiness
readiness (t, v) = provider_readiness v.active_provider_id t
