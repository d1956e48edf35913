-- ===== src/Providers/Readiness/Active.antt =====
-- `getProviderReadiness` and `getAgentProviderHeaders` in terms of the loaded store.
use fleet_agent.Base.{
  ◌≡◌, refl, ◌∙◌, not, Option, none, some, find, Result, ok, err, if◌then◌else◌, arith,
}
use fleet_agent.Json.{Json, null, str}
use fleet_agent.Browser.{Tab}
use fleet_agent.Providers.Profiles.{ProviderProfile}
use fleet_agent.Providers.Store.{
  get_profiles, get_active_provider_id, get_active_profile, is_named, load_provider_store,
  with_presets,
}
use fleet_agent.Providers.Store.Loading.{load_idem, get_active_profile-find}
use fleet_agent.Providers.Readiness.{
  ProviderError, provider_not_ready, ProviderReadiness, Headers, readiness_of,
  get_provider_readiness, headers_of, ready_headers, get_agent_provider_headers,
}

-- The profile that the loaded selection names.
abbrev pub active_profile : Tab → Option ProviderProfile
active_profile t =
    find (is_named (load_provider_store t).1.active_provider_id)
      (with_presets (load_provider_store t).1.profiles)

pub get_provider_readiness_lem :
    (t : Tab)
    → get_provider_readiness t
      ≡ ((load_provider_store t).0, readiness_of (active_profile t) (load_provider_store t).0)
unfolding get_provider_readiness get_active_provider_id get_profiles
get_provider_readiness_lem t = rw (load_idem t)

pub active_profile-load : (t : Tab) → active_profile (load_provider_store t).0 ≡ active_profile t
active_profile-load t = rw (load_idem t)

get_active_profile-load :
    (t : Tab)
    → get_active_profile (load_provider_store t).0 ≡ ((load_provider_store t).0, active_profile t)
get_active_profile-load t = get_active_profile-find (load_provider_store t).0 ∙ rw (load_idem t)

-- `getAgentProviderHeaders` on the readiness and the profile that were found
unfoldable pub answer :
    Result ProviderError ProviderReadiness
    → Option ProviderProfile
    → Tab
    → Result ProviderError Headers
answer (err e) o t = err e
answer (ok r) o t =
    if not r.ready then err (provider_not_ready r.message) else headers_of o r.message t

ready_headers_lem :
    (r : Result ProviderError ProviderReadiness) (t : Tab)
    → ready_headers r (load_provider_store t).0
      ≡ ((load_provider_store t).0, answer r (active_profile t) (load_provider_store t).0)
unfolding ready_headers answer
ready_headers_lem (err e) t = refl
ready_headers_lem (ok r) t = rw (get_active_profile-load t) (ground arith)

pub get_agent_provider_headers_lem :
    (t : Tab)
    → get_agent_provider_headers t ≡ (
      (load_provider_store t).0,
      answer
          (readiness_of (active_profile t) (load_provider_store t).0)
          (active_profile t)
          (load_provider_store t).0,
    )
unfolding get_agent_provider_headers
get_agent_provider_headers_lem t =
    rw (get_provider_readiness_lem t)
      (ready_headers_lem (readiness_of (active_profile t) (load_provider_store t).0) t)

-- The optional fields of a profile, as the types of the source have them.
abbrev pub IsText : Option Json → Type 0
IsText none = Unit
IsText (some null) = Unit
IsText (some (str s)) = Unit
IsText (some _) = ⊥

pub record IsTyped (p : ProviderProfile) : Type 0 where
  pub base_url : IsText p.base_url
  pub api_key : IsText p.api_key
  pub model_id : IsText p.model_id
