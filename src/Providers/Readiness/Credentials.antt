-- ===== src/Providers/Readiness/Credentials.antt =====
-- Which credentials go with a run.
use fleet_agent.Base.{
  String, ◌≡◌, ◌≢◌, refl, ap, sym, ◌∙◌, Option, none, some, ◌==◌, trim, Result, ok, err, >>=-eq-ok,
  eq_iff, arith, Bool-cases, inl, inr,
}
use fleet_agent.Json.{Json, str}
use fleet_agent.Browser.{Tab, lookup}
use fleet_agent.Providers.Auth.{Config, get_api_key}
use fleet_agent.Providers.OpenRouter
use fleet_agent.Providers.OpenCodeZen
use fleet_agent.Providers.Profiles.{
  ProviderProfile, openrouter_profile_id, opencode_zen_profile_id, openrouter_base_url,
  opencode_zen_base_url,
}
use fleet_agent.Providers.Store.{load_provider_store}
use fleet_agent.Providers.Store.Loading.{load-keeps}
use fleet_agent.Providers.Readiness.{
  ProviderError, ProviderReadiness, Headers, trimmed, trimmed!, readiness_of, preset_headers,
  custom_headers, headers_of, get_agent_provider_headers,
}
use fleet_agent.Providers.Readiness.Active.{active_profile, answer, get_agent_provider_headers_lem}

-- The credentials that go with a profile.
pub data Owns (p : ProviderProfile) (t : Tab) (hs : Headers) : Type 0 where
  from_openrouter :
      p.id ≡ openrouter_profile_id
      → lookup "X-LLM-Base-Url" hs ≡ some openrouter_base_url
      → lookup "X-LLM-Key" hs ≡ get_api_key OpenRouter.config t
      → Owns p t hs
  from_opencode_zen :
      p.id ≡ opencode_zen_profile_id
      → lookup "X-LLM-Base-Url" hs ≡ some opencode_zen_base_url
      → lookup "X-LLM-Key" hs ≡ get_api_key OpenCodeZen.config t
      → Owns p t hs
  from_profile :
      (k b : String)
      → p.id ≢ openrouter_profile_id
      → p.id ≢ opencode_zen_profile_id
      → p.api_key ≡ some (str k)
      → p.base_url ≡ some (str b)
      → lookup "X-LLM-Key" hs ≡ some (trim k)
      → lookup "X-LLM-Base-Url" hs ≡ some (trim b)
      → Owns p t hs

trimmed!-eq-ok :
    (v : Option Json) {k : String}
    → trimmed! v ≡ ok k
    → (s : String) × (v ≡ some (str s)) × (trim s ≡ k)
unfolding trimmed!
trimmed!-eq-ok (some (str s)) h = (s, refl, cc)
trimmed!-eq-ok (some _) h = cc
trimmed!-eq-ok none h = cc

custom_headers-own :
    (p : ProviderProfile) (hs : Headers)
    → custom_headers p ≡ ok hs
    → (k : String) × (b : String) × (p.api_key ≡ some (str k))
      × (p.base_url ≡ some (str b))
      × (lookup "X-LLM-Key" hs ≡ some (trim k))
      × (lookup "X-LLM-Base-Url" hs ≡ some (trim b))
unfolding custom_headers lookup
custom_headers-own p hs h =
    let (key, is_key, h1) = >>=-eq-ok (trimmed! p.api_key) _ h in
    let (base, is_base, h2) = >>=-eq-ok (trimmed! p.base_url) _ h1 in
    let (model, is_model, h3) = >>=-eq-ok (trimmed p.model_id) _ h2 in
    let (k, at_k, same_k) = trimmed!-eq-ok p.api_key is_key in
    let (b, at_b, same_b) = trimmed!-eq-ok p.base_url is_base in
    (k, b, at_k, at_b, ground arith, ground arith)

preset_headers-own :
    (c : Config) (base : String) (p : ProviderProfile) (m : String) (t : Tab) (hs : Headers)
    → preset_headers c base p m t ≡ ok hs
    → (lookup "X-LLM-Base-Url" hs ≡ some base) × (lookup "X-LLM-Key" hs ≡ get_api_key c t)
unfolding preset_headers lookup
preset_headers-own c base p m t hs h = ground arith

get_api_key-load :
    (c : Config) (t : Tab) → get_api_key c (load_provider_store t).0 ≡ get_api_key c t
unfolding get_api_key
get_api_key-load c t = rw ((load-keeps t).0, (load-keeps t).1)

headers_of-Owns :
    (p : ProviderProfile) (m : String) (t : Tab) (hs : Headers)
    → headers_of (some p) m (load_provider_store t).0 ≡ ok hs
    → Owns p t hs
unfolding headers_of
headers_of-Owns p m t hs h =
    let t' = (load_provider_store t).0 in
    elim (Bool-cases (p.id == openrouter_profile_id)) [
      | inl is ↦
          let (base, key) =
            preset_headers-own OpenRouter.config openrouter_base_url p m t' hs (rw is at h) in
          from_openrouter ((eq_iff _ _).0 is) base (key ∙ get_api_key-load OpenRouter.config t)
      | inr isnt ↦ elim (Bool-cases (p.id == opencode_zen_profile_id)) [
        | inl is ↦
            let (base, key) =
              preset_headers-own OpenCodeZen.config opencode_zen_base_url p m t' hs
                (rw is at (rw isnt at h)) in
            from_opencode_zen ((eq_iff _ _).0 is) base (key ∙ get_api_key-load OpenCodeZen.config t)
        | inr isnt' ↦
            let (k, b, at_k, at_b, key, base) =
              custom_headers-own p hs (rw isnt' at (rw isnt at h)) in
            from_profile k b (ground (arith, eq_iff p.id openrouter_profile_id))
              (ground (arith, eq_iff p.id opencode_zen_profile_id)) at_k at_b key base
      ]
    ]

answer-eq-ok :
    (r : Result ProviderError ProviderReadiness) (o : Option ProviderProfile) (t : Tab)
    (hs : Headers)
    → answer r o t ≡ ok hs
    → (p : ProviderProfile) × (m : String) × (o ≡ some p) × (headers_of (some p) m t ≡ ok hs)
unfolding answer
answer-eq-ok (err e) o t hs h = cc
answer-eq-ok (ok r) none t hs h = absurd (unfold headers_of in ground arith)
answer-eq-ok (ok r) (some p) t hs h = (p, r.message, refl, ground arith)

-- Headers that are sent belong to the active profile: a preset's key, which is kept apart, goes only
-- to the preset's own base URL, and a custom profile sends its own key to its own base URL.
pub headers-Owns :
    (t : Tab) (hs : Headers)
    → (get_agent_provider_headers t).1 ≡ ok hs
    → (p : ProviderProfile) × (active_profile t ≡ some p) × Owns p t hs
headers-Owns t hs h =
    let o = active_profile t in
    let t' = (load_provider_store t).0 in
    let (p, m, found, own) = answer-eq-ok (readiness_of o t') o t' hs (
      ap (λ (x : Tab × Result ProviderError Headers). x.1) (sym (get_agent_provider_headers_lem t))
      ∙ h) in
    (p, found, headers_of-Owns p m t hs own)
