-- ===== src/Providers/Readiness/Agreement.antt =====
-- When a run may be sent, as the readiness says and as the headers have it.
use fleet_agent.Base.{
  String, nonempty_of_trim, ◌≡◌, refl, false, Option, none, some, ◌==◌, trim, is_empty, Result, ok,
  err, Bool-cases, ◌⊎◌, inl, inr,
}
use fleet_agent.Json.{Json, null, str}
use fleet_agent.Browser.{Tab}
use fleet_agent.Providers.Auth.{Config, get_api_key}
use fleet_agent.Providers.OpenRouter
use fleet_agent.Providers.OpenCodeZen
use fleet_agent.Providers.Profiles.{
  ProviderProfile, openrouter_profile_id, opencode_zen_profile_id, openrouter_base_url,
  opencode_zen_base_url,
}
use fleet_agent.Providers.Store.{load_provider_store}
use fleet_agent.Providers.Readiness.{
  ProviderError, provider_not_ready, type_error, ProviderReadiness, Headers, trimmed, trimmed!,
  as_json, key_of, readiness_of, needs_setup, is_ready, choose_message, get_provider_readiness,
  preset_headers, custom_headers, headers_of, get_agent_provider_headers,
}
use fleet_agent.Providers.Readiness.Active.{
  active_profile, get_provider_readiness_lem, answer, get_agent_provider_headers_lem, IsText,
  IsTyped,
}

-- How the headers and the readiness of one tab go together.
pub data Agree (r : Result ProviderError ProviderReadiness)
    : Result ProviderError Headers → Type 0 where
  both_ready : (hs : Headers) → r ≡ ok is_ready → Agree r (ok hs)
  both_unready :
      (m : String)
      → r ≡ ok (record { ready = false; message = m })
      → Agree r (err (provider_not_ready m))

-- What `?.trim()` gives on a typed value.
trimmed_cases :
    (v : Option Json)
    → IsText v
    → (trimmed v ≡ ok none) ⊎ ((s : String) × (v ≡ some (str s)) × (trimmed v ≡ ok (some (trim s))))
unfolding trimmed
trimmed_cases none h = inl refl
trimmed_cases (some null) h = inl refl
trimmed_cases (some (str s)) h = inr (s, refl, refl)
trimmed_cases (some _) h = absurd h

as_json-IsText : (o : Option String) → IsText (as_json o)
as_json-IsText none = tt
as_json-IsText (some s) = tt

key_of-IsText : (p : ProviderProfile) (t : Tab) → IsText p.api_key → IsText (key_of p t)
unfolding key_of
key_of-IsText p t h = elim (Bool-cases (p.id == openrouter_profile_id)) [
  | inl is ↦ rw is (as_json-IsText (get_api_key OpenRouter.config t))
  | inr isnt ↦ rw isnt (elim (Bool-cases (p.id == opencode_zen_profile_id)) [
    | inl is ↦ rw is (as_json-IsText (get_api_key OpenCodeZen.config t))
    | inr isnt' ↦ rw isnt' h
  ])
]

-- Both credentials of a ready profile.
abbrev HasBoth : ProviderProfile → Tab → Type 0
HasBoth p t =
    (k : String) × (b : String) × (key_of p t ≡ some (str k))
    × (p.base_url ≡ some (str b))
    × (is_empty (trim k) ≡ false)

-- A typed profile is ready with both credentials, or it needs setup.
readiness_cases :
    (p : ProviderProfile) (t : Tab)
    → IsTyped p
    → (readiness_of (some p) t ≡ ok (needs_setup p))
      ⊎ ((readiness_of (some p) t ≡ ok is_ready) × HasBoth p t)
unfolding readiness_of
readiness_cases p t h = elim (trimmed_cases (key_of p t) (key_of-IsText p t h.api_key)) [
  | inl e ↦ inl (rw e)
  | inr (k, at_k, e) ↦ elim (Bool-cases (is_empty (trim k))) [
    | inl blank ↦ inl (rw e (rw blank))
    | inr full ↦ elim (trimmed_cases p.base_url h.base_url) [
      | inl e' ↦ inl (rw e (rw full (rw e')))
      | inr (b, at_b, e') ↦ elim (Bool-cases (is_empty (trim b))) [
        | inl blank ↦ inl (rw e (rw full (rw e' (rw blank))))
        | inr full' ↦ inr (rw e (rw full (rw e' (rw full'))), (k, b, at_k, at_b, full))
      ]
    ]
  ]
]

as_json-eq_str : (o : Option String) (k : String) → as_json o ≡ some (str k) → o ≡ some k
as_json-eq_str none k h = cc
as_json-eq_str (some s) k h = cc

preset_headers_total :
    (c : Config) (base : String) (p : ProviderProfile) (m k : String) (t : Tab)
    → as_json (get_api_key c t) ≡ some (str k)
    → is_empty (trim k) ≡ false
    → (hs : Headers) × (preset_headers c base p m t ≡ ok hs)
unfolding preset_headers
preset_headers_total c base p m k t h full =
    let at = as_json-eq_str (get_api_key c t) k h in
    rw (at, preset_headers) (rw (nonempty_of_trim k full) (_, refl))

custom_headers_total :
    (p : ProviderProfile) (k b : String)
    → IsText p.model_id
    → p.api_key ≡ some (str k)
    → p.base_url ≡ some (str b)
    → (hs : Headers) × (custom_headers p ≡ ok hs)
unfolding custom_headers trimmed!
custom_headers_total p k b h at_k at_b =
    rw (at_k, trimmed!)
      (rw (at_b, trimmed!)
        (elim (trimmed_cases p.model_id h) [
          | inl e ↦ rw e (_, refl)
          | inr (s, _, e) ↦ rw e (_, refl)
        ]))

headers_of_total :
    (p : ProviderProfile) (m : String) (t : Tab)
    → IsText p.model_id
    → HasBoth p t
    → (hs : Headers) × (headers_of (some p) m t ≡ ok hs)
unfolding headers_of key_of
headers_of_total p m t h (k, b, at_k, at_b, full) =
    elim (Bool-cases (p.id == openrouter_profile_id)) [
      | inl is ↦
          rw is (
            preset_headers_total OpenRouter.config openrouter_base_url p m k t (rw is at at_k) full)
      | inr isnt ↦ rw isnt (elim (Bool-cases (p.id == opencode_zen_profile_id)) [
        | inl is ↦ rw is (
            preset_headers_total OpenCodeZen.config opencode_zen_base_url p m k t
              (rw is at (rw isnt at at_k)) full)
        | inr isnt' ↦ rw isnt' (custom_headers_total p k b h (rw isnt' at (rw isnt at at_k)) at_b)
      ])
    ]

answer_agrees :
    (o : Option ProviderProfile) (t : Tab)
    → ((p : ProviderProfile) → o ≡ some p → IsTyped p)
    → Agree (readiness_of o t) (answer (readiness_of o t) o t)
unfolding answer
answer_agrees none t h = unfold readiness_of in both_unready choose_message refl
answer_agrees (some p) t h = elim (readiness_cases p t (h p refl)) [
  | inl e ↦ rw e (both_unready _ refl)
  | inr (e, both) ↦
      let (hs, sent) = headers_of_total p "" t (h p refl).model_id both in
      rw e (rw sent (both_ready hs refl))
]

-- If the active profile is typed, headers are sent exactly when the readiness says so; otherwise the
-- error carries the message of the readiness. No other error is thrown.
pub headers-Agree :
    (t : Tab)
    → ((p : ProviderProfile) → active_profile t ≡ some p → IsTyped p)
    → Agree (get_provider_readiness t).1 (get_agent_provider_headers t).1
headers-Agree t h =
    rw (get_provider_readiness_lem t, get_agent_provider_headers_lem t)
      (answer_agrees (active_profile t) (load_provider_store t).0 h)

trimmed-untyped : (v : Json) → ¬ IsText (some v) → trimmed (some v) ≡ err type_error
unfolding trimmed
trimmed-untyped null h = absurd (h tt)
trimmed-untyped (str s) h = absurd (h tt)
trimmed-untyped _ h = refl

-- If the active profile was loaded with a base URL that is neither text nor `null`, and its key is not
-- blank, reading the readiness throws a `TypeError`, and so does asking for headers.
pub readiness_throws :
    (t : Tab) (p : ProviderProfile) (v : Json) (k : String)
    → active_profile t ≡ some p
    → key_of p (load_provider_store t).0 ≡ some (str k)
    → is_empty (trim k) ≡ false
    → p.base_url ≡ some v
    → ¬ IsText (some v)
    → ((get_provider_readiness t).1 ≡ err type_error)
      × ((get_agent_provider_headers t).1 ≡ err type_error)
unfolding readiness_of answer
readiness_throws t p v k found key full at_v bad =
    let t' = (load_provider_store t).0 in
    let throws : readiness_of (some p) t' ≡ err type_error =
      unfold trimmed in rw key (rw full (rw at_v (rw (trimmed-untyped v bad)))) in
    rw (get_provider_readiness_lem t, get_agent_provider_headers_lem t)
      (rw found (rw throws (refl, refl)))
