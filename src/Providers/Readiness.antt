-- ===== src/Providers/Readiness.antt =====
-- providers-store.ts: `getProviderReadiness` and `getAgentProviderHeaders`.
pub mod Active
pub mod Credentials
pub mod Agreement
use fleet_agent.Base.{
  String, Bool, true, false, not, Option, none, some, List, [], ◌∷◌, ◌++◌, ◌==◌, trim, is_empty,
  given, find, Result, ok, err, ◌>>=◌, if◌then◌else◌,
}
use Prim.Native.String
use fleet_agent.Json.{Json, null, str}
use fleet_agent.Browser.{Tab}
use fleet_agent.Providers.Auth.{Config, get_api_key, get_selected_model, is_custom_model_enabled}
use fleet_agent.Providers.OpenRouter
use fleet_agent.Providers.OpenCodeZen
use fleet_agent.Providers.Profiles.{
  ProviderProfile, ResponseFormat, MessagesFormat, openrouter_profile_id, opencode_zen_profile_id,
  openrouter_base_url, opencode_zen_base_url,
}
use fleet_agent.Providers.Profiles.Codec.{response_name, messages_name}
use fleet_agent.Providers.Store.{get_profiles, get_active_provider_id, get_active_profile, is_named}

pub data ProviderError : Type 0 where
  provider_not_ready : String → ProviderError
  type_error : ProviderError  -- a call of `trim` on a value that has none

pub record ProviderReadiness : Type 0 where
  pub ready : Bool
  pub message : String

abbrev pub Headers : Type 0
Headers = List (String × String)

-- `v?.trim()`
unfoldable pub trimmed : Option Json → Result ProviderError (Option String)
trimmed none = ok none
trimmed (some null) = ok none
trimmed (some (str s)) = ok (some (trim s))
trimmed (some _) = err type_error

-- `v!.trim()`: the `!` is not checked when the code runs
unfoldable pub trimmed! : Option Json → Result ProviderError String
trimmed! (some (str s)) = ok (trim s)
trimmed! _ = err type_error

abbrev pub as_json : Option String → Option Json
as_json none = none
as_json (some s) = some (str s)

-- the key that `getProviderReadiness` tests
unfoldable pub key_of : ProviderProfile → Tab → Option Json
key_of p t =
    if p.id == openrouter_profile_id
    then as_json (get_api_key OpenRouter.config t)
    else if p.id == opencode_zen_profile_id
    then as_json (get_api_key OpenCodeZen.config t)
    else p.api_key

abbrev pub choose_message : String
choose_message = "Choose a provider in Settings → Providers before sending a message."

abbrev pub needs_setup : ProviderProfile → ProviderReadiness
needs_setup p = record {
  ready = false;
  message = String.◌++◌ p.name " needs setup. Add an API key and endpoint in Settings → Providers.";
}

abbrev pub is_ready : ProviderReadiness
is_ready = record { ready = true; message = "" }

-- the tests on the profile that was found
unfoldable pub readiness_of : Option ProviderProfile → Tab → Result ProviderError ProviderReadiness
unfolding key_of trimmed
readiness_of none t = ok (record { ready = false; message = choose_message })
readiness_of (some p) t = do
  key ← trimmed (key_of p t)
  if not (given key)
      then ok (needs_setup p)
      else do endpoint ← trimmed p.base_url; ok (if given endpoint then is_ready else needs_setup p)

-- `getProviderReadiness()`, with its argument left out
unfoldable pub get_provider_readiness : Tab → Tab × Result ProviderError ProviderReadiness
get_provider_readiness t =
    let (t', id) = get_active_provider_id t in
    let (t'', ps) = get_profiles t' in (t'', readiness_of (find (is_named id) ps) t'')

-- `if (model) headers['X-LLM-Model'] = model`, for a trimmed model
abbrev model_header : Option String → Headers
model_header none = []
model_header (some model) = if is_empty model then [] else ("X-LLM-Model", model) ∷ []

abbrev format_headers : ProviderProfile → Headers
format_headers p =
    ("X-LLM-Response-Format", response_name p.response_format)
    ∷ ("X-LLM-Messages-Format", messages_name p.messages_format)
    ∷ []

-- the branch of `getAgentProviderHeaders` for a preset, whose key and model are kept elsewhere
unfoldable pub preset_headers :
    Config → String → ProviderProfile → String → Tab → Result ProviderError Headers
preset_headers c base_url p message t = elim (get_api_key c t) [
  | none ↦ err (provider_not_ready message)
  | some key ↦
      if is_empty key
      then err (provider_not_ready message)
      else ok (
          ("X-LLM-Key", key)
          ∷ ("X-LLM-Base-Url", base_url)
          ∷ (format_headers p
              ++ (if is_custom_model_enabled c t
                  then model_header (some (trim (get_selected_model c t)))
                  else [])))
]

-- the branch for a custom profile
unfoldable pub custom_headers : ProviderProfile → Result ProviderError Headers
unfolding trimmed trimmed!
custom_headers p = do
  key ← trimmed! p.api_key
  base_url ← trimmed! p.base_url
  model ← trimmed p.model_id
  ok (("X-LLM-Key", key) ∷ ("X-LLM-Base-Url", base_url) ∷ (format_headers p ++ model_header model))

unfoldable pub headers_of : Option ProviderProfile → String → Tab → Result ProviderError Headers
unfolding preset_headers custom_headers
headers_of none message t = err type_error
headers_of (some p) message t =
    if p.id == openrouter_profile_id
    then preset_headers OpenRouter.config openrouter_base_url p message t
    else if p.id == opencode_zen_profile_id
    then preset_headers OpenCodeZen.config opencode_zen_base_url p message t
    else custom_headers p

-- `getAgentProviderHeaders` after its first line
unfoldable pub ready_headers :
    Result ProviderError ProviderReadiness → Tab → Tab × Result ProviderError Headers
ready_headers (err e) t = (t, err e)
ready_headers (ok r) t =
    if not r.ready
    then (t, err (provider_not_ready r.message))
    else (let (t', p) = get_active_profile t in (t', headers_of p r.message t'))

unfoldable pub get_agent_provider_headers : Tab → Tab × Result ProviderError Headers
get_agent_provider_headers t = let (t', r) = get_provider_readiness t in ready_headers r t'
