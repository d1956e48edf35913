-- ===== src/AgentFetch.antt =====
-- agent-runtime-provider.tsx: `createAgentFetch`. The platform's part is a parameter: the parser of
-- URLs, the upper case of a method, and `lower`, the lower case in which `Headers` keeps a name. The
-- headers of a request are what `new Headers` made of them.
pub mod Laws
mod Tests
use Prim.Native.String
use text.Mathlib.Text.{starts_with}
use fleet_agent.Base.{
  String, Bool, true, false, not, Option, none, some, List, [], ◌∷◌, ◌==◌, ◌&&◌, ◌||◌, keep, Result,
  ok, err, if◌then◌else◌,
}
use fleet_agent.Browser.{Tab}
use fleet_agent.Providers.Readiness.{ProviderError, Headers, get_agent_provider_headers}

-- `url.split('?', 1)[0]`
unfoldable pub before_query : String → String
before_query String.[] = String.[]
before_query (String.◌∷◌ c s) =
    let rest = before_query s in
    if String.◌∷◌ c String.[] == "?" then String.[] else String.◌∷◌ c rest

unfoldable pub ends_with : String → String → Bool
ends_with suffix String.[] = suffix == ""
ends_with suffix (String.◌∷◌ c s) = suffix == String.◌∷◌ c s || ends_with suffix s

module _ (pathname_of : String → Option String) (upper : String → String)
    (agent_pathname : String) where
  -- the comparison of the paths, and the `catch` branch for a URL that cannot be parsed
  abbrev is_agent_path : String → Option String → Bool
  is_agent_path url none = ends_with agent_pathname (before_query url)
  is_agent_path url (some path) = path == agent_pathname

  unfoldable pub is_agent_run_request : String → Option String → Bool
  is_agent_run_request url none = false
  is_agent_run_request url (some method) =
      if upper method == "POST" then is_agent_path url (pathname_of url) else false

pub data FetchError : Type 0 where
  history_failed capabilities_failed : FetchError
  provider_failed : ProviderError → FetchError

unfoldable pub is_provider_header : String → Bool
is_provider_header name = starts_with name "x-llm-"

-- `headers.set(name, value)`, for a name in lower case
unfoldable pub set_header : String → String → Headers → Headers
set_header name value [] = (name, value) ∷ []
set_header name value ((n, v) ∷ rest) =
    let others = set_header name value rest in
    if n == name then (name, value) ∷ rest else (n, v) ∷ others

-- the deletion of the caller's provider headers
unfoldable pub strip_provider_headers : Headers → Headers
strip_provider_headers hs = keep (λ h. not (is_provider_header h.0)) hs

module _ (lower : String → String) where
  unfoldable pub set_all : Headers → Headers → Headers
  set_all [] hs = hs
  set_all ((n, v) ∷ ps) hs = set_all ps (set_header (lower n) v hs)

  unfoldable pub attach : Result ProviderError Headers → Headers → Result FetchError Headers
  attach (err e) hs = err (provider_failed e)
  attach (ok ps) hs = ok (set_all ps hs)

  -- what follows once the mode of the agent is known
  unfoldable pub run_headers : String → Headers → Tab → Tab × Result FetchError Headers
  run_headers mode hs t =
      if mode == "fixtures"
      then (t, ok (strip_provider_headers hs))
      else (let (t', r) = get_agent_provider_headers t in
          (t', attach r (strip_provider_headers hs)))

  abbrev run_mode : Option String → Headers → Tab → Tab × Result FetchError Headers
  run_mode none hs t = (t, err capabilities_failed)
  run_mode (some mode) hs t = run_headers mode hs t

  -- The headers that are sent, or the error. `agent` says that it is the agent's run request,
  -- `thread` that there is a thread, `written` that waiting for its history returned, and the mode is
  -- what `refreshAgentCapabilities` answers.
  unfoldable pub agent_fetch :
      (agent thread written : Bool)
      → Option String
      → Headers
      → Tab
      → Tab × Result FetchError Headers
  agent_fetch agent thread written mode hs t =
      if agent
      then (if thread && not written then (t, err history_failed) else run_mode mode hs t)
      else (t, ok hs)
