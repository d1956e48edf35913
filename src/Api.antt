-- ===== src/Api.antt =====
-- lib/env.ts and lib/api-client.ts, and the requests of threads-api.ts, projects-api.ts and
-- tools-api.ts. `encodeURIComponent` is a parameter.
pub mod Laws
mod Tests
use Prim.Native.String
use Prim.Native.Char.{code}
use text.Mathlib.Text.{starts_with}
use fleet_agent.Base.{
  ℕ, String, Bool, true, false, not, Option, none, some, List, [], ◌∷◌, ◌==◌, ◌&&◌, ◌||◌, leb,
  nat_eq, is_empty, is_space, strip_slashes, prefixed, Result, ok, err, if◌then◌else◌,
}
use fleet_agent.Json.{Json, Fields, str, null, obj, property, end}
use fleet_agent.Providers.Readiness.{Headers}
use fleet_agent.AgentFetch.{set_header}

abbrev pub default_api_base_url : String
default_api_base_url = "http://localhost:8000"

-- What is left of a text after this beginning.
unfoldable pub after_prefix : String → String → Option String
after_prefix String.[] s = some s
after_prefix (String.◌∷◌ p ps) String.[] = none
after_prefix (String.◌∷◌ p ps) (String.◌∷◌ c s) =
    let rest = after_prefix ps s in if nat_eq (code p) (code c) then rest else none

abbrev all_visible : String → Bool
all_visible String.[] = true
all_visible (String.◌∷◌ c s) = not (is_space (code c)) && all_visible s

-- `\S+` up to the end
abbrev is_word : Option String → Bool
is_word none = false
is_word (some s) = not (is_empty s) && all_visible s

-- the test of VITE_API_BASE_URL: empty, from the root, or `/^https?:\/\/\S+$/`
unfoldable pub is_valid_base : String → Bool
is_valid_base s =
    is_empty s
    || starts_with s "/"
    || is_word (after_prefix "http://" s)
    || is_word (after_prefix "https://" s)

pub record Environment : Type 0 where
  pub api_base_url : String
  pub api_key : Option String

abbrev given_key : Option String → Option String
given_key none = none
given_key (some key) = if is_empty key then none else some key

abbrev pub environment_of : String → Option String → Environment
environment_of url key = record { api_base_url = strip_slashes url; api_key = given_key key }

-- The module of lib/env.ts, which throws at a base URL that is not valid.
unfoldable pub read_environment : Option String → Option String → Option Environment
read_environment none key = some (environment_of default_api_base_url key)
read_environment (some url) key = if is_valid_base url then some (environment_of url key) else none

pub record Request : Type 0 where
  pub url : String
  pub method : Option String
  pub headers : Headers
  pub body : Option Json

-- `{ ...headers, ...more }`
unfoldable pub spread : Headers → Headers → Headers
spread headers [] = headers
spread headers ((name, value) ∷ rest) = spread (set_header name value headers) rest

abbrev pub key_header : Option String → Headers
key_header none = []
key_header (some key) = ("X-API-Key", key) ∷ []

-- What a caller passes besides the path; a signal that aborts the request is left out.
pub record Init : Type 0 where
  pub method : Option String
  pub headers : Headers
  pub body : Option Json

abbrev pub no_init : Init
no_init = record { method = none; headers = []; body = none }

abbrev pub request_with : String → Environment → String → Init → Request
request_with accept env path init = record {
  url = String.◌++◌ env.api_base_url path;
  method = init.method;
  headers = spread (spread (("Accept", accept) ∷ []) (key_header env.api_key)) init.headers;
  body = init.body;
}

-- the request of `apiFetch`
unfoldable pub api_request : Environment → String → Init → Request
api_request env path init = request_with "application/json" env path init

-- the request of `apiFetchText`
unfoldable pub api_text_request : Environment → String → Init → Request
api_text_request env path init = request_with "text/plain, text/markdown;q=0.9" env path init

-- the request of `apiJsonFetch`
unfoldable pub api_json_request : Environment → String → String → Json → Headers → Request
api_json_request env path method body headers = api_request env path (record {
  method = some method;
  headers = spread (("Content-Type", "application/json") ∷ []) headers;
  body = some body;
})

-- An answer: its status, its content length, and its body, which may not be JSON.
pub record Response : Type 0 where
  pub status : ℕ
  pub content_length : Option String
  pub json : Option Json

pub data FetchFailure : Type 0 where
  api_error : ℕ → FetchFailure
  invalid_json : FetchFailure

-- `response.ok`
abbrev pub is_ok : Response → Bool
is_ok r = leb 200 r.status && leb r.status 299

abbrev pub is_no_content : Response → Bool
is_no_content r = nat_eq r.status 204 || elim r.content_length [ none ↦ false | some n ↦ n == "0" ]

abbrev parsed_body : Option Json → Result FetchFailure (Option Json)
parsed_body none = err invalid_json
parsed_body (some j) = ok (some j)

-- what `apiFetch` makes of the answer
unfoldable pub api_answer : Response → Result FetchFailure (Option Json)
api_answer r =
    if not (is_ok r)
    then err (api_error r.status)
    else if is_no_content r
    then ok none
    else parsed_body r.json

abbrev under : String → String → String → String
under before id after = prefixed before (prefixed id after)

abbrev head_value : Option String → Json
head_value none = null
head_value (some id) = str id

-- The calls of the three clients.
pub data Call : Type 0 where
  list_threads : String → Call
  create_thread : String → String → Call
  fetch_bootstrap : String → Call
  persist_thread_message : String → String → Json → Call
  persist_thread_head : String → Option String → Call
  rename_thread : String → String → Call
  delete_thread : String → Call
  list_projects : Call
  create_project : String → Call
  rename_project : String → String → Call
  delete_project : String → Call
  fetch_tools : Call

module _ (encode : String → String) where
  unfoldable pub path_of : Call → String
  path_of (list_threads project) = under "/api/projects/" project "/threads"
  path_of (create_thread project title) = under "/api/projects/" project "/threads"
  path_of (fetch_bootstrap thread) = under "/api/threads/" thread "/bootstrap"
  path_of (persist_thread_message thread message item) =
      under "/api/threads/" thread (prefixed "/messages/" (encode message))
  path_of (persist_thread_head thread head) = under "/api/threads/" thread "/history/head"
  path_of (rename_thread thread title) = under "/api/threads/" thread ""
  path_of (delete_thread thread) = under "/api/threads/" thread ""
  path_of list_projects = "/api/projects"
  path_of (create_project name) = "/api/projects"
  path_of (rename_project project name) = under "/api/projects/" project ""
  path_of (delete_project project) = under "/api/projects/" project ""
  path_of fetch_tools = "/api/tools"

  -- the method and the body of the calls that send JSON
  abbrev pub json_of : Call → Option (String × Json)
  json_of (create_thread project title) = some ("POST", obj (property "title" (str title) end))
  json_of (persist_thread_message thread message item) = some ("PUT", item)
  json_of (persist_thread_head thread head) =
      some ("PUT", obj (property "headId" (head_value head) end))
  json_of (rename_thread thread title) = some ("PATCH", obj (property "title" (str title) end))
  json_of (create_project name) = some ("POST", obj (property "name" (str name) end))
  json_of (rename_project project name) = some ("PATCH", obj (property "name" (str name) end))
  json_of _ = none

  abbrev pub is_deletion : Call → Bool
  is_deletion (delete_thread thread) = true
  is_deletion (delete_project project) = true
  is_deletion _ = false

  abbrev pub plain_init : Call → Init
  plain_init call = if is_deletion call then record no_init { method = some "DELETE" } else no_init

  unfoldable pub request_of : Environment → Call → Request
  request_of env call = elim (json_of call) [
    | some (method, body) ↦ api_json_request env (path_of call) method body []
    | none ↦ api_request env (path_of call) (plain_init call)
  ]
