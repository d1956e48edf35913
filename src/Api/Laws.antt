-- ===== src/Api/Laws.antt =====
-- What every request carries, and where it goes.
use Prim.Native.String
use mathlib.Core.Option
use fleet_agent.Base.{
  String, ◌≡◌, refl, ◌∙◌, subst, Bool, true, false, Option, none, some, [], ◌∷◌, ◌==◌,
  ends_with_slash, ends_with_slash-strip_slashes, arith, eq_iff, Bool-cases, Option-cases, is_some,
  inl, inr, if◌then◌else◌,
}
use mathlib.Core.Option.{some-injective}
use fleet_agent.Json.{Json}
use fleet_agent.Providers.Readiness.{Headers}
use fleet_agent.AgentFetch.{set_header}
use fleet_agent.Api.{
  after_prefix, default_api_base_url, environment_of, plain_init, Environment, read_environment,
  is_valid_base, Request, spread, key_header, api_request, api_json_request, Call, path_of, json_of,
  request_of, is_deletion, list_threads, create_thread, fetch_bootstrap, persist_thread_message,
  persist_thread_head, rename_thread, delete_thread, list_projects, create_project, rename_project,
  delete_project, fetch_tools,
}

-- The base of all URLs does not end with a slash, so a path can follow it.
read_environment-ends_with_slash :
    (url key : Option String) (env : Environment)
    → read_environment url key ≡ some env
    → ends_with_slash env.api_base_url ≡ false
unfolding read_environment
read_environment-ends_with_slash none key env h =
    subst (λ (e : Environment). ends_with_slash e.api_base_url ≡ false) (some-injective _ _ h)
      (ends_with_slash-strip_slashes default_api_base_url)
read_environment-ends_with_slash (some url) key env h = elim (Bool-cases (is_valid_base url)) [
  | inl e ↦
      let k : some (environment_of url key) ≡ some env =
        subst (λ (b : Bool). (if b then some (environment_of url key) else none) ≡ some env) e h in
      subst (λ (e : Environment). ends_with_slash e.api_base_url ≡ false) (some-injective _ _ k)
        (ends_with_slash-strip_slashes url)
  | inr e ↦ absurd (ground arith)
]

-- The value of a header.
abbrev pub header_of : String → Headers → Option String
header_of name [] = none
header_of name ((n, v) ∷ rest) = if n == name then some v else header_of name rest

header_of-set_header :
    (name n v : String) (hs : Headers)
    → header_of name (set_header n v hs) ≡ (if n == name then some v else header_of name hs)
unfolding set_header
header_of-set_header name n v [] = refl
header_of-set_header name n v ((m, w) ∷ rest) =
    ground (arith, header_of-set_header name n v rest, eq_iff m n, eq_iff m name, eq_iff n name)

-- A request for a path of the API: its URL has one slash between the base and the path; its headers
-- have the key; its method and its body are those that are sent, and its headers say that the body is
-- JSON exactly when it has one.
abbrev pub Carries : Environment → String → Option (String × Json) → Bool → Request → Type 0
Carries env path sent deletes r =
    (r.url ≡ String.◌++◌ env.api_base_url path)
    × (header_of "X-API-Key" r.headers ≡ env.api_key)
    × (header_of "Content-Type" r.headers
        ≡ (if is_some r.body then some "application/json" else none))
    × (r.body ≡ Option.map (λ (j : String × Json). j.1) sent)
    × (r.method ≡ elim sent [
      | some (method, body) ↦ some method
      | none ↦ if deletes then some "DELETE" else none
    ])

bare_headers :
    (accept : String) (key : Option String)
    → (header_of "X-API-Key" (spread (("Accept", accept) ∷ []) (key_header key)) ≡ key)
      × (header_of "Content-Type" (spread (("Accept", accept) ∷ []) (key_header key)) ≡ none)
unfolding spread set_header
bare_headers accept none = (refl, refl)
bare_headers accept (some key) = (refl, refl)

plain-Carries :
    (encode : String → String) (env : Environment) (call : Call)
    → Carries env
        (path_of encode call)
        none
        (is_deletion encode call)
        (api_request env (path_of encode call) (plain_init encode call))
unfolding api_request spread
plain-Carries encode env call =
    let k = bare_headers "application/json" env.api_key in
    elim (Bool-cases (is_deletion encode call)) [
      | inl e ↦ (refl, rw e k.0, rw e k.1, rw e refl, rw e refl)
      | inr e ↦ (refl, rw e k.0, rw e k.1, rw e refl, rw e refl)
    ]

json-Carries :
    (env : Environment) (path method : String) (body : Json) (deletes : Bool)
    → Carries env path (some (method, body)) deletes (api_json_request env path method body [])
unfolding api_json_request api_request spread
json-Carries env path method body deletes =
    let hs = spread (("Accept", "application/json") ∷ []) (key_header env.api_key) in
    let k = bare_headers "application/json" env.api_key in
    (
      refl,
      header_of-set_header "X-API-Key" "Content-Type" "application/json" hs ∙ k.0,
      header_of-set_header "Content-Type" "Content-Type" "application/json" hs,
      refl,
      refl,
    )

-- What follows the base is a path from the root, whatever the ids are.
path_of-after_prefix :
    (encode : String → String) (call : Call)
    → is_some (after_prefix "/api/" (path_of encode call)) ≡ true
unfolding path_of after_prefix
path_of-after_prefix encode (list_threads project) = refl
path_of-after_prefix encode (create_thread project title) = refl
path_of-after_prefix encode (fetch_bootstrap thread) = refl
path_of-after_prefix encode (persist_thread_message thread message item) = refl
path_of-after_prefix encode (persist_thread_head thread head) = refl
path_of-after_prefix encode (rename_thread thread title) = refl
path_of-after_prefix encode (delete_thread thread) = refl
path_of-after_prefix encode list_projects = refl
path_of-after_prefix encode (create_project name) = refl
path_of-after_prefix encode (rename_project project name) = refl
path_of-after_prefix encode (delete_project project) = refl
path_of-after_prefix encode fetch_tools = refl

-- In an environment that could be read, every request of the clients goes to a path below /api under
-- the base URL, with one slash between them; it carries the key of the environment, or none where
-- there is none; it has the method and the JSON body of its call, or is a deletion or a plain request
-- without a body; and it says that its body is JSON exactly when it has one.
pub request_of-Carries :
    (encode : String → String) (url key : Option String) (env : Environment) (call : Call)
    → read_environment url key ≡ some env
    → (ends_with_slash env.api_base_url ≡ false)
      × (is_some (after_prefix "/api/" (path_of encode call)) ≡ true)
      × Carries env
          (path_of encode call)
          (json_of encode call)
          (is_deletion encode call)
          (request_of encode env call)
unfolding request_of
request_of-Carries encode url key env call h = (
  read_environment-ends_with_slash url key env h,
  path_of-after_prefix encode call,
  elim (Option-cases (json_of encode call)) [
    | inl e ↦ rw (e, Carries, request_of) (plain-Carries encode env call)
    | inr ((method, body), e) ↦
        rw (e, Carries, request_of)
          (json-Carries env (path_of encode call) method body (is_deletion encode call))
  ],
)
