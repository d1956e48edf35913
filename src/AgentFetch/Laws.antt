-- ===== src/AgentFetch/Laws.antt =====
-- Which provider headers a request carries.
use fleet_agent.Base.{
  String, ◌≡◌, refl, ap, ◌∙◌, Bool, true, false, not, Option, none, some, [], ◌∷◌, ◌==◌, ◌&&◌,
  Result, ok, err, if◌then◌else◌, arith, eq_iff, Bool-cases, inl, inr,
}
use fleet_agent.Browser.{Tab, lookup}
use fleet_agent.Providers.Readiness.{ProviderError, Headers, get_agent_provider_headers}
use fleet_agent.AgentFetch.{
  is_provider_header, set_header, strip_provider_headers, set_all, attach, run_headers, agent_fetch,
}

lookup-set_header :
    (k n v : String) (hs : Headers)
    → lookup k (set_header n v hs) ≡ (if n == k then some v else lookup k hs)
unfolding lookup set_header
lookup-set_header k n v [] = refl
lookup-set_header k n v ((m, w) ∷ hs) =
    ground (arith, lookup-set_header k n v hs, eq_iff m n, eq_iff m k, eq_iff n k)

lookup-strip_provider_headers :
    (k : String) (hs : Headers)
    → lookup k (strip_provider_headers hs) ≡ (if is_provider_header k then none else lookup k hs)
unfolding lookup strip_provider_headers
lookup-strip_provider_headers k [] = ground arith
lookup-strip_provider_headers k ((m, w) ∷ hs) =
    ground (arith, lookup-strip_provider_headers k hs, eq_iff m k)

-- The last value that is set for a name.
abbrev pub set_value : (String → String) → String → Headers → Option String → Option String
set_value lower k [] o = o
set_value lower k ((n, v) ∷ ps) o = set_value lower k ps (if lower n == k then some v else o)

lookup-set_all :
    (lower : String → String) (k : String) (ps hs : Headers)
    → lookup k (set_all lower ps hs) ≡ set_value lower k ps (lookup k hs)
unfolding set_all
lookup-set_all lower k [] hs = refl
lookup-set_all lower k ((n, v) ∷ ps) hs =
    lookup-set_all lower k ps (set_header (lower n) v hs)
    ∙ ap (set_value lower k ps) (lookup-set_header k (lower n) v hs)

looked_up :
    (lower : String → String) (ps hs : Headers) (k : String)
    → lookup k (set_all lower ps (strip_provider_headers hs))
      ≡ set_value lower k ps (if is_provider_header k then none else lookup k hs)
looked_up lower ps hs k =
    lookup-set_all lower k ps (strip_provider_headers hs)
    ∙ ap (set_value lower k ps) (lookup-strip_provider_headers k hs)

attach-eq-ok :
    (lower : String → String) (r : Result ProviderError Headers) (hs out : Headers)
    → attach lower r hs ≡ ok out
    → (ps : Headers) × (r ≡ ok ps) × (out ≡ set_all lower ps hs)
unfolding attach
attach-eq-ok lower (err e) hs out h = cc
attach-eq-ok lower (ok ps) hs out h = (ps, refl, ground arith)

run_headers_lem :
    (lower : String → String) (m : String) (hs out : Headers) (t : Tab)
    → (run_headers lower m hs t).1 ≡ ok out
    → (ps : Headers) × (if m == "fixtures"
        then ps ≡ []
        else (get_agent_provider_headers t).1 ≡ ok ps)
      × ((k : String)
          → lookup k out
            ≡ set_value lower k ps (if is_provider_header k then none else lookup k hs))
unfolding run_headers
run_headers_lem lower m hs out t h = elim (Bool-cases (m == "fixtures")) [
  | inl e ↦
      let same : out ≡ strip_provider_headers hs = ground arith in
      rw e ([], refl, λ k. ap (lookup k) same ∙ lookup-strip_provider_headers k hs)
  | inr e ↦
      let (ps, found, same) =
        attach-eq-ok lower (get_agent_provider_headers t).1 (strip_provider_headers hs) out
          (rw e at h) in
      rw e (ps, found, λ k. ap (lookup k) same ∙ looked_up lower ps hs k)
]

-- The headers of a run request that is sent: the caller's provider headers are gone, a fixture run
-- adds none, and any other run adds exactly those of the active provider; every other header is the
-- caller's, unless the provider sets its name too.
pub agent_fetch_lem :
    (lower : String → String) (thread written : Bool) (mode : Option String) (hs out : Headers)
    (t : Tab)
    → (agent_fetch lower true thread written mode hs t).1 ≡ ok out
    → (m : String) × (ps : Headers) × (mode ≡ some m)
      × ((thread && not written) ≡ false)
      × (if m == "fixtures" then ps ≡ [] else (get_agent_provider_headers t).1 ≡ ok ps)
      × ((k : String)
          → lookup k out
            ≡ set_value lower k ps (if is_provider_header k then none else lookup k hs))
unfolding agent_fetch
agent_fetch_lem lower thread written none hs out t h = absurd (ground arith)
agent_fetch_lem lower thread written (some m) hs out t h =
    elim (Bool-cases (thread && not written)) [
      | inl e ↦ absurd (ground arith)
      | inr e ↦
          let (ps, from, all) = run_headers_lem lower m hs out t (rw e at h) in
          (m, ps, refl, e, from, all)
    ]
