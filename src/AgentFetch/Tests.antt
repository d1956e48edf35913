-- ===== src/AgentFetch/Tests.antt =====
-- A fixture run with a header that its caller has put in.
use fleet_agent.Base.{
  String, ◌≡◌, refl, true, false, not, Option, none, some, [], ◌∷◌, ◌==◌, ◌&&◌, ok, if◌then◌else◌,
}
use fleet_agent.Browser.{Tab, TextStore, lookup}
use fleet_agent.Providers.Readiness.{Headers, get_agent_provider_headers}
use fleet_agent.AgentFetch.{
  is_provider_header, is_agent_run_request, before_query, ends_with, strip_provider_headers,
  run_headers, agent_fetch,
}
use fleet_agent.AgentFetch.Laws.{set_value, agent_fetch_lem}

abbrev storage : TextStore
storage = record { items = []; readable = true; accepts = λ _ _. true }

abbrev tab : Tab
tab = record {
  window = true;
  local = storage;
  document = none;
  accepts_document = λ _. true;
  session = storage;
  listeners = [];
  calls = [];
}

abbrev same_text : String → String
same_text s = s

abbrev headers : Headers
headers = ("x-llm-key", "sk-0") ∷ ("accept", "text/event-stream") ∷ []

abbrev stripped : Headers
stripped = ("accept", "text/event-stream") ∷ []

abbrev unparsed : String → Option String
unparsed url = none

agent_path :
    is_agent_run_request unparsed same_text "/api/agent" "/fleet/api/agent?x=1" (some "POST") ≡ true
unfolding is_agent_run_request before_query ends_with
agent_path = refl

fixture_run : (agent_fetch same_text true true true (some "fixtures") headers tab).1 ≡ ok stripped
unfolding agent_fetch run_headers strip_provider_headers is_provider_header
fixture_run = refl

agent_fetch_lem_example :
    (m : String) × (ps : Headers) × (some "fixtures" ≡ some m)
    × ((true && not true) ≡ false)
    × (if m == "fixtures" then ps ≡ [] else (get_agent_provider_headers tab).1 ≡ ok ps)
    × ((k : String)
        → lookup k stripped
          ≡ set_value same_text k ps (if is_provider_header k then none else lookup k headers))
agent_fetch_lem_example =
    agent_fetch_lem same_text true true (some "fixtures") headers stripped tab fixture_run
