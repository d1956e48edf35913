-- ===== src/Api/Tests.antt =====
-- Requests and environments.
use fleet_agent.Base.{
  ◌≡◌, refl, true, false, none, some, is_space, strip_slashes, is_some, err, ends_with_slash,
}
use fleet_agent.Json.{str}
use fleet_agent.Api.{
  after_prefix, is_valid_base, Environment, environment_of, read_environment, api_request,
  api_json_request, rename_thread, path_of, json_of, is_deletion, request_of, api_answer, api_error,
}
use fleet_agent.Api.Laws.{Carries, request_of-Carries}

abbrev environment : Environment
environment = environment_of "https://host//" (some "k")

environment_test : read_environment (some "https://host//") (some "k") ≡ some environment
unfolding read_environment is_valid_base after_prefix is_space
environment_test = refl

bare_host_test : read_environment (some "host:80") none ≡ none
unfolding read_environment is_valid_base after_prefix
bare_host_test = refl

request_test :
    (request_of (λ s. s) environment (rename_thread "t" "T")).url ≡ "https://host/api/threads/t"
unfolding request_of api_json_request api_request path_of strip_slashes
request_test = refl

request_of-Carries_example :
    (ends_with_slash environment.api_base_url ≡ false)
    × (is_some (after_prefix "/api/" (path_of (λ s. s) (rename_thread "t" "T"))) ≡ true)
    × Carries environment
        (path_of (λ s. s) (rename_thread "t" "T"))
        (json_of (λ s. s) (rename_thread "t" "T"))
        (is_deletion (λ s. s) (rename_thread "t" "T"))
        (request_of (λ s. s) environment (rename_thread "t" "T"))
request_of-Carries_example =
    request_of-Carries (λ s. s) (some "https://host//") (some "k") environment
      (rename_thread "t" "T") environment_test

answer_test :
    api_answer (record { status = 500; content_length = none; json = some (str "x") })
    ≡ err (api_error 500)
unfolding api_answer
answer_test = refl
