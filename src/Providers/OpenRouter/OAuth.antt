-- ===== src/Providers/OpenRouter/OAuth.antt =====
-- openrouter-auth.ts: the OAuth PKCE flow. The verifier and its challenge are texts that
-- `generateCodeVerifier` and `computeS256Challenge` have made; the answer of the key exchange, which
-- arrives later, is an argument of the second half of `handleOAuthCallback`.
pub mod Laws
use fleet_agent.Base.{
  ℕ, String, Bool, true, false, not, Option, none, some, List, [], ◌∷◌, ◌++◌, ◌==◌, is_empty,
  Result, ok, err, ◌>>=◌, if◌then◌else◌,
}
use fleet_agent.Browser.{Tab, TextStore, get_item, set_item, remove_item}
use fleet_agent.Providers.Auth.{set_api_key}
use fleet_agent.Providers.OpenRouter.{config, verifier_key}

pub data OAuthError : Type 0 where
  not_in_browser verifier_not_stored missing_verifier missing_key storage_failed network_failed :
      OAuthError
  exchange_failed : ℕ → OAuthError  -- with the status of the response

-- The address that `window.location.href` is set to: the query is its list of pairs.
pub record Redirect : Type 0 where
  pub callback_url : String
  pub code_challenge : String
  pub code_challenge_method : String

unfoldable pub has_oauth_callback_pending : Tab → Bool
has_oauth_callback_pending t =
    if t.window
    then elim (get_item t.session verifier_key) [
      | none ↦ false
      | some none ↦ false
      | some (some _) ↦ true
    ]
    else false

-- `initiateOAuth`; outside a browser it does nothing, and there is no redirect
unfoldable pub initiate_oauth :
    String → String → String → Tab → Result OAuthError (Tab × Option Redirect)
initiate_oauth verifier challenge url t =
    if not t.window then ok (t, none) else elim (set_item t.session verifier_key verifier) [
      | none ↦ err verifier_not_stored
      | some s ↦ ok (
        record t { session = s },
        some (record {
          callback_url = url;
          code_challenge = challenge;
          code_challenge_method = "S256";
        }),
      )
    ]

-- the test `!verifier`, and the removal of the one-time secret
abbrev taken : Option (Option String) → Tab → Result OAuthError (Tab × String)
taken none t = err storage_failed
taken (some none) t = err missing_verifier
taken (some (some verifier)) t =
    if is_empty verifier then err missing_verifier else elim (remove_item t.session verifier_key) [
      | none ↦ err storage_failed
      | some s ↦ ok (record t { session = s }, verifier)
    ]

-- `handleOAuthCallback` up to its request, with the verifier that the request carries
unfoldable pub begin_exchange : Tab → Result OAuthError (Tab × String)
begin_exchange t =
    if t.window then taken (get_item t.session verifier_key) t else err not_in_browser

-- How the request ends: it fails, or it has a status and the `key` of its body.
pub data Answer : Type 0 where
  lost : Answer
  refused : ℕ → Answer
  body : Option String → Answer

-- `handleOAuthCallback` after its request
unfoldable pub finish_exchange : Answer → Tab → Tab × Result OAuthError String
finish_exchange lost t = (t, err network_failed)
finish_exchange (refused status) t = (t, err (exchange_failed status))
finish_exchange (body none) t = (t, err missing_key)
finish_exchange (body (some key)) t =
    if is_empty key then (t, err missing_key) else (set_api_key config key t, ok key)

-- What `finalizeOAuthCallback` does before it waits.
pub data Start : Type 0 where
  nothing_to_do : Tab → Start
  exchanging : Tab → String → String → Start  -- with the code and the verifier
  failed : OAuthError → Start

abbrev pub started : String → Result OAuthError (Tab × String) → Start
started code (err e) = failed e
started code (ok (t, verifier)) = exchanging t code verifier

abbrev pub dropped : Tab → Option TextStore → Start
dropped t none = failed storage_failed
dropped t (some s) = nothing_to_do (record t { session = s })

-- `finalizeOAuthCallback`, on the `code` of the address
unfoldable pub finalize_oauth_callback : Option String → Tab → Start
finalize_oauth_callback none t =
    if t.window
    then (if has_oauth_callback_pending t
        then dropped t (remove_item t.session verifier_key)
        else nothing_to_do t)
    else nothing_to_do t
finalize_oauth_callback (some code) t =
    if t.window
    then (if has_oauth_callback_pending t
        then (if is_empty code
            then dropped t (remove_item t.session verifier_key)
            else started code (begin_exchange t))
        else nothing_to_do t)
    else nothing_to_do t
