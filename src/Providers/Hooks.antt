-- ===== src/Providers/Hooks.antt =====
-- use-openrouter-auth.ts, use-opencode-zen-auth.ts, and useRunReadiness of agent-capabilities.ts: what
-- a mounted hook shows, beside the tab that its calls change.
pub mod Laws
mod Tests
use fleet_agent.Base.{
  ℕ, String, Bool, true, false, not, Option, none, some, List, given, is_empty, ltb, length, Result,
  ok, err, if◌then◌else◌, ◌&&◌,
}
use fleet_agent.Browser.{Tab}
use fleet_agent.Providers.Auth.{
  Config, get_api_key, set_api_key, clear_api_key, get_selected_model, set_selected_model,
  is_custom_model_enabled, set_custom_model_enabled,
}
use fleet_agent.Providers.OpenRouter.OAuth.{OAuthError, has_oauth_callback_pending}
use fleet_agent.Providers.Readiness.{ProviderReadiness}

-- The state of the hook; OpenCode Zen's has no `isLoading` and no `error`.
pub record AuthView : Type 0 where
  pub api_key : Option String
  pub selected_model : String
  pub custom_model_enabled : Bool
  pub is_loading : Bool
  pub error : Option String

abbrev pub is_authenticated : AuthView → Bool
is_authenticated v = given v.api_key

-- the first render
unfoldable pub mount_auth : Config → Tab → AuthView
mount_auth c t = record {
  api_key = get_api_key c t;
  selected_model = get_selected_model c t;
  custom_model_enabled = is_custom_model_enabled c t;
  is_loading = false;
  error = none;
}

-- `syncState`, the hook's listener
unfoldable pub sync_state : Config → Tab → AuthView → AuthView
sync_state c t v = record v {
  api_key = get_api_key c t;
  selected_model = get_selected_model c t;
  custom_model_enabled = is_custom_model_enabled c t;
}

-- The listener runs when a call has notified, which the tab has recorded.
unfoldable pub after_call : Config → Tab → Tab → AuthView → AuthView
after_call c before t v = if ltb (length before.calls) (length t.calls) then sync_state c t v else v

pub data Action : Type 0 where
  enter_key : String → Action
  choose_model : String → Action
  enable_custom : Bool → Action
  sign_out : Action

abbrev pub or_default_model : Config → String → String
or_default_model c model = if is_empty model then c.default_model else model

-- the call of the store
abbrev pub stored : Config → Action → Tab → Tab
stored c (enter_key key) t = set_api_key c key t
stored c (choose_model model) t = set_selected_model c (or_default_model c model) t
stored c (enable_custom enabled) t = set_custom_model_enabled c enabled t
stored c sign_out t = clear_api_key c t

-- the hook's own state after it; `rereads` tells OpenCode Zen's hook, which reads a key back, from
-- OpenRouter's
abbrev pub shown : Bool → Config → Action → Tab → AuthView → AuthView
shown rereads c (enter_key key) t v = record v {
  api_key = if rereads then get_api_key c t else some key;
  error = none;
}
shown rereads c (choose_model model) t v = record v { selected_model = or_default_model c model }
shown rereads c (enable_custom enabled) t v = record v { custom_model_enabled = enabled }
shown rereads c sign_out t v = record v { api_key = none; error = none }

unfoldable pub act : Bool → Config → Action → Tab × AuthView → Tab × AuthView
act rereads c action (t, v) =
    let after = stored c action t in (after, shown rereads c action after (after_call c t after v))

-- the effect that handles a callback: whether it calls finalizeOAuthCallback, and the state then
unfoldable pub begin_callback : Bool → Tab → AuthView → Bool × AuthView
begin_callback auto_handle t v =
    if (auto_handle && t.window) && has_oauth_callback_pending t
    then (true, record v { is_loading = true; error = none })
    else (false, v)

-- how its promise ends; `message` is the text of an error
unfoldable pub end_callback :
    (OAuthError → String) → Bool → Result OAuthError (Option String) → AuthView → AuthView
end_callback message true answer v = v
end_callback message false (err e) v = record v { error = some (message e); is_loading = false }
end_callback message false (ok none) v = record v { is_loading = false }
end_callback message false (ok (some key)) v = record v { is_loading = false; api_key = some key }

-- `signIn`, with how initiateOAuth ends; when it has not failed the page is left
unfoldable pub sign_in : (OAuthError → String) → Option OAuthError → AuthView → AuthView
sign_in message none v = record v { is_loading = true; error = none }
sign_in message (some e) v = record v { is_loading = false; error = some (message e) }

pub data AgentMode : Type 0 where
  fixtures engine : AgentMode

-- The query of the capabilities, as far as it has got.
pub data Capabilities : Type 0 where
  unreachable : Capabilities
  waiting : Capabilities
  known : AgentMode → Capabilities

-- `useRunReadiness`
unfoldable pub run_readiness : Capabilities → ProviderReadiness → ProviderReadiness × Bool
run_readiness unreachable r = (
  record {
    ready = false;
    message = "Cannot connect to the agent. Check the API connection and retry.";
  },
  false,
)
run_readiness waiting r =
    (record { ready = false; message = "Checking agent availability…" }, false)
run_readiness (known fixtures) r =
    (record { ready = true; message = "Fixture mode — no provider required." }, true)
run_readiness (known engine) r = (r, false)
