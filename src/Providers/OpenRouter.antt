-- ===== src/Providers/OpenRouter.antt =====
-- openrouter-auth.ts: the configuration of OpenRouter's storage, the PKCE verifier and the OAuth flow.
pub mod Base64
pub mod OAuth
pub mod Masking
mod Tests
use fleet_agent.Base.{String}
use fleet_agent.Providers.Auth.{Config}

abbrev pub config : Config
config = record {
  storage_key = "openrouter_api_key";
  model_storage_key = "openrouter_selected_model";
  custom_model_enabled_key = "openrouter_custom_model_enabled";
  default_model = "openai/gpt-4o-mini";
}

abbrev pub verifier_key : String
verifier_key = "openrouter_code_verifier"
