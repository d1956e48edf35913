-- ===== src/Providers/Profiles.antt =====
-- providers-store.ts, the data: profiles, the presets, and a profile as JSON.
pub mod Codec
use fleet_agent.Base.{String, Bool, Option, none, some, List, [], ◌∷◌, ◌==◌, ◌||◌, if◌then◌else◌}
use fleet_agent.Json.{Json}

pub data ResponseFormat : Type 0 where
  native_function_calling json_tool_calls : ResponseFormat

pub data MessagesFormat : Type 0 where
  system_role developer_role : MessagesFormat

-- The fields that may be absent are not validated when they are read back, so they hold any JSON.
pub record ProviderProfile : Type 0 where
  pub id : String
  pub name : String
  pub base_url : Option Json
  pub api_key : Option Json
  pub model_id : Option Json
  pub chat_completion_format : String
  pub response_format : ResponseFormat
  pub messages_format : MessagesFormat

pub record ProviderStore : Type 0 where
  pub profiles : List ProviderProfile
  pub active_provider_id : Option String

-- A store as it was written, with a selection of any type.
pub record StoredProviderStore : Type 0 where
  pub profiles : List ProviderProfile
  pub active_provider_id : Option Json

abbrev pub providers_storage_key : String
providers_storage_key = "fleet_providers_v1"

abbrev pub openrouter_profile_id : String
openrouter_profile_id = "openrouter"

abbrev pub openrouter_base_url : String
openrouter_base_url = "https://openrouter.ai/api/v1"

abbrev pub opencode_zen_profile_id : String
opencode_zen_profile_id = "opencode-zen"

abbrev pub opencode_zen_base_url : String
opencode_zen_base_url = "https://opencode.ai/zen/v1"

abbrev pub openrouter_profile : ProviderProfile
openrouter_profile = record {
  id = openrouter_profile_id;
  name = "OpenRouter";
  base_url = some (Json.str openrouter_base_url);
  api_key = none;
  model_id = none;
  chat_completion_format = "openai-chat-completions";
  response_format = native_function_calling;
  messages_format = system_role;
}

abbrev pub opencode_zen_profile : ProviderProfile
opencode_zen_profile = record {
  id = opencode_zen_profile_id;
  name = "OpenCode Zen";
  base_url = some (Json.str opencode_zen_base_url);
  api_key = none;
  model_id = none;
  chat_completion_format = "openai-chat-completions";
  response_format = native_function_calling;
  messages_format = system_role;
}

abbrev pub default_store : ProviderStore
default_store = record {
  profiles = openrouter_profile ∷ opencode_zen_profile ∷ [];
  active_provider_id = none;
}

abbrev pub is_preset_id : String → Bool
is_preset_id id = id == openrouter_profile_id || id == opencode_zen_profile_id

-- the fields that a stored override keeps
abbrev overridden : ProviderProfile → ProviderProfile → ProviderProfile
overridden preset override = record preset {
  api_key = override.api_key;
  model_id = override.model_id;
  response_format = override.response_format;
  messages_format = override.messages_format;
}

unfoldable pub build_preset_profile : String → ProviderProfile → ProviderProfile
build_preset_profile id override =
    if id == openrouter_profile_id
    then overridden openrouter_profile override
    else overridden opencode_zen_profile override
