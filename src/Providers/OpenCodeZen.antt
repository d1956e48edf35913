-- ===== src/Providers/OpenCodeZen.antt =====
-- opencode-zen-auth.ts: the configuration of OpenCode Zen's storage.
use fleet_agent.Providers.Auth.{Config}

abbrev pub config : Config
config = record {
  storage_key = "opencode_zen_api_key";
  model_storage_key = "opencode_zen_selected_model";
  custom_model_enabled_key = "opencode_zen_custom_model_enabled";
  default_model = "muse-spark-1.3-contributor-free";
}
