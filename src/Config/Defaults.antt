-- ===== src/Config/Defaults.antt =====
-- src/config.rs: `Config`, `AgencConfig` and their defaults.
use nexus_client.Prelude.{ℕ, String}

abbrev pub default_model : String
default_model = "hermes-3"

abbrev pub default_upstream : String
default_upstream = "http://localhost:11434/v1"

abbrev pub default_gateway : String
default_gateway = "wss://nexus.ghostnn.ai/api/compute/node"

abbrev pub default_build_api_url : String
default_build_api_url = "http://127.0.0.1:8799"

abbrev pub default_agenc_rpc : String
default_agenc_rpc = "https://api.mainnet-beta.solana.com"

abbrev pub default_min_reward_lamports : ℕ
default_min_reward_lamports = 1_000_000

abbrev pub default_mcp_bin : String
default_mcp_bin = "nexus-city-mcp"

pub record AgencConfig : Type 0 where
  pub build_api_url : String
  pub rpc_url : String
  pub min_reward_lamports : ℕ
  pub endpoint : String
  pub mcp_bin : String

pub record Config : Type 0 where
  pub model : String
  pub upstream : String
  pub gateway : String
  pub agenc : AgencConfig

abbrev pub agenc_default : AgencConfig
agenc_default = record {
  build_api_url = default_build_api_url;
  rpc_url = default_agenc_rpc;
  min_reward_lamports = default_min_reward_lamports;
  endpoint = "";
  mcp_bin = default_mcp_bin;
}

abbrev pub config_default : Config
config_default = record {
  model = default_model;
  upstream = default_upstream;
  gateway = default_gateway;
  agenc = agenc_default;
}

unfoldable pub with_model : String → Config
with_model model = record config_default { model = model }
