-- ===== src/External/Toml.antt =====
-- The toml crate on the client's configuration; errors are their texts.
use nexus_client.Prelude.{String, Result}
use nexus_client.Config.Defaults.{Config}

pub record Toml : Type 0 where
  pub to_string_pretty : Config → Result String String
  pub from_str : String → Result Config String
