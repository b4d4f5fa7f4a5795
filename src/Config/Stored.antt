-- ===== src/Config/Stored.antt =====
-- src/config.rs: `Config::save` and `Config::load`.
use nexus_client.Prelude.{String, map_err}
use nexus_client.Utf8.{as_bytes}
use nexus_client.External.Toml.{Toml}
use nexus_client.Disk.{Host, Io, IoError, ◌>>=◌, lift, join, read_to_string}
use nexus_client.Disk.Grown.{Grows, Grows-bind, Grows-lift}
use nexus_client.Keys.{invalid, write_new_secure}
use nexus_client.Keys.Added.{Grows-write_new_secure}
use nexus_client.Config.Defaults.{Config}

abbrev pub config_file : String
config_file = "config.toml"

module _ (T : Toml) (host : Host) where
  unfoldable pub save_config : Config → String → Io (Unit {0}) IoError
  save_config cfg dir = do
    toml ← lift (map_err invalid (T.to_string_pretty cfg))
    write_new_secure host (join dir config_file) (as_bytes toml)

  unfoldable pub load_config : String → Io Config IoError
  load_config dir = do
    s ← read_to_string host (join dir config_file)
    lift (map_err invalid (T.from_str s))

  pub Grows-save_config : (cfg : Config) (dir : String) → Grows (save_config cfg dir)
  unfolding save_config
  Grows-save_config cfg dir = Grows-bind (Grows-lift _) λ toml. Grows-write_new_secure host _ _
