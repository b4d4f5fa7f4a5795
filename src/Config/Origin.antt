-- ===== src/Config/Origin.antt =====
-- src/config.rs: `http_origin_from_ws`, `authority_only` and `Config::gateway_http_origin`.
pub mod Mapped
use Prim.Native.String
use nexus_client.Prelude.{ℕ, Bool, String, code, Option, none, some, eqb, ◌||◌, if◌then◌else◌}
use nexus_client.Text.{strip_prefix}
use nexus_client.Config.Defaults.{Config}

-- `/`, `?` or `#`
abbrev pub ends_authority : ℕ → Bool
ends_authority c = eqb c b'/' || eqb c b'?' || eqb c b'#'

unfoldable pub authority_only : String → String
authority_only String.[] = ""
authority_only (String.◌∷◌ c s) =
    if ends_authority (code c) then "" else String.◌∷◌ c (authority_only s)

-- The branches below the `ws` schemes; a text that starts with a scheme is split behind its `://`.
after_http : String → Option String → Option String → String
after_http gateway (some rest) _ = String.◌++◌ "http://" (authority_only rest)
after_http gateway none (some rest) = String.◌++◌ "https://" (authority_only rest)
after_http gateway none none = gateway

after_ws : String → Option String → Option String → String
unfolding after_http
after_ws gateway (some rest) _ = String.◌++◌ "https://" (authority_only rest)
after_ws gateway none (some rest) = String.◌++◌ "http://" (authority_only rest)
after_ws gateway none none =
    after_http gateway (strip_prefix "http://" gateway) (strip_prefix "https://" gateway)

unfoldable pub http_origin_from_ws : String → String
unfolding after_ws
http_origin_from_ws gateway =
    after_ws gateway (strip_prefix "wss://" gateway) (strip_prefix "ws://" gateway)

unfoldable pub gateway_http_origin : Config → String
gateway_http_origin cfg = http_origin_from_ws cfg.gateway
