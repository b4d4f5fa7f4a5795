-- ===== src/Cli/Gateway.antt =====
-- src/main.rs: what the commands read of the client's directory and of the gateway's answers.

use nexus_client.Prelude.{ℕ, Option, String, Result, err, ok_or, and_then, if◌then◌else◌}
use nexus_client.External.Serde.{Serde}
use nexus_client.External.Http.{Reply, failed, answer, is_success}
use nexus_client.Disk.{IoError}

-- Why a command stops before it reaches the network.
pub data LoadError : Type 0 where
  uninitialized : LoadError
  config_unread : IoError → LoadError
  node_key_unread : IoError → LoadError
  wallet_unread : IoError → LoadError

pub data GatewayError : Type 0 where
  request_failed : String → String → GatewayError
  bad_status : String → ℕ → String → GatewayError
  invalid_json : String → String → GatewayError

module _ (S : Serde) where
  open S use {Value, get, as_str, from_str}

  -- The JSON of a successful answer from the URL.
  unfoldable pub gateway_json : String → Reply → Result Value GatewayError
  gateway_json url (failed e) = err (request_failed url e)
  gateway_json url (answer status body) =
      if is_success status
      then ok_or (from_str body) (invalid_json url body)
      else err (bad_status url status body)

  -- `v[key].as_str()`; indexing gives null where the key is missing.
  abbrev pub text_at : Value → String → Option String
  text_at v key = and_then (get v key) as_str
