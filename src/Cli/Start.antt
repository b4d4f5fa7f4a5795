-- ===== src/Cli/Start.antt =====
-- src/main.rs: `cmd_start`.
use nexus_client.Prelude.{ℕ, Bool, true, false, Option, List, String, Result, ok, err}
use nexus_client.External.Serde.{Serde}
use nexus_client.External.Crypto.{Base58, Ed25519}
use nexus_client.External.Solana.{Solana}
use nexus_client.External.Keypairs.{Keypairs}
use nexus_client.External.Toml.{Toml}
use nexus_client.Disk
use nexus_client.Disk.{Disk, Host, Io, failing}
use nexus_client.Keys.{node_key_exists, load, load_wallet_pubkey}
use nexus_client.Config.Defaults.{Config}
use nexus_client.Config.Stored.{load_config}
use nexus_client.Run.Link.{Peer, Link}
use nexus_client.Run.Reconnect.{SessionOutcome, disconnected, rejected, shutdown}
use nexus_client.Run.Serve.{Wake, run}
use nexus_client.Cli.Gateway.{
  LoadError, uninitialized, config_unread, node_key_unread, wallet_unread,
}

-- Why `start` exits with a failure.
pub data StartError : Type 0 where
  unloaded : LoadError → StartError
  rejected_by_gateway : String → StartError
  connection_ended : StartError

unfoldable pub exit_of : SessionOutcome → Result (Unit {0}) StartError
exit_of shutdown = ok tt
exit_of (rejected reason) = err (rejected_by_gateway reason)
exit_of disconnected = err connection_ended

module _ (S : Serde) (C : Solana) (W : Keypairs C) (E : Ed25519) (B : Base58) (T : Toml)
    (host : Host) where
  unfoldable pub load_start : Bool → String → Io (Config × E.SigningKey × String) LoadError
  load_start false dir = Disk.lift (err uninitialized)
  load_start true dir = Disk.◌>>=◌ (failing config_unread (load_config T host dir)) λ cfg.
      Disk.◌>>=◌ (failing node_key_unread (load E host dir)) λ key.
        Disk.◌>>=◌ (failing wallet_unread (load_wallet_pubkey C W host dir))
          λ wallet_pubkey. Disk.pure (cfg, key, wallet_pubkey)

  abbrev started :
      Peer S
      → Link S
      → List (Option (List Wake) × ℕ)
      → Result (Config × E.SigningKey × String) LoadError
      → Result (Unit {0}) StartError
  started peer l attempts (err e) = err (unloaded e)
  started peer l attempts (ok (cfg, key, wallet_pubkey)) =
      exit_of (run S peer cfg B E key wallet_pubkey attempts l)

  -- The directory is only read.
  unfoldable pub cmd_start :
      Peer S → Link S → List (Option (List Wake) × ℕ) → String → Disk → Result (Unit {0}) StartError
  cmd_start peer l attempts dir d =
      started peer l attempts ((Disk.◌>>=◌ (node_key_exists host dir) λ b. load_start b dir) d).0
