-- ===== src/Cli.antt =====
-- src/main.rs: the commands `init` and `status`, the default RPC and the printing of amounts. A printed
-- error is the command's error, and the printed lines its value.
pub mod Init
pub mod Once
pub mod Shown
pub mod Gateway
pub mod Amount
pub mod Stake
pub mod Work
pub mod Earnings
pub mod Start
pub mod Main
use Prim.Native.String
use nexus_client.Prelude.{ℕ, Bool, true, false, List, String, ◌==◌, Result, ok, err, if◌then◌else◌}
use nexus_client.External.Crypto.{Base58, Ed25519}
use nexus_client.External.Solana.{Solana}
use nexus_client.External.Keypairs.{Keypairs}
use nexus_client.External.Toml.{Toml}
use nexus_client.Disk.{Host, Io, IoError, ◌>>=◌, pure, lift, failing, create_dir_all}
use nexus_client.Keys.{
  ImportError, generate, node_key_exists, pubkey_base58, save, load, save_wallet,
  load_wallet_pubkey, import_wallet_from,
}
use nexus_client.Config.Defaults.{Config, with_model}
use nexus_client.Config.Stored.{save_config, load_config}

unfoldable pub default_rpc_for : String → String
default_rpc_for network =
    if network == "devnet"
    then "https://api.devnet.solana.com"
    else "https://api.mainnet-beta.solana.com"

pub data InitError : Type 0 where
  already_initialized : InitError
  bad_wallet : ImportError → InitError
  dir_failed : IoError → InitError
  node_key_failed : IoError → InitError
  wallet_failed : IoError → InitError
  read_back_failed : IoError → InitError
  config_failed : IoError → InitError

pub data StatusError : Type 0 where
  not_initialized : StatusError
  config_unread : IoError → StatusError
  node_key_unread : IoError → StatusError

-- What `status` prints.
pub record Status : Type 0 where
  pub model : String
  pub upstream : String
  pub gateway : String
  pub node : String

module _ (C : Solana) (W : Keypairs C) (E : Ed25519) (B : Base58) (T : Toml) (host : Host) where
  -- The wallet of `--wallet`; a new one is `fresh`.
  unfoldable pub resolve_wallet : C.Keypair → String → Io C.Keypair InitError
  resolve_wallet fresh wallet =
      if wallet == "new"
      then pure fresh
      else failing bad_wallet (import_wallet_from C W host B wallet)

  -- The part behind the node key.
  unfoldable pub finish_init :
      E.SigningKey → C.Keypair → String → String → Io (String × String) InitError
  finish_init node_key wallet_kp dir model = do
    let node_pubkey = pubkey_base58 E B node_key
    _ ← failing wallet_failed (save_wallet C W host wallet_kp dir)
    wallet_pubkey ← failing read_back_failed (load_wallet_pubkey C W host dir)
    _ ← failing config_failed (save_config T host (with_model model) dir)
    pure (node_pubkey, wallet_pubkey)

  -- The part behind the test for a node key.
  unfoldable pub init_unless :
      Bool → List ℕ → C.Keypair → String → String → String → Io (String × String) InitError
  init_unless true seed fresh dir model wallet = lift (err already_initialized)
  init_unless false seed fresh dir model wallet = do
    wallet_kp ← resolve_wallet fresh wallet
    _ ← failing dir_failed (create_dir_all host dir)
    let node_key = generate E seed
    _ ← failing node_key_failed (save E host node_key dir)
    finish_init node_key wallet_kp dir model

  -- `seed` and `fresh` are what the generators give; the two public keys are printed.
  unfoldable pub cmd_init :
      List ℕ → C.Keypair → String → String → String → Io (String × String) InitError
  cmd_init seed fresh dir model wallet = do
    initialized ← node_key_exists host dir
    init_unless initialized seed fresh dir model wallet

  unfoldable pub status_when : Bool → String → Io Status StatusError
  status_when false dir = lift (err not_initialized)
  status_when true dir = do
    cfg ← failing config_unread (load_config T host dir)
    key ← failing node_key_unread (load E host dir)
    pure (record {
      model = cfg.model;
      upstream = cfg.upstream;
      gateway = cfg.gateway;
      node = pubkey_base58 E B key;
    })

  unfoldable pub cmd_status : String → Io Status StatusError
  cmd_status dir = do initialized ← node_key_exists host dir; status_when initialized dir
