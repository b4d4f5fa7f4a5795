-- ===== src/Cli/Stake.antt =====
-- src/main.rs: `cmd_stake`.
pub mod Covered
pub mod Steps
pub mod Recorded
use Prim.Native.String
use nexus_client.Prelude.{
  ℕ, zero, suc, ℤ, Bool, true, false, Option, none, some, List, [], ◌∷◌, String, Result, ok, err,
  ltb, map_err, ok_or, ok_and_then, and_then, unwrap_or, if◌then◌else◌,
}
use nexus_client.External.Serde.{Serde, json}
use nexus_client.External.Http.{Reply}
use nexus_client.External.Crypto.{Base58, Ed25519}
use nexus_client.External.Solana.{Solana}
use nexus_client.External.Spl.{Spl, Float}
use nexus_client.External.Keypairs.{Keypairs}
use nexus_client.External.Toml.{Toml}
use nexus_client.Disk
use nexus_client.Disk.{Disk, Host, Io, failing}
use nexus_client.Keys.{node_key_exists, pubkey_base58, load, load_wallet}
use nexus_client.Config.Defaults.{Config}
use nexus_client.Config.Origin.{gateway_http_origin}
use nexus_client.Config.Stored.{load_config}
use nexus_client.Agenc.Net
use nexus_client.Agenc.Net.{Event, Servers, Act, fetch, post_as, via, ◌>>=◌, ◌>>◌}
use nexus_client.Stake.Rpc.{
  StakeError, get_latest_blockhash, get_gnn_balance, send_transaction, confirm_finalized,
}
use nexus_client.Stake.Transfer.{BuildError, build_signed_stake_tx}
use nexus_client.WalletAuth.{AuthError, Answers, get_wallet_jwt}
use nexus_client.Cli.{default_rpc_for}
use nexus_client.Cli.Amount.{fmt_gnn}
use nexus_client.Cli.Gateway.{
  LoadError, uninitialized, config_unread, node_key_unread, wallet_unread, GatewayError,
  gateway_json, text_at,
}

pub data StakeCmdError : Type 0 where
  unloaded : LoadError → StakeCmdError
  not_positive : StakeCmdError
  rounds_to_zero : StakeCmdError
  gateway : GatewayError → StakeCmdError
  missing_field : String → StakeCmdError
  rpc_failed : StakeError → StakeCmdError
  -- the balance, the amount, and who is short
  insufficient : ℕ → ℕ → String → StakeCmdError
  unbuilt : BuildError → StakeCmdError
  unauthenticated : AuthError → StakeCmdError

-- What the gateway says of the chain.
pub record Chain : Type 0 where
  pub gnn_mint : String
  pub treasury : String
  pub network : String

-- What `stake` prints; the last field is the minimum where it is not met.
pub record Staked : Type 0 where
  pub node : String
  pub staked : String
  pub below_minimum : Option String

abbrev positive : ℤ → Result ℕ StakeCmdError
positive (ℤ.pos zero) = err rounds_to_zero
positive (ℤ.pos (suc n)) = ok (suc n)
positive (ℤ.negsuc n) = err rounds_to_zero

-- The guards on `--amount`.
unfoldable pub amount_micros : (F : Float) → F.F64 → Result ℕ StakeCmdError
amount_micros F amount =
    if F.is_greater_than_zero amount then positive (F.round_micros amount) else err not_positive

module _ (S : Serde) (C : Solana) (K : Spl C) (B : Base58) (J : Answers) (servers : Servers S) where
  open S use {Value, get, as_i64, as_bool, string, int}

  unfoldable pub chain_of : Value → Result Chain StakeCmdError
  chain_of chain =
      ok_and_then (ok_or (text_at S chain "gnn_mint") (missing_field "gnn_mint")) λ mint.
        ok_and_then (ok_or (text_at S chain "treasury") (missing_field "treasury")) λ treasury.
          ok (record {
            gnn_mint = mint;
            treasury = treasury;
            network = unwrap_or (text_at S chain "network") "mainnet";
          })

  abbrev pub gateway_value : String → Reply → Result Value StakeCmdError
  gateway_value url reply = map_err gateway (gateway_json S url reply)

  abbrev pub config_url : String → String
  config_url origin = String.◌++◌ origin "/api/compute/config"

  abbrev pub stake_url : String → String
  stake_url origin = String.◌++◌ origin "/api/compute/stake"

  unfoldable pub read_chain : String → Act S Chain StakeCmdError
  read_chain origin = do
    reply ← fetch servers (config_url origin)
    Net.lift (ok_and_then (gateway_value (config_url origin) reply) chain_of)

  abbrev pub rpc_url_of : Option String → Chain → String
  rpc_url_of rpc chain = unwrap_or rpc (default_rpc_for chain.network)

  -- Nothing is sent when the balance is short.
  unfoldable pub check_balance : C.Keypair → ℕ → String → Chain → Act S (Unit {0}) StakeCmdError
  check_balance wallet amount_raw rpc_url chain = do
    balance ← via rpc_failed (get_gnn_balance S servers rpc_url (C.pubkey wallet) chain.gnn_mint)
    Net.lift (
        if ltb balance amount_raw
        then err (insufficient balance amount_raw (C.pubkey wallet))
        else ok tt)

  unfoldable pub send_stake : C.Keypair → ℕ → String → Chain → Act S String StakeCmdError
  send_stake wallet amount_raw rpc_url chain = do
    blockhash ← via rpc_failed (get_latest_blockhash S servers rpc_url)
    signed_b64 ←
        via unbuilt
          (build_signed_stake_tx S C K wallet chain.gnn_mint chain.treasury amount_raw blockhash)
    tx_signature ← via rpc_failed (send_transaction S servers rpc_url signed_b64)
    _ ← via rpc_failed (confirm_finalized S servers rpc_url tx_signature)
    Net.pure tx_signature

  abbrev pub stake_body : String → String → ℕ → Value
  stake_body node_pubkey tx_signature amount = json S (
      ("node_pubkey", string node_pubkey)
      ∷ ("tx_signature", string tx_signature)
      ∷ ("amount_micros", int (ℤ.pos amount))
      ∷ [])

  unfoldable pub record_stake : String → String → C.Keypair → ℕ → String → Act S Value StakeCmdError
  record_stake origin node_pubkey wallet amount tx_signature = do
    jwt ← via unauthenticated (get_wallet_jwt S C B J servers origin wallet)
    reply ← post_as servers jwt (stake_url origin) (stake_body node_pubkey tx_signature amount)
    Net.lift (gateway_value (stake_url origin) reply)

  -- The block that `cmd_stake` runs on the network.
  unfoldable pub stake_flow :
      String → String → C.Keypair → ℕ → Option String → Act S Value StakeCmdError
  stake_flow origin node_pubkey wallet amount rpc = do
    chain ← read_chain origin
    let rpc_url = rpc_url_of rpc chain
    _ ← check_balance wallet amount rpc_url chain
    tx_signature ← send_stake wallet amount rpc_url chain
    record_stake origin node_pubkey wallet amount tx_signature

  abbrev int_at : Value → String → ℤ
  int_at v key = unwrap_or (and_then (get v key) as_i64) (ℤ.pos 0)

  abbrev staked_of : String → Value → Staked
  staked_of node_pubkey v = record {
    node = node_pubkey;
    staked = fmt_gnn (int_at v "staked_micros");
    below_minimum =
        if unwrap_or (and_then (get v "meets_minimum") as_bool) false
        then none
        else some (fmt_gnn (int_at v "min_stake_micros"));
  }

  module _ (W : Keypairs C) (E : Ed25519) (T : Toml) (host : Host) (F : Float) where
    -- What the command needs of the directory: the amount, the origin, the node's key, the wallet.
    abbrev Loaded : Type 0
    Loaded = ℕ × String × String × C.Keypair

    unfoldable pub load_when : Bool → String → F.F64 → Io Loaded StakeCmdError
    load_when false dir amount = Disk.lift (err (unloaded uninitialized))
    load_when true dir amount = Disk.◌>>=◌ (Disk.lift (amount_micros F amount)) λ micros.
        Disk.◌>>=◌ (failing (λ e. unloaded (config_unread e)) (load_config T host dir)) λ cfg.
          Disk.◌>>=◌ (failing (λ e. unloaded (node_key_unread e)) (load E host dir)) λ key.
            Disk.◌>>=◌ (failing (λ e. unloaded (wallet_unread e)) (load_wallet C W host dir))
              λ wallet. Disk.pure (micros, gateway_http_origin cfg, pubkey_base58 E B key, wallet)

    unfoldable pub load_stake : String → F.F64 → Io Loaded StakeCmdError
    unfolding load_when
    load_stake dir amount =
        Disk.◌>>=◌ (node_key_exists host dir) λ initialized. load_when initialized dir amount

    -- The directory is only read.
    unfoldable pub cmd_stake : String → F.F64 → Option String → Disk → Act S Staked StakeCmdError
    cmd_stake dir amount rpc d = do
      (micros, origin, node_pubkey, wallet) ← Net.lift (load_stake dir amount d).0
      v ← stake_flow origin node_pubkey wallet micros rpc
      Net.pure (staked_of node_pubkey v)
