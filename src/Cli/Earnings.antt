-- ===== src/Cli/Earnings.antt =====
-- src/main.rs: `cmd_earnings`. The client is `reqwest::Client::new()`: a reply is the last one behind the
-- redirects that reqwest follows by itself, which are no events.
pub mod Confined
use Prim.Native.String
use nexus_client.Prelude.{ℤ, Bool, true, false, Option, String, err, map_err, and_then, unwrap_or}
use mathlib.Core.Option
use nexus_client.External.Serde.{Serde}
use nexus_client.External.Crypto.{Base58, Ed25519}
use nexus_client.External.Solana.{Solana}
use nexus_client.External.Keypairs.{Keypairs}
use nexus_client.External.Toml.{Toml}
use nexus_client.Disk
use nexus_client.Disk.{Disk, Host, Io, failing}
use nexus_client.Keys.{node_key_exists, pubkey_base58, load, load_wallet}
use nexus_client.Config.Origin.{gateway_http_origin}
use nexus_client.Config.Stored.{load_config}
use nexus_client.Agenc.Net
use nexus_client.Agenc.Net.{Event, Servers, Act, fetch_as, via, ◌>>=◌}
use nexus_client.WalletAuth.{AuthError, Answers, get_wallet_jwt}
use nexus_client.Cli.Amount.{fmt_gnn}
use nexus_client.Cli.Gateway.{
  LoadError, uninitialized, config_unread, node_key_unread, wallet_unread, GatewayError,
  gateway_json, text_at,
}

pub data EarningsError : Type 0 where
  unloaded : LoadError → EarningsError
  unauthenticated : AuthError → EarningsError
  gateway : GatewayError → EarningsError

-- The printed payout: its amount, status and epoch.
pub record Payout : Type 0 where
  pub amount : String
  pub status : String
  pub epoch : String

pub record Earnings : Type 0 where
  pub node : String
  pub lifetime : String
  pub unpaid : String
  pub last_payout : Option Payout

module _ (S : Serde) where
  open S use {Value, get, as_i64, as_object}

  abbrev micros_at : Value → String → ℤ
  micros_at v key = unwrap_or (and_then (get v key) as_i64) (ℤ.pos 0)

  abbrev payout_of : Value → Payout
  payout_of p = record {
    amount = fmt_gnn (micros_at p "gnn_micros");
    status = unwrap_or (text_at S p "status") "?";
    epoch = unwrap_or (text_at S p "epoch") "?";
  }

  -- Only an object is a payout.
  abbrev payout_when : Value → Option Payout
  payout_when p = Option.map (λ m. payout_of p) (as_object p)

  unfoldable pub earnings_of : String → Value → Earnings
  earnings_of node_pubkey earnings = record {
    node = node_pubkey;
    lifetime = fmt_gnn (micros_at earnings "lifetime_micros");
    unpaid = fmt_gnn (micros_at earnings "unpaid_micros");
    last_payout = and_then (get earnings "last_payout") payout_when;
  }

  module _ (C : Solana) (B : Base58) (J : Answers) (servers : Servers S) where
    abbrev pub earnings_url : String → String → String
    earnings_url origin node_pubkey =
        String.◌++◌ origin (String.◌++◌ "/api/compute/nodes/" (String.◌++◌ node_pubkey "/earnings"))

    unfoldable pub earnings_flow : String → String → C.Keypair → Act S S.Value EarningsError
    earnings_flow origin node_pubkey wallet = do
      jwt ← via unauthenticated (get_wallet_jwt S C B J servers origin wallet)
      reply ← fetch_as servers jwt (earnings_url origin node_pubkey)
      Net.lift (map_err gateway (gateway_json S (earnings_url origin node_pubkey) reply))

    module _ (W : Keypairs C) (E : Ed25519) (T : Toml) (host : Host) where
      unfoldable pub load_earnings : Bool → String → Io (String × String × C.Keypair) LoadError
      load_earnings false dir = Disk.lift (err uninitialized)
      load_earnings true dir = Disk.◌>>=◌ (failing config_unread (load_config T host dir)) λ cfg.
          Disk.◌>>=◌ (failing node_key_unread (load E host dir)) λ key.
            Disk.◌>>=◌ (failing wallet_unread (load_wallet C W host dir))
              λ wallet. Disk.pure (gateway_http_origin cfg, pubkey_base58 E B key, wallet)

      -- The directory is only read.
      unfoldable pub cmd_earnings : String → Disk → Act S Earnings EarningsError
      cmd_earnings dir d = do
        (origin, node_pubkey, wallet) ← Net.lift (
            map_err unloaded ((Disk.◌>>=◌ (node_key_exists host dir) λ b. load_earnings b dir) d).0)
        v ← earnings_flow origin node_pubkey wallet
        Net.pure (earnings_of node_pubkey v)
