-- ===== src/Examples/Stored.antt =====
-- What the commands stored, read back at concrete inputs.
use nexus_client.Prelude.{◌≡◌, refl, ◌++◌, ok, bytes_eq}
use nexus_client.External.Solana.{Solana}
use nexus_client.External.Keypairs.{Keypairs, IsLawful}
use nexus_client.Disk.{
  Disk, ◌>>=◌, pure, lift, failing, join, exists, create_new, write_all, sync_all, read,
  read_to_string, create_dir_all, from_utf8,
}
use nexus_client.Disk.Grown.{Grown-refl}
use nexus_client.Keys.{
  write_new_secure, node_key_exists, pubkey_base58, save, save_wallet, load_wallet,
  load_wallet_pubkey,
}
use nexus_client.Keys.Wallet.{load_wallet-save_wallet}
use nexus_client.Config.Defaults.{with_model}
use nexus_client.Config.Stored.{save_config}
use nexus_client.Cli.{resolve_wallet, finish_init, init_unless, cmd_init, cmd_status}
use nexus_client.Cli.Earnings.Confined.{Confined, loaded, events, cmd_earnings-Confined}
use nexus_client.Examples.Json.{sample_serde}
use nexus_client.Examples.Auth.{answers}
use nexus_client.Cli.Shown.{shown, status-init}
use nexus_client.Utf8.{as_bytes, from_utf8_lossy, from_u32}
use nexus_client.Examples.Parts.{
  sample_nonce, sample_base58, sample_ed25519, sample_solana, sample_servers,
}
use nexus_client.Examples.Cli.{sound, toml, keypairs, before}

abbrev after_init : Disk
after_init =
    (cmd_init sample_solana keypairs sample_ed25519 sample_base58 toml sound sample_nonce
      sample_nonce "/n" "hermes-3" "new" before).1

status-init_example :
    cmd_status sample_solana keypairs sample_ed25519 sample_base58 toml sound "/n" after_init ≡ (
      ok (
          shown sample_solana keypairs sample_ed25519 sample_base58 toml sound sample_nonce refl
            "/n" "hermes-3" "b58"),
      after_init,
    )
unfolding cmd_init node_key_exists init_unless resolve_wallet finish_init save failing
    write_new_secure create_new write_all sync_all join ◌>>=◌ exists pure lift read read_to_string
    create_dir_all from_utf8 save_wallet load_wallet_pubkey save_config pubkey_base58 as_bytes
    from_utf8_lossy from_u32 bytes_eq with_model
status-init_example =
    status-init sample_solana keypairs sample_ed25519 sample_base58 toml sound sample_nonce refl
      "/n" "hermes-3" sample_nonce "new" "b58" "worker" before after_init after_init refl Grown-refl
      (record { stat = refl; key_read = refl; config_read = refl }) (λ text printed. refl)

-- The one keypair has 64 bytes.
abbrev one_keypair : Solana
one_keypair = record sample_solana {
  Keypair = Unit {0};
  to_bytes = λ k. sample_nonce ++ sample_nonce;
  pubkey = λ k. "owner";
  sign_message = λ k msg. msg;
}

abbrev one_codec : Keypairs one_keypair
one_codec = record {
  try_from = λ bytes. ok tt;
  array_to_string = λ bytes. "[é]";
  array_from_str = λ s. ok (sample_nonce ++ sample_nonce);
}

abbrev one_lawful : IsLawful one_keypair one_codec
one_lawful = record {
  length-to_bytes = λ k. refl;
  try_from-to_bytes = λ k. refl;
  array_from_str-to_bytes = λ k. refl;
}

abbrev with_wallet : Disk
with_wallet = (save_wallet one_keypair one_codec sound tt "/n" before).1

load_wallet-save_wallet_example :
    (load_wallet one_keypair one_codec sound "/n" with_wallet ≡ (ok tt, with_wallet))
    × (load_wallet_pubkey one_keypair one_codec sound "/n" with_wallet ≡ (ok "owner", with_wallet))
unfolding save_wallet write_new_secure create_new write_all sync_all join ◌>>=◌
load_wallet-save_wallet_example =
    load_wallet-save_wallet one_keypair one_codec one_lawful sound tt "/n" before with_wallet refl
      Grown-refl refl

cmd_earnings-Confined_example :
    Confined sample_serde one_keypair sample_base58 answers sample_servers
      (loaded sample_serde one_keypair sample_base58 answers sample_servers one_codec sample_ed25519
        toml sound "/n" after_init)
      (events sample_serde one_keypair sample_base58 answers sample_servers one_codec sample_ed25519
        toml sound "/n" after_init)
cmd_earnings-Confined_example =
    cmd_earnings-Confined sample_serde one_keypair sample_base58 answers sample_servers one_codec
      sample_ed25519 toml sound "/n" after_init
