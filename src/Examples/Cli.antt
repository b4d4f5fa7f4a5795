-- ===== src/Examples/Cli.antt =====
-- The key files and the command `init` at concrete inputs.
use nexus_client.Prelude.{
  ◌≡◌, refl, false, none, some, [], ◌∷◌, ◌++◌, ok, err, ◌==◌, bytes_eq, if◌then◌else◌,
}
use nexus_client.External.Keypairs.{Keypairs}
use nexus_client.External.Toml.{Toml}
use nexus_client.Disk.{
  Host, Disk, IoError, other_kind, file, ◌>>=◌, pure, lift, failing, join, exists, create_new,
  write_all, sync_all, read, read_to_string, create_dir_all, from_utf8,
}
use nexus_client.Disk.Grown.{Grown-refl}
use nexus_client.Keys.{
  write_new_secure, node_key_exists, pubkey_base58, save, load, save_wallet, load_wallet_pubkey,
}
use nexus_client.Keys.Saved.{load-save}
use nexus_client.Config.Defaults.{config_default}
use nexus_client.Config.Stored.{save_config}
use nexus_client.Cli.{wallet_failed, resolve_wallet, finish_init, init_unless, cmd_init}
use nexus_client.Utf8.{as_bytes, from_utf8_lossy, from_u32}
use nexus_client.Examples.Parts.{sample_nonce, sample_base58, sample_ed25519, sample_solana}

abbrev pub sound : Host
sound = record {
  stat_fails = λ d p. false;
  open_fails = λ d p. none;
  write_fails = λ d p. none;
  sync_fails = λ d p. none;
  read_fails = λ d p. none;
  dirs_fail = λ d p. none;
  new_dirs = λ d p. p ∷ [];
}

abbrev full_disk : IoError
full_disk = record { kind = other_kind; text = "No space left on device" }

-- Nothing fits but one byte of the wallet.
abbrev pub full : Host
full = record sound {
  write_fails = λ d p. if p == "/n/wallet.json" then some (1, full_disk) else none;
}

abbrev pub keypairs : Keypairs sample_solana
keypairs = record {
  try_from = λ bytes. ok bytes;
  array_to_string = λ bytes. "[7]";
  array_from_str = λ s. ok (sample_nonce ++ sample_nonce);
}

abbrev pub toml : Toml
toml = record { to_string_pretty = λ cfg. ok "model"; from_str = λ s. ok config_default }

-- Another program's file.
abbrev pub before : Disk
before = ("/n/notes", file (1 ∷ []) 420) ∷ []

load-save_example :
    (load sample_ed25519 sound "/n" (save sample_ed25519 sound sample_nonce "/n" before).1).0
    ≡ ok sample_nonce
unfolding save failing write_new_secure create_new write_all sync_all join ◌>>=◌
load-save_example =
    load-save sample_ed25519 sound sample_nonce "/n" before
      (save sample_ed25519 sound sample_nonce "/n" before).1 refl refl Grown-refl refl

init_succeeds :
    (cmd_init sample_solana keypairs sample_ed25519 sample_base58 toml sound sample_nonce
      sample_nonce "/n" "hermes-3" "new" before).0
    ≡ ok ("b58", "worker")
unfolding cmd_init node_key_exists init_unless resolve_wallet finish_init save failing
    write_new_secure create_new write_all sync_all join ◌>>=◌ exists pure lift read read_to_string
    create_dir_all from_utf8 save_wallet load_wallet_pubkey save_config pubkey_base58 as_bytes
    from_utf8_lossy from_u32 bytes_eq
init_succeeds = refl

-- The wallet is written in part.
half_fails :
    (cmd_init sample_solana keypairs sample_ed25519 sample_base58 toml full sample_nonce
      sample_nonce "/n" "hermes-3" "new" before).0
    ≡ err (wallet_failed full_disk)
unfolding cmd_init node_key_exists init_unless resolve_wallet finish_init save failing
    write_new_secure create_new write_all sync_all join ◌>>=◌ exists pure lift read create_dir_all
    save_wallet
half_fails = refl
