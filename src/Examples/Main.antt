-- ===== src/Examples/Main.antt =====
-- A run of the client at a concrete input.
use nexus_client.Prelude.{◌≡◌, refl, Option, List, err, ℤ, true, none, some, [], ◌∷◌}
use nexus_client.External.Spl.{Float}
use nexus_client.Disk.{
  Disk, ◌>>=◌, pure, lift, failing, join, exists, create_new, write_all, sync_all, read,
  create_dir_all,
}
use nexus_client.Keys.{write_new_secure, node_key_exists, save, save_wallet}
use nexus_client.Cli.{already_initialized, resolve_wallet, finish_init, init_unless, cmd_init}
use nexus_client.Cli.Main.{
  Command, init, status, Outside, initialized, failure, exit_code, run_command, main,
}
use nexus_client.Cli.Main.Left.{Left, main-Left}
use nexus_client.Cli.Main.Once.{Setting, run_in, kept_disk, main-once}
use nexus_client.Examples.Json.{sample_serde}
use nexus_client.Examples.Parts.{
  sample_peer, fresh, sample_servers, sample_nonce, sample_base58, sample_ed25519, sample_hashing,
  sample_solana,
}
use nexus_client.Examples.Auth.{answers}
use nexus_client.Examples.Cli.{sound, full, keypairs, toml, before}
use nexus_client.Examples.Commands.{spl}

abbrev float : Float
float = record { F64 = ℤ; is_greater_than_zero = λ x. true; round_micros = λ x. x }

abbrev outside : Outside sample_serde sample_solana
outside = record {
  home = some "/home/node";
  seed = sample_nonce;
  fresh = sample_nonce;
  peer = sample_peer;
  link = fresh;
  attempts = [];
  rounds = [];
}

abbrev first_run : Command float
first_run = init none "hermes-3" "new"

main-Left_example :
    Left sample_serde sample_servers sample_solana spl sample_base58 sample_ed25519 sample_hashing
      answers keypairs toml float sound outside
      (some first_run)
      before
      (main sample_serde sample_servers sample_solana spl sample_base58 sample_ed25519
        sample_hashing answers keypairs toml float sound outside
        (some first_run)
        before).1
main-Left_example =
    main-Left sample_serde sample_servers sample_solana spl sample_base58 sample_ed25519
      sample_hashing answers keypairs toml float sound outside (some first_run) before

-- A disk without room for the wallet, and then a sound one.
abbrev crowded : Setting sample_serde sample_solana
crowded = record { host = full; outside = outside }

abbrev roomy : Setting sample_serde sample_solana
roomy = record { host = sound; outside = outside }

abbrev between : List (Setting sample_serde sample_solana × Option (Command float))
between = (roomy, some (status (some "/n"))) ∷ (roomy, none) ∷ []

abbrev kept : Disk
kept =
    kept_disk sample_serde sample_servers sample_solana spl sample_base58 sample_ed25519
      sample_hashing answers keypairs toml float crowded roomy (some "/n") (some "/n") "hermes-3"
      "other" "new" "new" between before

main-once_example :
    run_in sample_serde sample_servers sample_solana spl sample_base58 sample_ed25519 sample_hashing
      answers keypairs toml float roomy
      (some (init (some "/n") "other" "new"))
      kept
    ≡ (initialized (err already_initialized), kept)
unfolding main run_command cmd_init node_key_exists init_unless resolve_wallet finish_init save
    failing write_new_secure create_new write_all sync_all join ◌>>=◌ exists pure lift read
    create_dir_all save_wallet
main-once_example =
    main-once sample_serde sample_servers sample_solana spl sample_base58 sample_ed25519
      sample_hashing answers keypairs toml float crowded roomy (some "/n") (some "/n") "hermes-3"
      "other" "new" "new" between before tt refl refl

refused_fails : exit_code {S = sample_serde} (initialized (err already_initialized)) ≡ some failure
unfolding exit_code
refused_fails = refl
