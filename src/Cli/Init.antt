-- ===== src/Cli/Init.antt =====
-- What the command `init` of src/main.rs leaves on the disk.
use nexus_client.Prelude.{ℕ, Bool, true, false, List, String, ◌==◌, if◌then◌else◌}
use nexus_client.External.Crypto.{Base58, Ed25519}
use nexus_client.External.Solana.{Solana}
use nexus_client.External.Keypairs.{Keypairs}
use nexus_client.External.Toml.{Toml}
use nexus_client.Disk.{Disk, Host, Io}
use nexus_client.Disk.Grown.{
  Grown, Grows, Grows-bind, Grows-pure, Grows-lift, Grows-failing, Grows-exists,
  Grows-read_to_string, Grows-create_dir_all,
}
use nexus_client.Keys.{
  generate, node_key_exists, save, save_wallet, load_wallet_pubkey, import_bytes,
  import_wallet_from,
}
use nexus_client.Keys.Added.{Grows-write_new_secure}
use nexus_client.Config.Stored.{Grows-save_config}
use nexus_client.Cli.{resolve_wallet, finish_init, init_unless, cmd_init}

module _ (C : Solana) (W : Keypairs C) (host : Host) where
  Grows-save_wallet : (k : C.Keypair) (dir : String) → Grows (save_wallet C W host k dir)
  unfolding save_wallet
  Grows-save_wallet k dir = Grows-write_new_secure host _ _

  Grows-load_wallet_pubkey : (dir : String) → Grows (load_wallet_pubkey C W host dir)
  unfolding load_wallet_pubkey
  Grows-load_wallet_pubkey dir = Grows-bind (Grows-read_to_string host _) λ json.
      Grows-bind (Grows-lift _)
        λ bytes. Grows-bind (Grows-lift _) λ arr. Grows-bind (Grows-lift _) λ wallet. Grows-pure _

  module _ (B : Base58) where
    Grows-import_bytes : (spec : String) (b : Bool) → Grows (import_bytes C W host B spec b)
    unfolding import_bytes
    Grows-import_bytes spec true =
        Grows-bind (Grows-failing _ (Grows-read_to_string host spec)) λ json. Grows-lift _
    Grows-import_bytes spec false = Grows-lift _

    Grows-import_wallet_from : (spec : String) → Grows (import_wallet_from C W host B spec)
    unfolding import_wallet_from
    Grows-import_wallet_from spec =
        Grows-bind (Grows-exists host spec)
          λ is_file. Grows-bind (Grows-import_bytes spec is_file) λ bytes. Grows-lift _

Grows-save :
    (E : Ed25519) (host : Host) (key : E.SigningKey) (dir : String) → Grows (save E host key dir)
unfolding save
Grows-save E host key dir = Grows-failing _ (Grows-write_new_secure host _ _)

Grows-if : {A E : Type 0} (b : Bool) {m n : Io A E} → Grows m → Grows n → Grows (if b then m else n)
Grows-if true g k = g
Grows-if false g k = k

module _ (C : Solana) (W : Keypairs C) (E : Ed25519) (B : Base58) (T : Toml) (host : Host) where
  Grows-resolve_wallet :
      (fresh : C.Keypair) (wallet : String) → Grows (resolve_wallet C W E B T host fresh wallet)
  unfolding resolve_wallet
  Grows-resolve_wallet fresh wallet =
      Grows-if (wallet == "new") (Grows-pure fresh)
        (Grows-failing _ (Grows-import_wallet_from C W host B wallet))

  pub Grows-finish_init :
      (key : E.SigningKey) (k : C.Keypair) (dir model : String)
      → Grows (finish_init C W E B T host key k dir model)
  unfolding finish_init
  Grows-finish_init key k dir model =
      Grows-bind (Grows-failing _ (Grows-save_wallet C W host k dir)) λ _.
        Grows-bind (Grows-failing _ (Grows-load_wallet_pubkey C W host dir))
          λ pk. Grows-bind (Grows-failing _ (Grows-save_config T host _ dir)) λ _. Grows-pure _

  Grows-init_unless :
      (b : Bool) (seed : List ℕ) (fresh : C.Keypair) (dir model wallet : String)
      → Grows (init_unless C W E B T host b seed fresh dir model wallet)
  unfolding init_unless
  Grows-init_unless true seed fresh dir model wallet = Grows-lift _
  Grows-init_unless false seed fresh dir model wallet =
      Grows-bind (Grows-resolve_wallet fresh wallet) λ k.
        Grows-bind (Grows-failing _ (Grows-create_dir_all host dir)) λ _.
          Grows-bind (Grows-failing _ (Grows-save E host (generate E seed) dir))
            λ _. Grows-finish_init (generate E seed) k dir model

  -- Whatever fails, `init` leaves every entry of the disk as it was, and what it adds are directories and
  -- files of mode 0o600.
  pub cmd_init-Grown :
      (seed : List ℕ) (fresh : C.Keypair) (dir model wallet : String) (d : Disk)
      → Grown d (cmd_init C W E B T host seed fresh dir model wallet d).1
  unfolding cmd_init node_key_exists
  cmd_init-Grown seed fresh dir model wallet =
      (Grows-bind (Grows-exists host _) λ b. Grows-init_unless b seed fresh dir model wallet).at
