-- ===== src/Cli/Main/Once.antt =====
-- What any number of runs of src/main.rs does to an initialized directory.
use nexus_client.Prelude.{
  ◌≡◌, subst, false, Option, none, some, lookup, List, [], ◌∷◌, String, err, ap, sym,
}
use nexus_client.External.Serde.{Serde}
use nexus_client.External.Crypto.{Base58, Ed25519, Hashing}
use nexus_client.External.Solana.{Solana}
use nexus_client.External.Spl.{Spl, Float}
use nexus_client.External.Keypairs.{Keypairs}
use nexus_client.External.Toml.{Toml}
use nexus_client.Disk.{Disk, Host, join}
use nexus_client.Disk.Grown.{Grown, Grown-refl, Grown-trans}
use nexus_client.Keys.{node_key_file}
use nexus_client.Agenc.Net.{Servers}
use nexus_client.WalletAuth.{Answers}
use nexus_client.Cli.{already_initialized}
use nexus_client.Cli.Once.{IsLate, IsPresent, IsPresent-init, refuses}
use nexus_client.Cli.Main.{
  Command, init, status, start, earnings, stake, work, Outside, Ran, initialized, dir_or_default,
  run_command, main,
}
use nexus_client.Cli.Main.Left.{Left, main-Left}

-- What a run meets: the host, and what comes from outside.
pub record Setting (S : Serde) (C : Solana) : Type 0 where
  pub host : Host
  pub outside : Outside S C

module _ (S : Serde) (servers : Servers S) (C : Solana) (K : Spl C) (B : Base58) (E : Ed25519)
    (H : Hashing) (J : Answers) (W : Keypairs C) (T : Toml) (F : Float) where
  abbrev pub run_in : Setting S C → Option (Command F) → Disk → Ran S × Disk
  run_in s command d = main S servers C K B E H J W T F s.host s.outside command d

  -- The disk after the runs, one after the other.
  abbrev pub after_runs : List (Setting S C × Option (Command F)) → Disk → Disk
  after_runs [] d = d
  after_runs ((s, command) ∷ runs) d = after_runs runs (run_in s command d).1

  Left-Grown :
      (host : Host) (out : Outside S C) (command : Option (Command F)) (d d' : Disk)
      → Left S servers C K B E H J W T F host out command d d'
      → Grown d d'
  Left-Grown host out none d d' e = subst (Grown d) (sym e) Grown-refl
  Left-Grown host out (some (init dir model wallet)) d d' g = g
  Left-Grown host out (some (status dir)) d d' e = subst (Grown d) (sym e) Grown-refl
  Left-Grown host out (some (start dir)) d d' e = subst (Grown d) (sym e) Grown-refl
  Left-Grown host out (some (earnings dir)) d d' e = subst (Grown d) (sym e) Grown-refl
  Left-Grown host out (some (stake amount rpc dir)) d d' e = subst (Grown d) (sym e) Grown-refl
  Left-Grown host out (some (work dir)) d d' e = subst (Grown d) (sym e) Grown-refl

  -- Any number of runs leaves every entry as it was.
  after_runs-Grown :
      (runs : List (Setting S C × Option (Command F))) (d : Disk) → Grown d (after_runs runs d)
  after_runs-Grown [] d = Grown-refl
  after_runs-Grown ((s, command) ∷ runs) d =
      Grown-trans
        (Left-Grown s.host s.outside command d _
          (main-Left S servers C K B E H J W T F s.host s.outside command d))
        (after_runs-Grown runs _)

  -- The path of the node key in the directory that an option names.
  abbrev pub key_path : Setting S C → Option String → String
  key_path s dir =
      join (dir_or_default S servers C K B E H J W T F s.host s.outside dir) node_key_file

  -- A run of `init` that got as far as its node key, whether it then succeeded or not.
  abbrev pub HasInitialized : Ran S → Type 0
  HasInitialized (initialized r) = IsLate r
  HasInitialized _ = ⊥

  module _ (s s' : Setting S C) (dir dir' : Option String) (model model' wallet wallet' : String)
      (runs : List (Setting S C × Option (Command F))) (d : Disk) where
    abbrev pub first_init : Ran S × Disk
    first_init = run_in s (some (init dir model wallet)) d

    abbrev pub kept_disk : Disk
    kept_disk = after_runs runs first_init.1

    has_key : HasInitialized first_init.0 → IsPresent (key_path s dir) first_init.1
    unfolding main run_command
    has_key late =
        (IsPresent-init C W E B T s.host s.outside.seed s.outside.fresh _ model wallet).at d late

    key_kept :
        key_path s' dir' ≡ key_path s dir
        → IsPresent (key_path s dir) first_init.1
        → IsPresent (key_path s' dir') kept_disk
    key_kept same (e, h) = (
      e,
      subst (λ path. lookup path kept_disk ≡ some e) (sym same)
          ((after_runs-Grown runs first_init.1).keeps _ e h),
    )

    -- Once a run of `init` has saved the node key, whether it then succeeded or failed at the wallet or at
    -- the configuration, and whatever runs follow it: a run of `init` for the same key file is refused and
    -- leaves the disk as it is, when the key's path can be examined.
    pub main-once :
        HasInitialized first_init.0
        → key_path s' dir' ≡ key_path s dir
        → s'.host.stat_fails kept_disk (key_path s' dir') ≡ false
        → run_in s' (some (init dir' model' wallet')) kept_disk
          ≡ (initialized (err already_initialized), kept_disk)
    unfolding main run_command
    main-once late same sound =
        ap (λ r. (initialized r.0, r.1))
          (refuses C W E B T s'.host s'.outside.seed s'.outside.fresh _ model' wallet' kept_disk
            sound (key_kept same (has_key late)))
