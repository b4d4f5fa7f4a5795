-- ===== src/Cli/Main/Left.antt =====
-- What a run of src/main.rs leaves on the disk.
use nexus_client.Prelude.{
  ◌≡◌, refl, ◌∙◌, Bool, true, false, Option, none, some, String, ok, err, Result,
}
use nexus_client.External.Serde.{Serde}
use nexus_client.External.Crypto.{Base58, Ed25519, Hashing}
use nexus_client.External.Solana.{Solana}
use nexus_client.External.Spl.{Spl, Float}
use nexus_client.External.Keypairs.{Keypairs}
use nexus_client.External.Toml.{Toml}
use nexus_client.Disk.{
  Disk, Host, Io, then_with, ◌>>=◌, pure, lift, mapped, failing, exists, read, read_to_string,
}
use nexus_client.Disk.Grown.{Grown}
use nexus_client.Keys.{node_key_exists, load, load_wallet, load_wallet_pubkey}
use nexus_client.Config.Stored.{load_config}
use nexus_client.Agenc.Net.{Servers}
use nexus_client.WalletAuth.{Answers}
use nexus_client.Cli.{status_when, cmd_status}
use nexus_client.Cli.Init.{cmd_init-Grown}
use nexus_client.Cli.Start.{load_start}
use nexus_client.Cli.Earnings.{load_earnings}
use nexus_client.Cli.Stake.{load_when, load_stake}
use nexus_client.Cli.Work.{load_work}
use nexus_client.Cli.Main.{
  Command, init, status, start, earnings, stake, work, Outside, when_initialized, run_command, main,
}

-- The disk is left as it is.
record Reads {A X : Type 0} (m : Io A X) : Type 0 where
  at : (d : Disk) → (m d).1 ≡ d

then_with-Reads :
    {A B X : Type 0} (d : Disk) (r : Result A X × Disk) (f : A → Io B X)
    → r.1 ≡ d
    → ((a : A) → Reads (f a))
    → (then_with r f).1 ≡ d
then_with-Reads d (ok a, d') f e k = (k a).at d' ∙ e
then_with-Reads d (err x, d') f e k = e

Reads-bind :
    {A B X : Type 0} {m : Io A X} {f : A → Io B X}
    → Reads m
    → ((a : A) → Reads (f a))
    → Reads (m >>= f)
unfolding ◌>>=◌
Reads-bind {m} {f} r k = record { at = λ d. then_with-Reads d (m d) f (r.at d) k }

Reads-pure : {A X : Type 0} (a : A) → Reads {A = A} {X = X} (pure a)
unfolding pure
Reads-pure a = record { at = λ d. refl }

Reads-lift : {A X : Type 0} (r : Result A X) → Reads (lift r)
unfolding lift
Reads-lift r = record { at = λ d. refl }

mapped-Reads :
    {A X Y : Type 0} (f : X → Y) (d : Disk) (r : Result A X × Disk) → r.1 ≡ d → (mapped f r).1 ≡ d
mapped-Reads f d (ok a, d') e = e
mapped-Reads f d (err x, d') e = e

Reads-failing : {A X Y : Type 0} (f : X → Y) {m : Io A X} → Reads m → Reads (failing f m)
unfolding failing
Reads-failing f {m} r = record { at = λ d. mapped-Reads f d (m d) (r.at d) }

module _ (C : Solana) (W : Keypairs C) (E : Ed25519) (T : Toml) (host : Host) (dir : String) where
  Reads-node_key_exists : {X : Type 0} → Reads {X = X} (node_key_exists host dir)
  unfolding node_key_exists exists
  Reads-node_key_exists = record { at = λ d. refl }

  Reads-read : (path : String) → Reads (read host path)
  unfolding read
  Reads-read path = record { at = λ d. refl }

  Reads-read_to_string : (path : String) → Reads (read_to_string host path)
  unfolding read_to_string
  Reads-read_to_string path = Reads-bind (Reads-read path) λ bytes. Reads-lift _

  Reads-load_config : Reads (load_config T host dir)
  unfolding load_config
  Reads-load_config = Reads-bind (Reads-read_to_string _) λ s. Reads-lift _

  Reads-load : Reads (load E host dir)
  unfolding load
  Reads-load = Reads-bind (Reads-read _) λ bytes. Reads-lift _

  Reads-load_wallet : Reads (load_wallet C W host dir)
  unfolding load_wallet
  Reads-load_wallet =
      Reads-bind (Reads-read_to_string _)
        λ json. Reads-bind (Reads-lift _) λ bytes. Reads-bind (Reads-lift _) λ checked. Reads-lift _

  Reads-load_wallet_pubkey : Reads (load_wallet_pubkey C W host dir)
  unfolding load_wallet_pubkey
  Reads-load_wallet_pubkey = Reads-bind (Reads-read_to_string _) λ json.
      Reads-bind (Reads-lift _)
        λ bytes. Reads-bind (Reads-lift _) λ arr. Reads-bind (Reads-lift _) λ wallet. Reads-pure _

  Reads-status_when : (B : Base58) (b : Bool) → Reads (status_when C W E B T host b dir)
  unfolding status_when
  Reads-status_when B false = Reads-lift _
  Reads-status_when B true =
      Reads-bind (Reads-failing _ Reads-load_config)
        λ cfg. Reads-bind (Reads-failing _ Reads-load) λ key. Reads-pure _

  Reads-cmd_status : (B : Base58) → Reads (cmd_status C W E B T host dir)
  unfolding cmd_status
  Reads-cmd_status B = Reads-bind Reads-node_key_exists λ b. Reads-status_when B b

module _ (S : Serde) (servers : Servers S) (C : Solana) (K : Spl C) (B : Base58) (E : Ed25519)
    (H : Hashing) (J : Answers) (W : Keypairs C) (T : Toml) (F : Float) (host : Host)
    (out : Outside S C) where
  Reads-load_start : (b : Bool) (dir : String) → Reads (load_start S C W E B T host b dir)
  unfolding load_start
  Reads-load_start false dir = Reads-lift _
  Reads-load_start true dir =
      Reads-bind (Reads-failing _ (Reads-load_config C W E T host dir)) λ cfg.
        Reads-bind (Reads-failing _ (Reads-load C W E T host dir)) λ key.
          Reads-bind (Reads-failing _ (Reads-load_wallet_pubkey C W E T host dir)) λ w. Reads-pure _

  Reads-load_earnings :
      (b : Bool) (dir : String) → Reads (load_earnings S C B J servers W E T host b dir)
  unfolding load_earnings
  Reads-load_earnings false dir = Reads-lift _
  Reads-load_earnings true dir =
      Reads-bind (Reads-failing _ (Reads-load_config C W E T host dir)) λ cfg.
        Reads-bind (Reads-failing _ (Reads-load C W E T host dir))
          λ key. Reads-bind (Reads-failing _ (Reads-load_wallet C W E T host dir)) λ w. Reads-pure _

  Reads-load_work : (b : Bool) (dir : String) → Reads (load_work S servers C B E H W T host b dir)
  unfolding load_work
  Reads-load_work false dir = Reads-lift _
  Reads-load_work true dir =
      Reads-bind (Reads-failing _ (Reads-load_config C W E T host dir))
        λ cfg. Reads-bind (Reads-failing _ (Reads-load_wallet C W E T host dir)) λ w. Reads-pure _

  Reads-load_when :
      (b : Bool) (dir : String) (amount : F.F64)
      → Reads (load_when S C K B J servers W E T host F b dir amount)
  unfolding load_when
  Reads-load_when false dir amount = Reads-lift _
  Reads-load_when true dir amount = Reads-bind (Reads-lift _) λ micros.
      Reads-bind (Reads-failing _ (Reads-load_config C W E T host dir)) λ cfg.
        Reads-bind (Reads-failing _ (Reads-load C W E T host dir))
          λ key. Reads-bind (Reads-failing _ (Reads-load_wallet C W E T host dir)) λ w. Reads-pure _

  Reads-load_stake :
      (dir : String) (amount : F.F64) → Reads (load_stake S C K B J servers W E T host F dir amount)
  unfolding load_stake
  Reads-load_stake dir amount =
      Reads-bind (Reads-node_key_exists C W E T host dir) λ b. Reads-load_when b dir amount

  Reads-when_initialized :
      {A X : Type 0} (load : Bool → String → Io A X) (dir : String)
      → ((b : Bool) (dir : String) → Reads (load b dir))
      → Reads (when_initialized S servers C K B E H J W T F host out load dir)
  Reads-when_initialized load dir r =
      Reads-bind (Reads-node_key_exists C W E T host dir) λ b. r b dir

  -- How the disk may differ after a run.
  abbrev pub Left : Option (Command F) → Disk → Disk → Type 0
  Left (some (init dir model wallet)) d d' = Grown d d'
  Left _ d d' = d' ≡ d

  -- Whatever the host's faults and the answers from outside: `init` leaves every entry of the disk as it
  -- was and adds only directories and files of mode 0o600, and every other run leaves the disk exactly as
  -- it was.
  pub main-Left :
      (command : Option (Command F)) (d : Disk)
      → Left command d (main S servers C K B E H J W T F host out command d).1
  unfolding main run_command
  main-Left none d = refl
  main-Left (some (init dir model wallet)) d =
      cmd_init-Grown C W E B T host out.seed out.fresh _ model wallet d
  main-Left (some (status dir)) d = (Reads-cmd_status C W E T host _ B).at d
  main-Left (some (start dir)) d =
      (Reads-when_initialized (load_start S C W E B T host) _ Reads-load_start).at d
  main-Left (some (earnings dir)) d =
      (Reads-when_initialized (load_earnings S C B J servers W E T host) _ Reads-load_earnings).at d
  main-Left (some (stake amount rpc dir)) d = (Reads-load_stake _ amount).at d
  main-Left (some (work dir)) d =
      (Reads-when_initialized (load_work S servers C B E H W T host) _ Reads-load_work).at d
