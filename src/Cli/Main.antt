-- ===== src/Cli/Main.antt =====
-- src/main.rs: `main`, which runs the command that the arguments name.
pub mod Left
pub mod Once
use nexus_client.Prelude.{
  ℕ, Bool, true, false, Option, none, some, List, [], String, if◌then◌else◌, Result, ok, err,
  unwrap_or,
}
use nexus_client.External.Serde.{Serde}
use nexus_client.External.Crypto.{Base58, Ed25519, Hashing}
use nexus_client.External.Solana.{Solana}
use nexus_client.External.Spl.{Spl, Float}
use nexus_client.External.Keypairs.{Keypairs}
use nexus_client.External.Toml.{Toml}
use nexus_client.Disk
use nexus_client.Disk.{Disk, Host, Io, join}
use nexus_client.Keys.{node_key_exists}
use nexus_client.Run.Link.{Peer, Link}
use nexus_client.Run.Serve.{Wake}
use nexus_client.Agenc.Net.{Event, Servers}
use nexus_client.WalletAuth.{Answers}
use nexus_client.Cli.{InitError, StatusError, Status, cmd_init, cmd_status}
use nexus_client.Cli.Gateway.{LoadError}
use nexus_client.Cli.Start.{StartError, load_start, cmd_start}
use nexus_client.Cli.Earnings.{EarningsError, Earnings, load_earnings, cmd_earnings}
use nexus_client.Cli.Stake.{StakeCmdError, Staked, load_stake, cmd_stake}
use nexus_client.Cli.Work.{Round, Worked, load_work, cmd_work}

-- The arguments that clap has read.
pub data Command (F : Float) : Type 0 where
  init : (dir : Option String) (model wallet : String) → Command F
  status : (dir : Option String) → Command F
  start : (dir : Option String) → Command F
  earnings : (dir : Option String) → Command F
  stake : (amount : F.F64) (rpc dir : Option String) → Command F
  work : (dir : Option String) → Command F

pub data ExitCode : Type 0 where
  success : ExitCode
  failure : ExitCode

-- What a run ends with.
pub data Ran (S : Serde) : Type 0 where
  welcomed : Ran S
  initialized : Result (String × String) InitError → Ran S
  shown : Result Status StatusError → Ran S
  served : Result (Unit {0}) StartError → Ran S
  earned : Result Earnings EarningsError × List (Event S) → Ran S
  staked : Result Staked StakeCmdError × List (Event S) → Ran S
  worked : Result (Worked S) LoadError → Ran S

abbrev code_of : {A E : Type 0} → Result A E → ExitCode
code_of (ok a) = success
code_of (err e) = failure

-- `none` while `work` is running.
unfoldable pub exit_code : {S : Serde} → Ran S → Option ExitCode
exit_code welcomed = some success
exit_code (initialized r) = some (code_of r)
exit_code (shown r) = some (code_of r)
exit_code (served r) = some (code_of r)
exit_code (earned (r, h)) = some (code_of r)
exit_code (staked (r, h)) = some (code_of r)
exit_code (worked (err e)) = some failure
exit_code (worked (ok w)) = if w.interrupted then some success else none

-- `dirs::home_dir` gives the argument.
abbrev pub default_dir : Option String → String
default_dir home = join (unwrap_or home ".") ".nexus-client"

-- What the run is given from outside: the home directory, the generators' seed and keypair, and what the
-- gateway's attempts and the rounds of `work` bring.
pub record Outside (S : Serde) (C : Solana) : Type 0 where
  pub home : Option String
  pub seed : List ℕ
  pub fresh : C.Keypair
  pub peer : Peer S
  pub link : Link S
  pub attempts : List (Option (List Wake) × ℕ)
  pub rounds : List (Round S)

module _ (S : Serde) (servers : Servers S) (C : Solana) (K : Spl C) (B : Base58) (E : Ed25519)
    (H : Hashing) (J : Answers) (W : Keypairs C) (T : Toml) (F : Float) (host : Host)
    (out : Outside S C) where
  abbrev pub dir_or_default : Option String → String
  dir_or_default dir = unwrap_or dir (default_dir out.home)

  -- The disk that a command leaves which only loads from it.
  abbrev pub loaded : {A X : Type 0} → Io A X → Disk → Disk
  loaded load d = (load d).1

  abbrev pub when_initialized : {A X : Type 0} → (Bool → String → Io A X) → String → Io A X
  when_initialized load dir = Disk.◌>>=◌ (node_key_exists host dir) λ b. load b dir

  unfoldable pub run_command : Command F → Disk → Ran S × Disk
  run_command (init dir model wallet) d =
      let (r, d') =
        cmd_init C W E B T host out.seed out.fresh (dir_or_default dir) model wallet d in
      (initialized r, d')
  run_command (status dir) d =
      let (r, d') = cmd_status C W E B T host (dir_or_default dir) d in (shown r, d')
  run_command (start dir) d = (
    served (cmd_start S C W E B T host out.peer out.link out.attempts (dir_or_default dir) d),
    loaded (when_initialized (load_start S C W E B T host) (dir_or_default dir)) d,
  )
  run_command (earnings dir) d = (
    earned (cmd_earnings S C B J servers W E T host (dir_or_default dir) d []),
    loaded (when_initialized (load_earnings S C B J servers W E T host) (dir_or_default dir)) d,
  )
  run_command (stake amount rpc dir) d = (
    staked (cmd_stake S C K B J servers W E T host F (dir_or_default dir) amount rpc d []),
    loaded (load_stake S C K B J servers W E T host F (dir_or_default dir) amount) d,
  )
  run_command (work dir) d = (
    worked (cmd_work S servers C B E H W T host (dir_or_default dir) d out.rounds []),
    loaded (when_initialized (load_work S servers C B E H W T host) (dir_or_default dir)) d,
  )

  -- Without a command the welcome text is printed.
  unfoldable pub main : Option (Command F) → Disk → Ran S × Disk
  unfolding run_command
  main none d = (welcomed, d)
  main (some command) d = run_command command d
