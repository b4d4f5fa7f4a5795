-- ===== src/Cli/Work.antt =====
-- src/main.rs: `cmd_work`. A round of its loop is given what the outside contributes: whether the tools'
-- process starts, the clock, the jitter's sample, and whether ctrl-c comes before the pause is over.
pub mod Pace
use nexus_client.Prelude.{
  ℕ, ℤ, Bool, true, false, Option, none, some, List, [], ◌∷◌, ◌++◌, String, Result, ok, err,
}
use nexus_client.External.Serde.{Serde}
use nexus_client.External.Crypto.{Base58, Ed25519, Hashing}
use nexus_client.External.Solana.{Solana}
use nexus_client.External.Keypairs.{Keypairs}
use nexus_client.External.Toml.{Toml}
use nexus_client.Disk
use nexus_client.Disk.{Disk, Host, Io, failing}
use nexus_client.Keys.{node_key_exists, load_wallet}
use nexus_client.Config.Defaults.{Config}
use nexus_client.Config.Stored.{load_config}
use nexus_client.Agenc.Net.{Event, Servers, Mcp, Act}
use nexus_client.Agenc.Worker.{WorkerSubmit}
use nexus_client.Run.Backoff.{next_backoff, jittered}
use nexus_client.Work.Select.{WorkCfg, from_config}
use nexus_client.Work.Provider.{register}
use nexus_client.Work.Once.{WorkError, work_once}
use nexus_client.Cli.Gateway.{LoadError, uninitialized, config_unread, wallet_unread}

pub record Round (S : Serde) : Type 0 where
  pub spawned : Result (Mcp S) String
  pub now : ℤ
  pub readings : List ℕ
  pub sample : ℕ
  pub interrupted : Bool

-- How an iteration ended.
pub data Iteration : Type 0 where
  submitted : Iteration
  idle : Iteration
  failed : Iteration

-- The pause after an iteration, and the backoff that is kept.
unfoldable pub pace : Iteration → Option ℕ → ℕ → Option ℕ × ℕ
pace submitted backoff sample = (none, 0)
pace idle backoff sample = let d = next_backoff backoff in (some d, jittered d sample)
pace failed backoff sample = let d = next_backoff backoff in (some d, jittered d sample)

-- Where the loop stands when it was interrupted, or when the rounds are used up.
pub record Worked (S : Serde) : Type 0 where
  pub interrupted : Bool
  pub backoff : Option ℕ
  pub iterations : List Iteration
  pub delays : List ℕ
  pub history : List (Event S)

module _ (S : Serde) (servers : Servers S) (C : Solana) (B : Base58) (E : Ed25519)
    (H : Hashing) where
  abbrev pub iteration_of : Result (Option WorkerSubmit) WorkError → Iteration
  iteration_of (ok (some submit)) = submitted
  iteration_of (ok none) = idle
  iteration_of (err e) = failed

  abbrev pub ended :
      Result (Option WorkerSubmit) WorkError × List (Event S) → Iteration × List (Event S)
  ended (r, h) = (iteration_of r, h)

  -- A process that does not start fails the iteration.
  abbrev pub iterate_with :
      WorkCfg
      → C.Keypair
      → ℤ
      → List ℕ
      → Result (Mcp S) String
      → List (Event S)
      → Iteration × List (Event S)
  iterate_with cfg wallet now readings (err e) h = (failed, h)
  iterate_with cfg wallet now readings (ok mcp) h =
      ended (work_once S servers mcp C B E H cfg wallet now readings h)

  unfoldable pub iterate :
      WorkCfg → C.Keypair → Round S → List (Event S) → Iteration × List (Event S)
  iterate cfg wallet round h = iterate_with cfg wallet round.now round.readings round.spawned h

  module _ (cfg : WorkCfg) (wallet : C.Keypair) where
    -- `next` is the rest of the loop.
    abbrev pub paused : Bool → Worked S → Worked S → Worked S
    paused true here next = record here { interrupted = true }
    paused false here next = next

    -- After an iteration and its pace.
    abbrev pub stepped : Worked S → Iteration × List (Event S) → Option ℕ × ℕ → Worked S
    stepped w (it, h) (backoff, delay) = record {
      interrupted = false;
      backoff = backoff;
      iterations = w.iterations ++ it ∷ [];
      delays = w.delays ++ delay ∷ [];
      history = h;
    }

    abbrev pub step : Round S → Worked S → Worked S
    step round w =
        let i = iterate cfg wallet round w.history in stepped w i (pace i.0 w.backoff round.sample)

    unfoldable pub work_loop : List (Round S) → Worked S → Worked S
    work_loop [] w = w
    work_loop (round ∷ rounds) w =
        let here = step round w in paused round.interrupted here (work_loop rounds here)

    -- A failing registration is only reported.
    unfoldable pub work_from : List (Round S) → List (Event S) → Worked S
    work_from rounds h = work_loop rounds (record {
      interrupted = false;
      backoff = none;
      iterations = [];
      delays = [];
      history = (register S servers C cfg wallet h).1;
    })

  module _ (W : Keypairs C) (T : Toml) (host : Host) where
    unfoldable pub load_work : Bool → String → Io (WorkCfg × C.Keypair) LoadError
    load_work false dir = Disk.lift (err uninitialized)
    load_work true dir = Disk.◌>>=◌ (failing config_unread (load_config T host dir)) λ cfg.
        Disk.◌>>=◌ (failing wallet_unread (load_wallet C W host dir))
          λ wallet. Disk.pure (from_config cfg, wallet)

    abbrev worked :
        Result (WorkCfg × C.Keypair) LoadError
        → List (Round S)
        → List (Event S)
        → Result (Worked S) LoadError
    worked (err e) rounds h = err e
    worked (ok (cfg, wallet)) rounds h = ok (work_from cfg wallet rounds h)

    -- The directory is only read.
    unfoldable pub cmd_work :
        String → Disk → List (Round S) → List (Event S) → Result (Worked S) LoadError
    cmd_work dir d rounds h =
        worked ((Disk.◌>>=◌ (node_key_exists host dir) λ b. load_work b dir) d).0 rounds h
