-- ===== src/Work/Once.antt =====
-- src/work.rs: `work_once`, with the builder's session and the settlement that it chains.
pub mod Guarded
pub mod Results
use Prim.Native.String
use nexus_client.Prelude.{ℕ, zero, ℤ, true, Option, none, some, List, [], ◌∷◌, String, Result, take}
use nexus_client.External.Serde.{Serde}
use nexus_client.External.Crypto.{Base58, Ed25519, Hashing}
use nexus_client.External.Solana.{Solana}
use nexus_client.Agenc.Net
use nexus_client.Agenc.Net.{Event, Servers, Mcp, Act, pure, via, ◌>>=◌}
use nexus_client.Agenc.Builder.{BuilderError, drive_builder}
use nexus_client.Agenc.Worker.{WorkerCfg, WorkerMeta, WorkerSubmit, WorkerError, worker_roundtrip}
use nexus_client.Work.Select.{WorkCfg, SelectedJob, select_job}
use nexus_client.Work.Provider.{ProviderError, discover}

-- Which of the three steps failed.
pub data WorkError : Type 0 where
  discovering : ProviderError → WorkError
  building : BuilderError → WorkError
  settling : WorkerError → WorkError

abbrev pub worker_cfg : WorkCfg → WorkerCfg
worker_cfg cfg = record { build_api_url = cfg.build_api_url; rpc_url = cfg.rpc_url }

abbrev pub worker_meta : WorkCfg → String → String → ℤ → WorkerMeta
worker_meta cfg own_pubkey session_id now = record {
  worker_agent = own_pubkey;
  model = cfg.model;
  compute_job_id = session_id;
  node_pubkey = own_pubkey;
  node_stake_micros = 0;
  stake_tx_sig = "";
  canary_passed = true;
  verified_at = now;
}

module _ (S : Serde) (servers : Servers S) (mcp : Mcp S) (C : Solana) (B : Base58) (E : Ed25519)
    (H : Hashing) where
  open C use {Keypair, pubkey, to_bytes}

  unfoldable pub signing_key_from_wallet : Keypair → E.SigningKey
  signing_key_from_wallet kp = E.from_bytes (take 32 (to_bytes kp))

  -- `now` is the clock when the job is settled, `readings` are those of the builder's loop.
  module _ (cfg : WorkCfg) (wallet : Keypair) (now : ℤ) (readings : List ℕ) where
    unfoldable pub build : SelectedJob → Act S (String × String) WorkError
    build job = via building (
        drive_builder S mcp B E H (signing_key_from_wallet wallet) (pubkey wallet) job.parcel_uid
          job.brief cfg.budget_secs readings)

    unfoldable pub settle : SelectedJob → String × String → Act S WorkerSubmit WorkError
    settle job (session_id, artifact_sha256) = via settling (
        worker_roundtrip S servers C E H (worker_cfg cfg) wallet job.task_pda artifact_sha256
          (worker_meta cfg (pubkey wallet) session_id now))

    unfoldable pub on_selected : Option SelectedJob → Act S (Option WorkerSubmit) WorkError
    on_selected none = pure none
    on_selected (some job) = do built ← build job; submit ← settle job built; pure (some submit)

    unfoldable pub work_once : Act S (Option WorkerSubmit) WorkError
    work_once = do
      jobs ← via discovering (discover S servers cfg)
      on_selected (select_job S jobs (pubkey wallet) cfg)
