-- ===== src/Work/Once/Results.antt =====
-- What the outcome of one iteration of src/work.rs `work_once` means.
use nexus_client.Prelude.{ℕ, ℤ, ◌≡◌, Option, none, some, List, String, ok}
use nexus_client.External.Serde.{Serde}
use nexus_client.External.Crypto.{Base58, Ed25519, Hashing}
use nexus_client.External.Solana.{Solana}
use nexus_client.Agenc.Net.{Event, Servers, Mcp, via}
use nexus_client.Agenc.Net.Ensures.{Ensures}
use nexus_client.Agenc.Builder.Promotion.{Promoted}
use nexus_client.Agenc.Builder.Creation.{Created}
use nexus_client.Agenc.Worker.{WorkerSubmit}
use nexus_client.Agenc.Worker.Settling.{Settled}
use nexus_client.Work.Select.{WorkCfg, SelectedJob, select_job}
use nexus_client.Work.Provider.{discover}
use nexus_client.Work.Once.{discovering, worker_cfg, worker_meta}

module _ (S : Serde) (servers : Servers S) (mcp : Mcp S) (C : Solana) (B : Base58) (E : Ed25519)
    (H : Hashing) where
  module _ (cfg : WorkCfg) (wallet : C.Keypair) (now : ℤ) (readings : List ℕ) where
    -- The app that the session built, on the job's parcel and from its brief, was promoted, and the round trip for
    -- the job's task submitted its hash.
    pub record Done (job : SelectedJob) (submit : WorkerSubmit) (h' : List (Event S)) : Type 0 where
      pub built : String × String
      pub promoted_at : List (Event S)
      pub promoted : Promoted S mcp B E H built promoted_at
      pub created : Created S mcp job.parcel_uid job.brief built.0 promoted_at
      pub settled :
          Settled S servers C E H
            (worker_cfg cfg)
            wallet
            job.task_pda
            built.1
            (worker_meta cfg (C.pubkey wallet) built.0 now)
            promoted_at
            submit
            h'

    -- No work only if no job of the board is claimable; a submission only for the selected job.
    abbrev pub Accounted : Option SelectedJob → Option WorkerSubmit → List (Event S) → Type 0
    Accounted none none h = Unit {0}
    Accounted (some job) (some submit) h = Done job submit h
    Accounted _ _ h = ⊥

    -- What is accounted for is the choice among the jobs that the board gives.
    abbrev pub Found : List (Event S) → Option WorkerSubmit → List (Event S) → Type 0
    Found h r h' =
        (jobs : List S.Value) × ((via discovering (discover S servers cfg) h).0 ≡ ok jobs)
        × Accounted (select_job S jobs (C.pubkey wallet) cfg) r h'
