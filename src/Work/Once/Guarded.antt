-- ===== src/Work/Once/Guarded.antt =====
-- What one iteration of src/work.rs `work_once` signs.
use nexus_client.Prelude.{ℕ, ℤ, ◌⊎◌, inl, inr, Option, none, some, List, String, All}
use nexus_client.External.Serde.{Serde}
use nexus_client.External.Crypto.{Base58, Ed25519, Hashing}
use nexus_client.External.Solana.{Solana}
use nexus_client.Agenc.Net.{
  Event, signed, Servers, Mcp, Keeps, Keeps-pure, Keeps-lift, Keeps-bind, Keeps-via, Keeps-fetch,
}
use nexus_client.Agenc.Builder.Signing.{IsChallenge, drive_builder-Keeps}
use nexus_client.Agenc.Worker.{claim_disc, submit_disc}
use nexus_client.Agenc.Worker.Signing.{IsChecked, worker_roundtrip-Keeps}
use nexus_client.Work.Select.{WorkCfg, SelectedJob, select_job}
use nexus_client.Work.Provider.{discover}
use nexus_client.Work.Once.{build, settle, on_selected, work_once}

module _ (S : Serde) (servers : Servers S) (mcp : Mcp S) (C : Solana) (B : Base58) (E : Ed25519)
    (H : Hashing) where
  -- A signature is over a checked claim or submit message, or over a text that the tools gave.
  abbrev pub IsAllowed : Event S → Type 0
  IsAllowed (signed bytes) =
      IsChecked S servers C E H claim_disc bytes
      ⊎ IsChecked S servers C E H submit_disc bytes
      ⊎ IsChallenge S mcp bytes
  IsAllowed _ = Unit

  module _ (cfg : WorkCfg) (wallet : C.Keypair) (now : ℤ) (readings : List ℕ) where
    discover-Keeps : Keeps IsAllowed (discover S servers cfg)
    unfolding discover
    discover-Keeps = Keeps-bind _ _ (Keeps-fetch servers _ tt) (λ r. Keeps-lift _)

    build-Keeps :
        (job : SelectedJob)
        → Keeps IsAllowed (build S servers mcp C B E H cfg wallet now readings job)
    unfolding build
    build-Keeps job = Keeps-via _ (
        drive_builder-Keeps S mcp IsAllowed (λ name args. tt) (λ secs. tt) (λ bytes c. inr (inr c))
          B E H _ _ _ _ _ readings)

    settle-Keeps :
        (job : SelectedJob) (built : String × String)
        → Keeps IsAllowed (settle S servers mcp C B E H cfg wallet now readings job built)
    unfolding settle
    settle-Keeps job (session_id, artifact) = Keeps-via _ (
        worker_roundtrip-Keeps S servers C E H IsAllowed (λ url body. tt) (λ bytes c. inl c)
          (λ bytes c. inr (inl c)) _ wallet _ artifact _)

    on_selected-Keeps :
        (job : Option SelectedJob)
        → Keeps IsAllowed (on_selected S servers mcp C B E H cfg wallet now readings job)
    unfolding on_selected
    on_selected-Keeps none = Keeps-pure none
    on_selected-Keeps (some job) =
        Keeps-bind _ _ (build-Keeps job)
          λ built. Keeps-bind _ _ (settle-Keeps job built) (λ submit. Keeps-pure _)

    -- Whatever the board, the tools, the sidecar and the RPC answer, an iteration signs only messages of
    -- transactions that pass the claim or the submit check, and texts that a tool answered as the message
    -- to sign; these are not checked.
    pub work_once-IsAllowed :
        (h : List (Event S))
        → All IsAllowed h
        → All IsAllowed (work_once S servers mcp C B E H cfg wallet now readings h).1
    unfolding work_once
    work_once-IsAllowed =
        (Keeps-bind _ _ (Keeps-via _ discover-Keeps)
          (λ jobs. on_selected-Keeps (select_job S jobs (C.pubkey wallet) cfg))).at
