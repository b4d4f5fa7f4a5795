-- ===== src/Agenc/Proof.antt =====
-- agenc-worker/src/proof.rs: the worker-signed proof and its commitment.
use nexus_client.Prelude.{ℕ, ℤ, Bool, List, [], ◌∷◌, ◌++◌, String}
use nexus_client.External.Serde.{Serde, json}
use nexus_client.External.Crypto.{Ed25519, Hashing}

pub record WorkerProofInput : Type 0 where
  pub task_pda : String
  pub worker_agent : String
  pub model : String
  pub compute_job_id : String
  pub node_pubkey : String
  pub node_stake_micros : ℕ
  pub stake_tx_sig : String
  pub canary_passed : Bool
  pub artifact_sha256 : String
  pub verified_at : ℤ

module _ (S : Serde) (E : Ed25519) (H : Hashing) where
  open S use {Value, string, uint, int, bool, struct_to_vec}

  -- `WorkerProofBody`, by its serialized fields in the order of the struct
  unfoldable pub body_fields : WorkerProofInput → List (String × Value)
  body_fields input =
      ("version", uint 1)
      ∷ ("kind", string "nexus.worker.proof")
      ∷ ("taskPda", string input.task_pda)
      ∷ ("workerAgent", string input.worker_agent)
      ∷ ("model", string input.model)
      ∷ ("computeJobId", string input.compute_job_id)
      ∷ ("nodePubkey", string input.node_pubkey)
      ∷ ("nodeStakeMicros", uint input.node_stake_micros)
      ∷ ("stakeTxSig", string input.stake_tx_sig)
      ∷ ("canary", json S (("passed", bool input.canary_passed) ∷ []))
      ∷ ("artifactSha256", string input.artifact_sha256)
      ∷ ("verifiedAt", int input.verified_at)
      ∷ []

  -- `SignedWorkerProof`: the body's fields, then the signature
  pub record SignedWorkerProof : Type 0 where
    pub body : List (String × Value)
    pub signature : String

  unfoldable pub canonical_body_bytes : SignedWorkerProof → List ℕ
  canonical_body_bytes proof = struct_to_vec proof.body

  unfoldable pub build_worker_proof : E.SigningKey → WorkerProofInput → SignedWorkerProof × List ℕ
  build_worker_proof worker_key input =
      let body = body_fields input in
      let signature = H.hex (E.sign worker_key (struct_to_vec body)) in
      (
        record { body = body; signature = signature },
        H.sha256 (struct_to_vec (body ++ ("signature", string signature) ∷ [])),
      )
