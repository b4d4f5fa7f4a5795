-- ===== src/Agenc/Worker.antt =====
-- agenc-worker/src/worker.rs: the claim, proof and submit round trip.
pub mod Signing
pub mod Settling
use Prim.Native.String
use nexus_client.Prelude.{
  ℕ, ℤ, Bool, Option, none, some, List, [], ◌∷◌, String, Result, ok, err, take, map_err,
  ok_and_then, ok_or, and_then, unwrap_or, if◌then◌else◌,
}
use nexus_client.External.Serde.{Serde, json}
use nexus_client.External.Crypto.{Ed25519, Hashing}
use nexus_client.External.Http.{Reply, failed, answer, is_success}
use nexus_client.External.Solana.{Solana}
use nexus_client.Agenc.Net
use nexus_client.Agenc.Net.{Event, Servers, Act, lift, pure, post, record_signing, ◌>>=◌, ◌>>◌}
use nexus_client.Agenc.Tx.{TxError, assert_expected, sign_and_send}
use nexus_client.Agenc.Proof.{WorkerProofInput, build_worker_proof}

abbrev pub agenc_program : String
agenc_program = "HJsZ53Zb27b8QMRbQpuDngE44AdwCGxvEZr61Zmxw1xK"

abbrev pub claim_disc : List ℕ
claim_disc = 230 ∷ 40 ∷ 107 ∷ 109 ∷ 208 ∷ 228 ∷ 175 ∷ 31 ∷ []

abbrev pub submit_disc : List ℕ
submit_disc = 39 ∷ 108 ∷ 74 ∷ 4 ∷ 66 ∷ 125 ∷ 157 ∷ 7 ∷ []

pub record WorkerCfg : Type 0 where
  pub build_api_url : String
  pub rpc_url : String

pub record WorkerMeta : Type 0 where
  pub worker_agent : String
  pub model : String
  pub compute_job_id : String
  pub node_pubkey : String
  pub node_stake_micros : ℕ
  pub stake_tx_sig : String
  pub canary_passed : Bool
  pub verified_at : ℤ

pub record WorkerSubmit : Type 0 where
  pub task_pda : String
  pub proof_hash : String
  pub artifact_sha256 : String

pub data WorkerError : Type 0 where
  http : String → WorkerError
  sidecar : String → ℕ → String → WorkerError
  missing_field : String → WorkerError
  tx : TxError → WorkerError

-- `?` on a result of tx.rs.
abbrev from_tx : {A : Type 0} → Result A TxError → Result A WorkerError
from_tx r = map_err tx r

module _ (S : Serde) (servers : Servers S) where
  open S use {Value, get, as_str, from_str, string}

  -- `sidecar::BuildApi::post_unsigned_tx`
  read_unsigned : String → Reply → Result String WorkerError
  read_unsigned path (failed e) = err (http e)
  read_unsigned path (answer status text) =
      if is_success status
      then ok_and_then
          (ok_or (from_str text)
            (http (String.◌++◌ "parse " (String.◌++◌ path (String.◌++◌ " JSON: " text)))))
          (λ v. ok_or (and_then (get v "unsignedTxB64") as_str) (missing_field "unsignedTxB64"))
      else err (sidecar path status text)

  post_unsigned_tx : String → String → Value → Act S String WorkerError
  unfolding read_unsigned
  post_unsigned_tx base_url path body = do
    reply ← post servers (String.◌++◌ base_url path) body
    lift (read_unsigned path reply)

  unfoldable pub build_claim_tx : String → String → String → Act S String WorkerError
  unfolding post_unsigned_tx
  build_claim_tx base_url task_pda worker_pubkey =
      post_unsigned_tx base_url "/build-claim-tx"
        (json S (("taskPda", string task_pda) ∷ ("workerPubkey", string worker_pubkey) ∷ []))

  unfoldable pub build_submit_tx :
      String → String → String → String → String → Act S String WorkerError
  unfolding post_unsigned_tx
  build_submit_tx base_url task_pda worker_pubkey proof_hash_hex result_data =
      post_unsigned_tx base_url "/build-submit-tx" (
        json S (
          ("taskPda", string task_pda)
          ∷ ("workerPubkey", string worker_pubkey)
          ∷ ("proofHashHex", string proof_hash_hex)
          ∷ ("resultData", string result_data)
          ∷ []))

  module _ (C : Solana) (E : Ed25519) (H : Hashing) where
    open C use {Keypair, to_bytes, pubkey, pubkey_from_str}

    -- The parsed program id; the source expects the constant to parse.
    unfoldable pub program : List ℕ
    program = unwrap_or (pubkey_from_str agenc_program) []

    unfoldable pub signing_key_from_keypair : Keypair → E.SigningKey
    signing_key_from_keypair kp = E.from_bytes (take 32 (to_bytes kp))

    abbrev proof_input : String → String → WorkerMeta → WorkerProofInput
    proof_input task_pda artifact_sha256 meta = record {
      task_pda = task_pda;
      worker_agent = meta.worker_agent;
      model = meta.model;
      compute_job_id = meta.compute_job_id;
      node_pubkey = meta.node_pubkey;
      node_stake_micros = meta.node_stake_micros;
      stake_tx_sig = meta.stake_tx_sig;
      canary_passed = meta.canary_passed;
      artifact_sha256 = artifact_sha256;
      verified_at = meta.verified_at;
    }

    -- `sign_and_send(…).await?`
    abbrev sending :
        Result String TxError × List (Event S) → Result String WorkerError × List (Event S)
    sending (r, h) = (from_tx r, h)

    -- A fetched transaction, checked before it is signed and sent.
    unfoldable pub assert_sign_send : String → String → List ℕ → Keypair → Act S String WorkerError
    assert_sign_send rpc_url unsigned disc key = do
      lift (from_tx (assert_expected C unsigned program (disc ∷ [])))
      λ h. sending (sign_and_send C S servers rpc_url unsigned key h)

    abbrev commitment : Keypair → String → String → WorkerMeta → String
    commitment worker_key task_pda artifact_sha256 meta =
        H.hex
          (build_worker_proof S E H (signing_key_from_keypair worker_key)
            (proof_input task_pda artifact_sha256 meta)).1

    unfoldable pub worker_roundtrip :
        WorkerCfg → Keypair → String → String → WorkerMeta → Act S WorkerSubmit WorkerError
    worker_roundtrip cfg worker_key task_pda artifact_sha256 meta = do
      claim_tx ← build_claim_tx cfg.build_api_url task_pda (pubkey worker_key)
      _ ← assert_sign_send cfg.rpc_url claim_tx claim_disc worker_key
      let proof_hash_hex = commitment worker_key task_pda artifact_sha256 meta
      let result_data = String.◌++◌ "artifact:sha256:" artifact_sha256
      submit_tx ←
          build_submit_tx cfg.build_api_url task_pda (pubkey worker_key) proof_hash_hex result_data
      _ ← assert_sign_send cfg.rpc_url submit_tx submit_disc worker_key
      pure (record {
        task_pda = task_pda;
        proof_hash = proof_hash_hex;
        artifact_sha256 = artifact_sha256;
      })
