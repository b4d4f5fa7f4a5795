-- ===== src/Examples/Settling.antt =====
-- A settled job at concrete inputs.
use nexus_client.Prelude.{
  ℕ, ℤ, pos, ◌≡◌, refl, true, none, Option, List, [], ◌∷◌, ◌++◌, String, ok, err, ◌==◌, All,
  if◌then◌else◌,
}
use nexus_client.External.Solana.{Solana, Instruction}
use nexus_client.External.Http.{Reply, answer}
use nexus_client.Agenc.Net.{Event, posted, fetched, Servers}
use nexus_client.Agenc.Worker.{claim_disc, submit_disc, WorkerSubmit, worker_roundtrip}
use nexus_client.Agenc.Worker.Settling.{Settled, worker_roundtrip-Settled}
use nexus_client.Work.Once.{work_once}
use nexus_client.Work.Once.Guarded.{IsAllowed, work_once-IsAllowed}
use nexus_client.Examples.Json.{sample_serde}
use nexus_client.Examples.Parts.{
  sample_base58, sample_ed25519, sample_hashing, sample_nonce, sample_worker_cfg, sample_meta,
  sample_solana, claim_ix,
}
use nexus_client.Examples.Builder.{sample_mcp}
use nexus_client.Examples.Work.{cfg}

abbrev submit_ix : Instruction
submit_ix = record { program_id_index = 0; instruction_data = submit_disc ++ 5 ∷ [] }

abbrev decoded : List ℕ → List Instruction
decoded [] = claim_ix ∷ []
decoded _ = submit_ix ∷ []

-- The text `submit` decodes to a submission, every other one to a claim.
abbrev settling : Solana
settling = record sample_solana {
  base64_decode = λ s. ok (if s == "submit" then 1 ∷ [] else []);
  deserialize = λ bytes. ok (decoded bytes);
}

abbrev reply_to : Event sample_serde → Reply
reply_to (posted url body) =
    if url == "http://sidecar/build-claim-tx"
    then answer 200 "TX"
    else if url == "http://sidecar/build-submit-tx"
    then answer 200 "SUBMITTX"
    else answer 200 "RESULT"
reply_to _ = answer 200 "BOARD"

-- The sidecar, the RPC node and the board.
abbrev settled_servers : Servers sample_serde
settled_servers [] = answer 200 "RESULT"
settled_servers (e ∷ []) = reply_to e
settled_servers (e ∷ e' ∷ h) = settled_servers (e' ∷ h)

abbrev sample_submit : WorkerSubmit
sample_submit = record { task_pda = "task"; proof_hash = "hex"; artifact_sha256 = "hex" }

settles :
    (worker_roundtrip sample_serde settled_servers settling sample_ed25519 sample_hashing
      sample_worker_cfg sample_nonce "task" "hex" sample_meta []).0
    ≡ ok sample_submit
unfolding worker_roundtrip nexus_client.Agenc.Net.◌>>=◌ nexus_client.Agenc.Worker.build_claim_tx
    nexus_client.Agenc.Net.post nexus_client.Agenc.Net.lift
    nexus_client.Agenc.Worker.assert_sign_send nexus_client.Agenc.Tx.assert_expected
    nexus_client.Agenc.Tx.decode_tx nexus_client.Text.trim nexus_client.Prelude.bytes_eq
    nexus_client.Agenc.Worker.program nexus_client.Prelude.contains_bytes
    nexus_client.Agenc.Tx.sign_and_send nexus_client.Agenc.Net.record_signing
    nexus_client.Agenc.Tx.send_json_rpc nexus_client.Agenc.Worker.build_submit_tx
    nexus_client.Agenc.Net.pure
settles = refl

worker_roundtrip-Settled_example :
    Settled sample_serde settled_servers settling sample_ed25519 sample_hashing sample_worker_cfg
      sample_nonce "task" "hex" sample_meta [] sample_submit
      (worker_roundtrip sample_serde settled_servers settling sample_ed25519 sample_hashing
        sample_worker_cfg sample_nonce "task" "hex" sample_meta []).1
worker_roundtrip-Settled_example =
    worker_roundtrip-Settled sample_serde settled_servers settling sample_ed25519 sample_hashing
      sample_worker_cfg sample_nonce "task" "hex" sample_meta [] sample_submit settles

work_once-IsAllowed_example :
    All
      (IsAllowed sample_serde settled_servers sample_mcp settling sample_base58 sample_ed25519
        sample_hashing)
      (work_once sample_serde settled_servers sample_mcp settling sample_base58 sample_ed25519
        sample_hashing cfg sample_nonce
        (pos 7)
        (0 ∷ [])
        []).1
work_once-IsAllowed_example =
    work_once-IsAllowed sample_serde settled_servers sample_mcp settling sample_base58
      sample_ed25519 sample_hashing cfg sample_nonce (pos 7) (0 ∷ []) [] tt
