-- ===== src/Examples/Parts.antt =====
-- Small instances of the other interfaces.
use nexus_client.Prelude.{
  ℕ, zero, suc, ◌≡◌, refl, true, Option, none, some, List, [], ◌∷◌, ◌++◌, String, length, Result,
  ok, err, ◌==◌, if◌then◌else◌,
}
use nexus_client.External.Crypto.{Base58, Ed25519, Hashing}
use nexus_client.External.Solana.{Solana, Instruction}
use nexus_client.External.Http.{answer}
use nexus_client.Config.Defaults.{Config, config_default}
use nexus_client.Run.Link.{Peer, Link, streaming, chunk}
use nexus_client.Agenc.Net.{Servers}
use nexus_client.Agenc.Worker.{WorkerCfg, WorkerMeta, claim_disc}
use nexus_client.Utf8.{as_bytes}
use nexus_client.Examples.Json.{sample_serde}

abbrev replicate : ℕ → ℕ → List ℕ
replicate zero a = []
replicate (suc n) a = a ∷ replicate n a

abbrev pub sample_nonce : List ℕ
sample_nonce = replicate 32 7

-- Every text decodes to the same 32 bytes.
abbrev pub sample_base58 : Base58
sample_base58 = record { encode = λ bytes. "b58"; decode = λ s. some sample_nonce }

-- A key is its seed, and a signature is the message.
abbrev pub sample_ed25519 : Ed25519
sample_ed25519 = record {
  SigningKey = List ℕ;
  from_bytes = λ seed. seed;
  to_bytes = λ key. key;
  verifying_key = λ key. key;
  sign = λ key msg. msg;
  to_bytes-from_bytes = λ seed h. refl;
}

abbrev pub sample_hashing : Hashing
sample_hashing = record { sha256 = λ bytes. bytes; hex = λ bytes. "hex" }

abbrev pub agenc_key : List ℕ
agenc_key = 1 ∷ 2 ∷ 3 ∷ []

abbrev pub other_key : List ℕ
other_key = 9 ∷ []

abbrev pub claim_ix : Instruction
claim_ix = record { program_id_index = 0; instruction_data = claim_disc ++ 5 ∷ [] }

abbrev pub transfer_ix : Instruction
transfer_ix = record { program_id_index = 1; instruction_data = 2 ∷ [] }

-- A message is its list of instructions, over two keys; every text decodes to a claim beside a transfer.
abbrev pub sample_solana : Solana
sample_solana = record {
  Message = List Instruction;
  account_keys = λ msg. agenc_key ∷ other_key ∷ [];
  instructions = λ msg. msg;
  deserialize = λ bytes. ok (transfer_ix ∷ claim_ix ∷ []);
  serialize_message = λ msg. ok (42 ∷ []);
  base64_decode = λ s. ok [];
  base64_encode = λ bytes. "b64";
  pubkey_from_str = λ s. some agenc_key;
  Keypair = List ℕ;
  to_bytes = λ kp. kp;
  pubkey = λ kp. "worker";
  sign_message = λ kp msg. msg;
}

-- The gateway's socket never fails, and the upstream streams one delta and the sentinel.
abbrev pub sample_peer : Peer sample_serde
sample_peer = record {
  accepts = λ sent. true;
  stalls = λ sent. none;
  upstream = λ posts. streaming (chunk (as_bytes "data: HI\ndata: [DONE]\n") ∷ []);
}

abbrev pub fresh : Link sample_serde
fresh = record { sent = []; posted = []; signed = [] }

abbrev pub sample_config : Config
sample_config = config_default

-- Every request is answered by an unsigned transaction.
abbrev pub sample_servers : Servers sample_serde
sample_servers h = answer 200 "TX"

abbrev pub sample_worker_cfg : WorkerCfg
sample_worker_cfg = record { build_api_url = "http://sidecar"; rpc_url = "http://rpc" }

abbrev pub sample_meta : WorkerMeta
sample_meta = record {
  worker_agent = "worker";
  model = "hermes-3";
  compute_job_id = "session";
  node_pubkey = "worker";
  node_stake_micros = 0;
  stake_tx_sig = "";
  canary_passed = true;
  verified_at = nexus_client.Prelude.ℤ.pos 7;
}
