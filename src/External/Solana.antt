-- ===== src/External/Solana.antt =====
-- The Solana crates, bincode and base64, as far as a transaction is read, signed and written. A public
-- key is its bytes.
use nexus_client.Prelude.{ℕ, Option, List, String, Result}

-- `CompiledInstruction`
pub record Instruction : Type 0 where
  pub program_id_index : ℕ
  pub instruction_data : List ℕ

pub record Solana : Type 1 where
  -- a legacy message, its account keys and instructions
  pub Message : Type 0
  pub account_keys : Message → List (List ℕ)
  pub instructions : Message → List Instruction
  -- `bincode::deserialize` of a transaction, by its message, and `bincode::serialize` of a message
  pub deserialize : List ℕ → Result Message String
  pub serialize_message : Message → Result (List ℕ) String
  pub base64_decode : String → Result (List ℕ) String
  pub base64_encode : List ℕ → String
  pub pubkey_from_str : String → Option (List ℕ)
  -- the wallet's keypair: 64 bytes, the seed first
  pub Keypair : Type 0
  pub to_bytes : Keypair → List ℕ
  pub pubkey : Keypair → String
  pub sign_message : Keypair → List ℕ → List ℕ
