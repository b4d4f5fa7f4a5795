-- ===== src/External/Spl.antt =====
-- The Solana and SPL crates, as far as the stake's transfer is built, and the command's number.
use nexus_client.Prelude.{ℕ, ℤ, Bool, Option, List, String, Result}
use nexus_client.External.Solana.{Solana}

pub record Spl (C : Solana) : Type 1 where
  -- `Hash::from_str`
  pub hash_from_str : String → Option (List ℕ)
  -- the bytes of the keypair's public key
  pub owner_of : C.Keypair → List ℕ
  -- of an owner and a mint
  pub get_associated_token_address : List ℕ → List ℕ → List ℕ
  -- an instruction; `transfer_checked` of source, mint, destination, owner, amount and decimals, without
  -- further signers
  pub TokenInstruction : Type 0
  pub transfer_checked : List ℕ → List ℕ → List ℕ → List ℕ → ℕ → ℕ → Result TokenInstruction String
  -- the bytes that `Transaction::new` signs for one instruction, a payer and a blockhash
  pub message_data : TokenInstruction → List ℕ → List ℕ → List ℕ
  -- `bincode::serialize` of the signed transaction, by its signature and message
  pub serialize_transaction : List ℕ → List ℕ → Result (List ℕ) String

-- `f64`: the comparison with 0, and `(x * 1_000_000.0).round() as i64`.
pub record Float : Type 1 where
  pub F64 : Type 0
  pub is_greater_than_zero : F64 → Bool
  pub round_micros : F64 → ℤ
