-- ===== src/Stake/Transfer.antt =====
-- src/solana_stake.rs: `build_signed_stake_tx`.
use nexus_client.Prelude.{ℕ, List, String, Result, map_err, ok_or}
use nexus_client.External.Serde.{Serde}
use nexus_client.External.Solana.{Solana}
use nexus_client.External.Spl.{Spl}
use nexus_client.Agenc.Net.{Act, lift, pure, record_signing, ◌>>=◌}

pub data BuildError : Type 0 where
  invalid_mint : String → BuildError
  invalid_treasury : String → BuildError
  invalid_blockhash : String → BuildError
  no_instruction : String → BuildError
  not_serialized : String → BuildError

module _ (S : Serde) (C : Solana) (K : Spl C) where
  open K use {
    hash_from_str, owner_of, get_associated_token_address, transfer_checked, message_data,
    serialize_transaction,
  }

  -- GNN has 6 decimals.
  abbrev pub instruction_of : C.Keypair → List ℕ → List ℕ → ℕ → Result K.TokenInstruction String
  instruction_of wallet mint_pk treasury_pk amount_raw =
      transfer_checked (get_associated_token_address (owner_of wallet) mint_pk) mint_pk
        (get_associated_token_address treasury_pk mint_pk) (owner_of wallet) amount_raw 6

  unfoldable pub build_signed_stake_tx :
      C.Keypair → String → String → ℕ → String → Act S String BuildError
  build_signed_stake_tx wallet mint treasury amount_raw recent_blockhash = do
    mint_pk ← lift (ok_or (C.pubkey_from_str mint) (invalid_mint mint))
    treasury_pk ← lift (ok_or (C.pubkey_from_str treasury) (invalid_treasury treasury))
    blockhash ← lift (ok_or (hash_from_str recent_blockhash) (invalid_blockhash recent_blockhash))
    ix ← lift (map_err no_instruction (instruction_of wallet mint_pk treasury_pk amount_raw))
    let message = message_data ix (owner_of wallet) blockhash
    _ ← record_signing message
    bytes ←
        lift
          (map_err not_serialized (serialize_transaction (C.sign_message wallet message) message))
    pure (C.base64_encode bytes)
