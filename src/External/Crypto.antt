-- ===== src/External/Crypto.antt =====
-- bs58, ed25519-dalek, the Solana keypair, sha2, hex, base64. A byte string is a list of numbers.
use nexus_client.Prelude.{ℕ, ◌≡◌, Option, List, String, length}

pub record Base58 : Type 0 where
  pub encode : List ℕ → String
  pub decode : String → Option (List ℕ)

-- An Ed25519 signing key, made from its 32-byte seed.
pub record Ed25519 : Type 1 where
  pub SigningKey : Type 0
  pub from_bytes : List ℕ → SigningKey
  pub to_bytes : SigningKey → List ℕ
  pub verifying_key : SigningKey → List ℕ
  pub sign : SigningKey → List ℕ → List ℕ
  pub to_bytes-from_bytes : (seed : List ℕ) → length seed ≡ 32 → to_bytes (from_bytes seed) ≡ seed

-- Sha-256 digests and lower-case hex.
pub record Hashing : Type 0 where
  pub sha256 : List ℕ → List ℕ
  pub hex : List ℕ → String
