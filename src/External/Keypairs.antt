-- ===== src/External/Keypairs.antt =====
-- solana-keypair's reading of 64 bytes, and serde_json on a byte array.
use nexus_client.Prelude.{ℕ, ◌≡◌, List, String, Result, ok, length}
use nexus_client.External.Solana.{Solana}
use nexus_client.Disk.{IoError}

pub record Keypairs (C : Solana) : Type 0 where
  -- the error by its text
  pub try_from : List ℕ → Result C.Keypair String
  pub array_to_string : List ℕ → String
  -- the error as `io::Error::from` gives it
  pub array_from_str : String → Result (List ℕ) IoError

-- A keypair has 64 bytes, which give the keypair again, also by way of their JSON array.
pub record IsLawful (C : Solana) (W : Keypairs C) : Type 0 where
  pub length-to_bytes : (k : C.Keypair) → length (C.to_bytes k) ≡ 64
  pub try_from-to_bytes : (k : C.Keypair) → W.try_from (C.to_bytes k) ≡ ok k
  pub array_from_str-to_bytes :
      (k : C.Keypair) → W.array_from_str (W.array_to_string (C.to_bytes k)) ≡ ok (C.to_bytes k)
