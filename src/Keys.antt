-- ===== src/Keys.antt =====
-- src/keys.rs: the node key and the wallet on the disk.
pub mod Added
pub mod Saved
pub mod Wallet
use Prim.Native.String
use nexus_client.Prelude.{
  ℕ, Bool, true, false, not, ◌&&◌, Option, none, some, List, [], ◌∷◌, String, length, eqb, Result,
  ok, err, map_err, ok_or, ok_and_then, if◌then◌else◌,
}
use nexus_client.Utf8.{as_bytes}
use nexus_client.External.Crypto.{Base58, Ed25519}
use nexus_client.External.Solana.{Solana}
use nexus_client.External.Keypairs.{Keypairs}
use nexus_client.Disk.{
  Host, Io, IoError, ErrorKind, already_exists, invalid_data, ◌>>=◌, ◌>>◌, pure, lift, failing,
  join, exists, create_new, write_all, sync_all, read, read_to_string,
}

abbrev pub node_key_file : String
node_key_file = "node_key"

abbrev pub wallet_file : String
wallet_file = "wallet.json"

-- 0o600
abbrev pub owner_only : ℕ
owner_only = 384

abbrev pub invalid : String → IoError
invalid text = record { kind = invalid_data; text = text }

abbrev pub already : ErrorKind → Bool
already already_exists = true
already _ = false

-- The error that `NodeKey::save` gives for the error of the write.
abbrev pub save_error : IoError → IoError
save_error e =
    if already e.kind then record { kind = already_exists; text = "already initialized" } else e

abbrev seed_of : List ℕ → Result (List ℕ) IoError
seed_of bytes =
    if eqb (length bytes) 32 then ok bytes else err (invalid "node_key must be exactly 32 bytes")

abbrev wallet_bytes : List ℕ → Result (List ℕ) IoError
wallet_bytes bytes =
    if eqb (length bytes) 64 then ok bytes else err (invalid "wallet.json must be a 64-byte array")

module _ (host : Host) where
  unfoldable pub write_new_secure : String → List ℕ → Io (Unit {0}) IoError
  write_new_secure path bytes =
      create_new host path owner_only >> write_all host path bytes >> sync_all host path

  unfoldable pub node_key_exists : {E : Type 0} → String → Io Bool E
  node_key_exists dir = exists host (join dir node_key_file)

module _ (E : Ed25519) where
  open E use {SigningKey, from_bytes, to_bytes, verifying_key, sign}

  -- The seed is what the operating system's generator filled in.
  abbrev pub generate : List ℕ → SigningKey
  generate seed = from_bytes seed

  unfoldable pub pubkey_base58 : Base58 → SigningKey → String
  pubkey_base58 B key = B.encode (verifying_key key)

  unfoldable pub sign_base58 : Base58 → SigningKey → List ℕ → String
  sign_base58 B key msg = B.encode (sign key msg)

  module _ (host : Host) where
    unfoldable pub save : SigningKey → String → Io (Unit {0}) IoError
    save key dir =
        failing save_error (write_new_secure host (join dir node_key_file) (to_bytes key))

    unfoldable pub load : String → Io SigningKey IoError
    load dir = do
      bytes ← read host (join dir node_key_file)
      lift (ok_and_then (seed_of bytes) (λ seed. ok (from_bytes seed)))

-- Why `--wallet` is refused.
pub data ImportError : Type 0 where
  unreadable : String → IoError → ImportError
  not_an_array : String → IoError → ImportError
  neither_file_nor_base58 : String → ImportError
  wrong_length : ℕ → ImportError
  invalid_keypair : String → ImportError

module _ (C : Solana) (W : Keypairs C) (host : Host) where
  open C use {Keypair, to_bytes, pubkey}
  open W use {try_from, array_to_string, array_from_str}

  unfoldable pub save_wallet : Keypair → String → Io (Unit {0}) IoError
  save_wallet wallet dir =
      write_new_secure host (join dir wallet_file) (as_bytes (array_to_string (to_bytes wallet)))

  -- The array at a path, as the two loaders read it.
  unfoldable pub load_wallet : String → Io Keypair IoError
  load_wallet dir = do
    json ← read_to_string host (join dir wallet_file)
    bytes ← lift (array_from_str json)
    checked ← lift (wallet_bytes bytes)
    lift (map_err invalid (try_from checked))

  unfoldable pub load_wallet_pubkey : String → Io String IoError
  load_wallet_pubkey dir = do
    json ← read_to_string host (join dir wallet_file)
    bytes ← lift (array_from_str json)
    arr ← lift (wallet_bytes bytes)
    wallet ← lift (map_err invalid (try_from arr))
    pure (pubkey wallet)

  module _ (B : Base58) where
    -- The bytes of the file that `spec` names, or of the base58 text that it is.
    unfoldable pub import_bytes : String → Bool → Io (List ℕ) ImportError
    import_bytes spec true = do
      json ← failing (unreadable spec) (read_to_string host spec)
      lift (map_err (not_an_array spec) (array_from_str json))
    import_bytes spec false = lift (ok_or (B.decode spec) (neither_file_nor_base58 spec))

    abbrev keypair_of : List ℕ → Result Keypair ImportError
    keypair_of bytes =
        if eqb (length bytes) 64
        then map_err invalid_keypair (try_from bytes)
        else err (wrong_length (length bytes))

    unfoldable pub import_wallet_from : String → Io Keypair ImportError
    unfolding import_bytes
    import_wallet_from spec = do
      is_file ← exists host spec
      bytes ← import_bytes spec is_file
      lift (keypair_of bytes)
