-- ===== src/Keys/Wallet.antt =====
-- The wallet of src/keys.rs, saved and loaded.
use nexus_client.Prelude.{◌≡◌, refl, none, some, String, lookup, ok}
use nexus_client.Utf8.{as_bytes}
use nexus_client.External.Solana.{Solana}
use nexus_client.External.Keypairs.{Keypairs, IsLawful}
use nexus_client.Disk.{Disk, Host, file, ◌>>=◌, lift, pure, join}
use nexus_client.Disk.Grown.{Grown}
use nexus_client.Disk.Reading.{read_to_string_lem}
use nexus_client.Keys.{wallet_file, owner_only, save_wallet, load_wallet, load_wallet_pubkey}
use nexus_client.Keys.Added.{write_new_secure-Added}
use nexus_client.Keys.Saved.{lookup-Added}

module _ (C : Solana) (W : Keypairs C) (lawful : IsLawful C W) (host : Host) where
  abbrev text_of : C.Keypair → String
  text_of k = W.array_to_string (C.to_bytes k)

  lookup-save_wallet :
      (k : C.Keypair) (dir : String) (d : Disk)
      → (save_wallet C W host k dir d).0 ≡ ok tt
      → lookup (join dir wallet_file) (save_wallet C W host k dir d).1
        ≡ some (file (as_bytes (text_of k)) owner_only)
  unfolding save_wallet
  lookup-save_wallet k dir d h = lookup-Added (write_new_secure-Added host _ _ d) h

  load_wallet_lem :
      (k : C.Keypair) (dir : String) (d : Disk)
      → lookup (join dir wallet_file) d ≡ some (file (as_bytes (text_of k)) owner_only)
      → host.read_fails d (join dir wallet_file) ≡ none
      → (load_wallet C W host dir d ≡ (ok k, d))
        × (load_wallet_pubkey C W host dir d ≡ (ok (C.pubkey k), d))
  unfolding load_wallet load_wallet_pubkey lift pure ◌>>=◌
  load_wallet_lem k dir d h sound =
      let found = read_to_string_lem host (join dir wallet_file) (text_of k) d owner_only h sound in
      (
        rw
            (
              found,
              lawful.array_from_str-to_bytes k,
              lawful.length-to_bytes k,
              lawful.try_from-to_bytes k,
            )
            refl,
        rw
            (
              found,
              lawful.array_from_str-to_bytes k,
              lawful.length-to_bytes k,
              lawful.try_from-to_bytes k,
            )
            refl,
      )

  -- From every disk that kept what the saving of a wallet left, the wallet is loaded again, and so is its public
  -- key, when the read has no fault and a keypair is read back from its 64 bytes and their JSON array.
  pub load_wallet-save_wallet :
      (k : C.Keypair) (dir : String) (d d' : Disk)
      → (save_wallet C W host k dir d).0 ≡ ok tt
      → Grown (save_wallet C W host k dir d).1 d'
      → host.read_fails d' (join dir wallet_file) ≡ none
      → (load_wallet C W host dir d' ≡ (ok k, d'))
        × (load_wallet_pubkey C W host dir d' ≡ (ok (C.pubkey k), d'))
  load_wallet-save_wallet k dir d d' h g sound =
      load_wallet_lem k dir d' (g.keeps _ _ (lookup-save_wallet k dir d h)) sound
