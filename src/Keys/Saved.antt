-- ===== src/Keys/Saved.antt =====
-- The node key of src/keys.rs, saved and loaded.
use nexus_client.Prelude.{
  ℕ, ◌≡◌, refl, ap, ◌∙◌, eq_refl, none, some, List, String, length, lookup, Result, ok, err,
}
use nexus_client.External.Crypto.{Ed25519}
use nexus_client.Disk.{file, Disk, Host, IoError, ◌>>=◌, lift, mapped, failing, join, read}
use nexus_client.Disk.Grown.{Grown}
use nexus_client.Keys.{
  node_key_file, owner_only, write_new_secure, save_error, generate, save, load,
}
use nexus_client.Keys.Added.{Added, refused, partial, written, write_new_secure-Added}

pub lookup-Added :
    {path : String} {bytes : List ℕ} {d : Disk} {r : Result (Unit {0}) IoError × Disk}
    → Added path bytes d r
    → r.0 ≡ ok tt
    → lookup path r.1 ≡ some (file bytes owner_only)
lookup-Added (refused e) h = cc
lookup-Added (partial e some_bytes free) h = cc
lookup-Added {path} (written free) h = rw (eq_refl path) refl

mapped-eq-ok :
    {E F : Type 0} (f : E → F) (r : Result (Unit {0}) E × Disk) (P : Disk → Type 0)
    → (mapped f r).0 ≡ ok tt
    → (r.0 ≡ ok tt → P r.1)
    → P (mapped f r).1
mapped-eq-ok f (ok a, d) P h k = k refl
mapped-eq-ok f (err e, d) P h k = cc

module _ (E : Ed25519) (host : Host) where
  pub lookup-save :
      (key : E.SigningKey) (dir : String) (d : Disk)
      → (save E host key dir d).0 ≡ ok tt
      → lookup (join dir node_key_file) (save E host key dir d).1
        ≡ some (file (E.to_bytes key) owner_only)
  unfolding save failing
  lookup-save key dir d h =
      mapped-eq-ok save_error (write_new_secure host (join dir node_key_file) (E.to_bytes key) d)
        (λ x. lookup (join dir node_key_file) x ≡ some (file (E.to_bytes key) owner_only)) h
        (lookup-Added (write_new_secure-Added host _ _ d))

  pub load_of_seed :
      (seed : List ℕ) (dir : String) (d : Disk) (mode : ℕ)
      → length seed ≡ 32
      → lookup (join dir node_key_file) d ≡ some (file seed mode)
      → host.read_fails d (join dir node_key_file) ≡ none
      → (load E host dir d).0 ≡ ok (E.from_bytes seed)
  unfolding load read lift ◌>>=◌
  load_of_seed seed dir d mode size h sound = rw (h, sound, size) refl

  -- A node key that was saved is loaded from every disk that kept what the saving left, when the read has no fault.
  pub load-save :
      (seed : List ℕ) (dir : String) (d d' : Disk)
      → length seed ≡ 32
      → (save E host (generate E seed) dir d).0 ≡ ok tt
      → Grown (save E host (generate E seed) dir d).1 d'
      → host.read_fails d' (join dir node_key_file) ≡ none
      → (load E host dir d').0 ≡ ok (generate E seed)
  load-save seed dir d d' size h g sound =
      load_of_seed seed dir d' owner_only size
        (g.keeps _ _ (
          lookup-save (generate E seed) dir d h
          ∙ ap (λ b. some (file b owner_only)) (E.to_bytes-from_bytes seed size)))
        sound
