-- ===== src/Cli/Once.antt =====
-- The command `init` of src/main.rs, run again.
use nexus_client.Prelude.{
  ℕ, ◌≡◌, refl, subst, ap, ◌∙◌, ◌==◌, if◌then◌else◌, Bool, true, false, some, List, String, lookup,
  Result, ok, err,
}
use nexus_client.External.Crypto.{Base58, Ed25519}
use nexus_client.External.Solana.{Solana}
use nexus_client.External.Keypairs.{Keypairs}
use nexus_client.External.Toml.{Toml}
use nexus_client.Disk.{
  Entry, file, Disk, Host, Io, then_with, ◌>>=◌, pure, lift, mapped, failing, join, exists,
}
use nexus_client.Disk.Grown.{Grown, Grows}
use nexus_client.Keys.{node_key_file, owner_only, generate, node_key_exists, save}
use nexus_client.Keys.Saved.{lookup-save}
use nexus_client.Cli.{
  InitError, already_initialized, bad_wallet, dir_failed, node_key_failed, wallet_failed,
  read_back_failed, config_failed, resolve_wallet, init_unless, cmd_init,
}
use nexus_client.Cli.Init.{Grows-finish_init}

-- The error comes before the node key is on the disk.
abbrev IsEarly : InitError → Type 0
IsEarly (wallet_failed e) = ⊥
IsEarly (read_back_failed e) = ⊥
IsEarly (config_failed e) = ⊥
IsEarly _ = Unit

-- The node key was saved: `init` succeeded, or failed behind it.
abbrev pub IsLate : Result (String × String) InitError → Type 0
IsLate (ok keys) = Unit
IsLate (err (wallet_failed e)) = Unit
IsLate (err (read_back_failed e)) = Unit
IsLate (err (config_failed e)) = Unit
IsLate (err _) = ⊥

IsEarly-IsLate : (e : InitError) → IsEarly e → IsLate (err e) → ⊥
IsEarly-IsLate already_initialized k l = l
IsEarly-IsLate (bad_wallet e) k l = l
IsEarly-IsLate (dir_failed e) k l = l
IsEarly-IsLate (node_key_failed e) k l = l
IsEarly-IsLate (wallet_failed e) k l = k
IsEarly-IsLate (read_back_failed e) k l = k
IsEarly-IsLate (config_failed e) k l = k

-- Every error of the action is early.
record Early {A : Type 0} (m : Io A InitError) : Type 0 where
  at : (d : Disk) (e : InitError) → (m d).0 ≡ err e → IsEarly e

failing_at :
    {A F : Type 0} (f : F → InitError)
    → ((x : F) → IsEarly (f x))
    → (r : Result A F × Disk) (e : InitError) → (mapped f r).0 ≡ err e
    → IsEarly e
failing_at f k (ok a, d) e h = cc
failing_at f k (err x, d) e h = let same : f x ≡ e = cc in subst IsEarly same (k x)

Early-failing :
    {A F : Type 0} (f : F → InitError) (m : Io A F)
    → ((x : F) → IsEarly (f x))
    → Early (failing f m)
unfolding failing
Early-failing f m k = record { at = λ d e h. failing_at f k (m d) e h }

Early-pure : {A : Type 0} (a : A) → Early (pure a)
unfolding pure
Early-pure a = record { at = λ d e h. cc }

module _ (path : String) where
  abbrev pub IsPresent : Disk → Type 0
  IsPresent d = (e : Entry) × (lookup path d ≡ some e)

  -- When the action ends late, the path has an entry.
  pub record Late (m : Io (String × String) InitError) : Type 0 where
    pub at : (d : Disk) → IsLate (m d).0 → IsPresent (m d).1

  then_with-IsPresent :
      {A : Type 0} (r : Result A InitError × Disk) (f : A → Io (String × String) InitError)
      → ((e : InitError) → r.0 ≡ err e → IsEarly e)
      → ((a : A) → r.0 ≡ ok a → IsLate (f a r.1).0 → IsPresent (f a r.1).1)
      → IsLate (then_with r f).0
      → IsPresent (then_with r f).1
  then_with-IsPresent (ok a, d) f early k l = k a refl l
  then_with-IsPresent (err e, d) f early k l = elim (IsEarly-IsLate e (early e refl) l) [ ]

  Late-bind :
      {A : Type 0} {m : Io A InitError} {f : A → Io (String × String) InitError}
      → Early m
      → ((a : A) → Late (f a))
      → Late (m >>= f)
  unfolding ◌>>=◌
  Late-bind {m} {f} early k = record {
    at = λ d. then_with-IsPresent (m d) f (early.at d) λ a h. (k a).at (m d).1;
  }

  -- The action that makes the entry, before one that keeps it.
  Late-making :
      {A : Type 0} {m : Io A InitError} {f : A → Io (String × String) InitError}
      → Early m
      → ((d : Disk) (a : A) → (m d).0 ≡ ok a → IsPresent (m d).1)
      → ((a : A) → Grows (f a))
      → Late (m >>= f)
  unfolding ◌>>=◌
  Late-making {m} {f} early made g = record {
    at = λ d.
        then_with-IsPresent (m d) f (early.at d)
          λ a h l. let (e, x) = made d a h in (e, ((g a).at (m d).1).keeps path e x);
  }

failing-eq-ok :
    {A F : Type 0} (f : F → InitError) (r : Result A F × Disk) (a : A)
    → (mapped f r).0 ≡ ok a
    → (r.0 ≡ ok a) × ((mapped f r).1 ≡ r.1)
failing-eq-ok f (ok b, d) a h = (cc, refl)
failing-eq-ok f (err e, d) a h = cc

module _ (C : Solana) (W : Keypairs C) (E : Ed25519) (B : Base58) (T : Toml) (host : Host) where
  IsPresent-save :
      (key : E.SigningKey) (dir : String) (d : Disk) (a : Unit {0})
      → (failing node_key_failed (save E host key dir) d).0 ≡ ok a
      → IsPresent (join dir node_key_file) (failing node_key_failed (save E host key dir) d).1
  unfolding failing
  IsPresent-save key dir d a h =
      let (saved, same) = failing-eq-ok node_key_failed (save E host key dir d) a h in
      (
        file (E.to_bytes key) owner_only,
        ap (lookup (join dir node_key_file)) same ∙ lookup-save E host key dir d saved,
      )

  Early-resolve_wallet :
      (b : Bool) (fresh : C.Keypair) (m : Io C.Keypair InitError)
      → Early m
      → Early (if b then pure fresh else m)
  Early-resolve_wallet true fresh m k = Early-pure fresh
  Early-resolve_wallet false fresh m k = k

  Late-init_unless :
      (b : Bool) (seed : List ℕ) (fresh : C.Keypair) (dir model wallet : String)
      → Late (join dir node_key_file) (init_unless C W E B T host b seed fresh dir model wallet)
  unfolding init_unless resolve_wallet lift
  Late-init_unless true seed fresh dir model wallet = record { at = λ d l. elim l [ ] }
  Late-init_unless false seed fresh dir model wallet =
      Late-bind _
        (Early-resolve_wallet (wallet == "new") fresh _ (Early-failing bad_wallet _ λ x. tt))
        λ k. Late-bind _ (Early-failing dir_failed _ λ x. tt) λ _.
          Late-making _ (Early-failing node_key_failed _ λ x. tt)
            (IsPresent-save (generate E seed) dir)
            λ _. Grows-finish_init C W E B T host (generate E seed) k dir model

  Early-node_key_exists : (dir : String) → Early (node_key_exists host dir)
  unfolding node_key_exists exists
  Early-node_key_exists dir = record { at = λ d e h. cc }

  pub IsPresent-init :
      (seed : List ℕ) (fresh : C.Keypair) (dir model wallet : String)
      → Late (join dir node_key_file) (cmd_init C W E B T host seed fresh dir model wallet)
  unfolding cmd_init
  IsPresent-init seed fresh dir model wallet =
      Late-bind _ (Early-node_key_exists dir) λ b. Late-init_unless b seed fresh dir model wallet

  pub refuses :
      (seed : List ℕ) (fresh : C.Keypair) (dir model wallet : String) (d : Disk)
      → host.stat_fails d (join dir node_key_file) ≡ false
      → IsPresent (join dir node_key_file) d
      → cmd_init C W E B T host seed fresh dir model wallet d ≡ (err already_initialized, d)
  unfolding cmd_init node_key_exists exists init_unless lift ◌>>=◌
  refuses seed fresh dir model wallet d sound (e, h) = rw (sound, h) refl

  -- Once `init` has saved the node key, whether it then succeeded or failed at the wallet or at the
  -- configuration, every `init` on a disk that keeps the entries is refused and leaves the disk as it is,
  -- when the node key's path can be examined.
  pub cmd_init-once :
      (seed seed' : List ℕ) (fresh fresh' : C.Keypair) (dir model model' wallet wallet' : String)
      (d d' : Disk)
      → IsLate (cmd_init C W E B T host seed fresh dir model wallet d).0
      → Grown (cmd_init C W E B T host seed fresh dir model wallet d).1 d'
      → host.stat_fails d' (join dir node_key_file) ≡ false
      → cmd_init C W E B T host seed' fresh' dir model' wallet' d' ≡ (err already_initialized, d')
  cmd_init-once seed seed' fresh fresh' dir model model' wallet wallet' d d' late g sound =
      let (e, h) = (IsPresent-init seed fresh dir model wallet).at d late in
      refuses seed' fresh' dir model' wallet' d' sound (e, g.keeps _ e h)
