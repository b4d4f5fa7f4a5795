-- ===== src/Keys/Added.antt =====
-- What `write_new_secure` of src/keys.rs leaves.
use nexus_client.Prelude.{
  ℕ, ◌≡◌, refl, Option, none, some, List, [], ◌∷◌, ◌++◌, String, subst, sym, eq_refl, lookup, take,
  Result, ok, err,
}
use nexus_client.Disk.{
  Entry, file, Disk, Host, IoError, then_with, ◌>>=◌, opened, wrote, done_or, append_at, create_new,
  write_all, sync_all,
}
use nexus_client.Disk.Grown.{Grown, Grown-refl, Grown-add, Grows}
use nexus_client.Keys.{owner_only, write_new_secure}

-- Nothing changed and there is an error, or a path that had no entry has a file of the owner, which holds
-- all the bytes when there is no error.
pub data Added (path : String) (bytes : List ℕ) (d : Disk)
    : Result (Unit {0}) IoError × Disk → Type 0 where
  refused : (e : IoError) → Added path bytes d (err e, d)
  partial :
      (e : IoError) (some_bytes : List ℕ)
      → lookup path d ≡ none
      → Added path bytes d (err e, (path, file some_bytes owner_only) ∷ d)
  written : lookup path d ≡ none → Added path bytes d (ok tt, (path, file bytes owner_only) ∷ d)

append_at-head :
    (path : String) (more bytes : List ℕ) (mode : ℕ) (d : Disk)
    → append_at path more ((path, file bytes mode) ∷ d) ≡ (path, file (bytes ++ more) mode) ∷ d
append_at-head path more bytes mode d = rw (eq_refl path) refl

module _ (path : String) (bytes : List ℕ) (d : Disk) (free : lookup path d ≡ none) where
  done_or-Added :
      (o : Option IoError) → Added path bytes d (done_or o ((path, file bytes owner_only) ∷ d))
  done_or-Added none = written free
  done_or-Added (some e) = partial e bytes free

  module _ (host : Host) where
    wrote-Added :
        (w : Option (ℕ × IoError))
        → Added path bytes d (
            then_with (wrote w path bytes ((path, file [] owner_only) ∷ d)) λ _. sync_all host path)
    unfolding sync_all
    wrote-Added none =
        subst (λ x. Added path bytes d (done_or (host.sync_fails x path) x))
          (sym (append_at-head path bytes [] owner_only d)) (done_or-Added _)
    wrote-Added (some (n, e)) =
        subst (λ x. Added path bytes d (err e, x))
          (sym (append_at-head path (take n bytes) [] owner_only d)) (partial e (take n bytes) free)

opened-Added :
    (host : Host) (path : String) (bytes : List ℕ) (d : Disk) (o : Option IoError)
    (x : Option Entry)
    → lookup path d ≡ x
    → Added path bytes d (
        then_with
          (then_with (opened o x path owner_only d) λ _. write_all host path bytes)
          λ _. sync_all host path)
unfolding write_all
opened-Added host path bytes d (some e) x h = refused e
opened-Added host path bytes d none (some entry) h = refused _
opened-Added host path bytes d none none h = wrote-Added path bytes d h host _

pub write_new_secure-Added :
    (host : Host) (path : String) (bytes : List ℕ) (d : Disk)
    → Added path bytes d (write_new_secure host path bytes d)
unfolding write_new_secure create_new ◌>>=◌
write_new_secure-Added host path bytes d =
    opened-Added host path bytes d (host.open_fails d path) (lookup path d) refl

Grown-of_Added :
    {path : String} {bytes : List ℕ} {d : Disk} {r : Result (Unit {0}) IoError × Disk}
    → Added path bytes d r
    → Grown d r.1
Grown-of_Added (refused e) = Grown-refl
Grown-of_Added (partial e some_bytes free) = Grown-add _ _ _ free refl
Grown-of_Added (written free) = Grown-add _ _ _ free refl

pub Grows-write_new_secure :
    (host : Host) (path : String) (bytes : List ℕ) → Grows (write_new_secure host path bytes)
Grows-write_new_secure host path bytes = record {
  at = λ d. Grown-of_Added (write_new_secure-Added host path bytes d);
}
