-- ===== src/Disk/Reading.antt =====
-- A text that a file holds is read back; what the steps of an action that succeeds have done.
use nexus_client.Prelude.{ℕ, ◌≡◌, refl, none, some, String, lookup, bytes_eq_iff, Result, ok, err}
use nexus_client.Utf8.{as_bytes}
use nexus_client.Utf8.RoundTrip.{from_utf8_lossy-as_bytes}
use nexus_client.Disk.{
  file, Disk, Host, Io, then_with, ◌>>=◌, lift, pure, mapped, failing, from_utf8, read,
  read_to_string,
}

pub from_utf8-as_bytes : (s : String) → from_utf8 (as_bytes s) ≡ some s
unfolding from_utf8
from_utf8-as_bytes s =
    rw (from_utf8_lossy-as_bytes s, (bytes_eq_iff (as_bytes s) (as_bytes s)).1 refl) refl

pub read_to_string_lem :
    (host : Host) (path s : String) (d : Disk) (mode : ℕ)
    → lookup path d ≡ some (file (as_bytes s) mode)
    → host.read_fails d path ≡ none
    → read_to_string host path d ≡ (ok s, d)
unfolding read_to_string read lift ◌>>=◌
read_to_string_lem host path s d mode h sound = rw (h, sound, from_utf8-as_bytes s) refl

module _ {E : Type 0} where
  then_with-eq-ok :
      {A B : Type 0} (r : Result A E × Disk) (f : A → Io B E) {b : B} {d' : Disk}
      → then_with r f ≡ (ok b, d')
      → (a : A) × (d1 : Disk) × (r ≡ (ok a, d1)) × (f a d1 ≡ (ok b, d'))
  then_with-eq-ok (ok a, d) f e = (a, d, refl, e)
  then_with-eq-ok (err x, d) f e = cc

  pub bind-eq-ok :
      {A B : Type 0} (m : Io A E) (f : A → Io B E) (d : Disk) {b : B} {d' : Disk}
      → (m >>= f) d ≡ (ok b, d')
      → (a : A) × (d1 : Disk) × (m d ≡ (ok a, d1)) × (f a d1 ≡ (ok b, d'))
  unfolding ◌>>=◌
  bind-eq-ok m f d e = then_with-eq-ok (m d) f e

  mapped-eq-ok :
      {A F : Type 0} (f : F → E) (r : Result A F × Disk) {a : A} {d' : Disk}
      → mapped f r ≡ (ok a, d')
      → r ≡ (ok a, d')
  mapped-eq-ok f (ok a, d) e = cc
  mapped-eq-ok f (err x, d) e = cc

  pub failing-eq-ok :
      {A F : Type 0} (f : F → E) (m : Io A F) (d : Disk) {a : A} {d' : Disk}
      → failing f m d ≡ (ok a, d')
      → m d ≡ (ok a, d')
  unfolding failing
  failing-eq-ok f m d e = mapped-eq-ok f (m d) e

  pub lift-eq-ok :
      {A : Type 0} (r : Result A E) (d : Disk) {a : A} {d' : Disk}
      → lift r d ≡ (ok a, d')
      → (r ≡ ok a) × (d ≡ d')
  unfolding lift
  lift-eq-ok r d e = (cc, cc)

  pub pure-eq-ok :
      {A : Type 0} (a : A) (d : Disk) {b : A} {d' : Disk}
      → pure {E = E} a d ≡ (ok b, d')
      → (a ≡ b) × (d ≡ d')
  unfolding pure
  pure-eq-ok a d e = (cc, cc)
