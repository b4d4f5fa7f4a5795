-- ===== src/Disk.antt =====
-- The part of std::fs that the client uses: a disk with the faults of its host, and actions that may
-- fail.
pub mod Grown
pub mod Reading
use Prim.Native.String
use nexus_client.Prelude.{
  ℕ, ◌≡◌, Bool, not, ◌&&◌, Option, none, some, List, [], ◌∷◌, ◌++◌, String, ◌==◌, lookup, take,
  Result, ok, err, bytes_eq, true, false, if◌then◌else◌,
}
use nexus_client.Text.{is_empty}
use nexus_client.Utf8.{as_bytes, from_utf8_lossy}

pub data ErrorKind : Type 0 where
  already_exists : ErrorKind
  not_found : ErrorKind
  invalid_data : ErrorKind
  unexpected_eof : ErrorKind
  other_kind : ErrorKind

-- `io::Error`
pub record IoError : Type 0 where
  pub kind : ErrorKind
  pub text : String

-- A file has its bytes and its mode.
pub data Entry : Type 0 where
  file : List ℕ → ℕ → Entry
  directory : Entry

-- The entries by their paths.
abbrev pub Disk : Type 0
Disk = List (String × Entry)

-- What the host does beside the disk: a fault at a path, and the directories that `create_dir_all` makes.
pub record Host : Type 0 where
  pub stat_fails : Disk → String → Bool
  pub open_fails : Disk → String → Option IoError
  -- how many bytes landed before the error
  pub write_fails : Disk → String → Option (ℕ × IoError)
  pub sync_fails : Disk → String → Option IoError
  pub read_fails : Disk → String → Option IoError
  pub dirs_fail : Disk → String → Option IoError
  pub new_dirs : Disk → String → List String

abbrev pub Io : Type 0 → Type 0 → Type 0
Io A E = Disk → Result A E × Disk

module _ {E : Type 0} where
  abbrev pub then_with : {A B : Type 0} → Result A E × Disk → (A → Io B E) → Result B E × Disk
  then_with (ok a, d) f = f a d
  then_with (err e, d) f = (err e, d)

  infixl 5 ◌>>=◌
  unfoldable pub ◌>>=◌ : {A B : Type 0} → Io A E → (A → Io B E) → Io B E
  ◌>>=◌ m f d = then_with (m d) f

  infixl 5 ◌>>◌
  abbrev pub ◌>>◌ : {B : Type 0} → Io (Unit {0}) E → Io B E → Io B E
  m >> n = m >>= λ _. n

  unfoldable pub pure : {A : Type 0} → A → Io A E
  pure a d = (ok a, d)

  unfoldable pub lift : {A : Type 0} → Result A E → Io A E
  lift r d = (r, d)

abbrev pub mapped : {A E F : Type 0} → (E → F) → Result A E × Disk → Result A F × Disk
mapped f (ok a, d) = (ok a, d)
mapped f (err e, d) = (err (f e), d)

-- `map_err`
unfoldable pub failing : {A E F : Type 0} → (E → F) → Io A E → Io A F
failing f m d = mapped f (m d)

abbrev ends_with_slash : String → Bool
ends_with_slash String.[] = false
ends_with_slash (String.◌∷◌ c String.[]) = String.◌∷◌ c "" == "/"
ends_with_slash (String.◌∷◌ c s) = ends_with_slash s

-- `Path::join`
unfoldable pub join : String → String → String
join dir name =
    String.◌++◌ dir
      (if not (is_empty dir) && not (ends_with_slash dir) then String.◌++◌ "/" name else name)

-- The entry of a path gets more bytes.
abbrev pub append_bytes : List ℕ → Entry → Entry
append_bytes more (file bytes mode) = file (bytes ++ more) mode
append_bytes more directory = directory

abbrev pub append_at : String → List ℕ → Disk → Disk
append_at path more [] = []
append_at path more ((p, e) ∷ d) =
    if p == path then (p, append_bytes more e) ∷ d else (p, e) ∷ append_at path more d

abbrev pub made : Option Entry → String → Disk → Disk
made (some e) p d = d
made none p d = (p, directory) ∷ d

abbrev pub make_dirs : List String → Disk → Disk
make_dirs [] d = d
make_dirs (p ∷ ps) d = make_dirs ps (made (lookup p d) p d)

-- `String::from_utf8`: the text whose bytes these are.
unfoldable pub from_utf8 : List ℕ → Option String
from_utf8 bytes =
    let s = from_utf8_lossy bytes in if bytes_eq (as_bytes s) bytes then some s else none

abbrev is_entry : Option Entry → Bool
is_entry none = false
is_entry (some e) = true

abbrev pub done_or : Option IoError → Disk → Result (Unit {0}) IoError × Disk
done_or none d = (ok tt, d)
done_or (some e) d = (err e, d)

abbrev pub opened :
    Option IoError → Option Entry → String → ℕ → Disk → Result (Unit {0}) IoError × Disk
opened (some e) _ path mode d = (err e, d)
opened none (some entry) path mode d =
    (err (record { kind = already_exists; text = "File exists" }), d)
opened none none path mode d = (ok tt, (path, file [] mode) ∷ d)

abbrev pub wrote : Option (ℕ × IoError) → String → List ℕ → Disk → Result (Unit {0}) IoError × Disk
wrote none path bytes d = (ok tt, append_at path bytes d)
wrote (some (n, e)) path bytes d = (err e, append_at path (take n bytes) d)

abbrev pub bytes_at : Option IoError → Option Entry → Result (List ℕ) IoError
bytes_at (some e) _ = err e
bytes_at none none = err (record { kind = not_found; text = "No such file or directory" })
bytes_at none (some directory) = err (record { kind = other_kind; text = "Is a directory" })
bytes_at none (some (file bytes mode)) = ok bytes

abbrev text_of : Option String → Result String IoError
text_of none = err (record { kind = invalid_data; text = "stream did not contain valid UTF-8" })
text_of (some s) = ok s

module _ (host : Host) where
  -- `Path::exists`, which gives false on a fault
  unfoldable pub exists : {E : Type 0} → String → Io Bool E
  exists path d = (ok (not (host.stat_fails d path) && is_entry (lookup path d)), d)

  -- `OpenOptions` with `create_new` and a mode
  unfoldable pub create_new : String → ℕ → Io (Unit {0}) IoError
  create_new path mode d = opened (host.open_fails d path) (lookup path d) path mode d

  -- `write_all` on the opened file
  unfoldable pub write_all : String → List ℕ → Io (Unit {0}) IoError
  write_all path bytes d = wrote (host.write_fails d path) path bytes d

  unfoldable pub sync_all : String → Io (Unit {0}) IoError
  sync_all path d = done_or (host.sync_fails d path) d

  -- `fs::read`
  unfoldable pub read : String → Io (List ℕ) IoError
  read path d = (bytes_at (host.read_fails d path) (lookup path d), d)

  unfoldable pub read_to_string : String → Io String IoError
  unfolding from_utf8
  read_to_string path = read path >>= λ bytes. lift (text_of (from_utf8 bytes))

  -- `fs::create_dir_all`; directories that it made before a fault stay
  unfoldable pub create_dir_all : String → Io (Unit {0}) IoError
  create_dir_all path d = done_or (host.dirs_fail d path) (make_dirs (host.new_dirs d path) d)
