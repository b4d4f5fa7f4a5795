-- ===== src/Agenc/Manifest.antt =====
-- agenc-worker/src/manifest.rs: the artifact hash of a built app's files.
pub mod Collision
pub mod Order
use Prim.Native.String
use nexus_client.Prelude.{
  ℕ, Bool, true, false, Option, none, some, List, [], ◌∷◌, map, String, code, ltb, eqb,
  if◌then◌else◌,
}
use nexus_client.Utf8.{as_bytes}
use nexus_client.External.Serde.{Serde}
use nexus_client.External.Crypto.{Hashing}

-- `str`'s order, by bytes, which is that of the code points.
unfoldable pub str_leb : String → String → Bool
str_leb String.[] t = true
str_leb (String.◌∷◌ c s) String.[] = false
str_leb (String.◌∷◌ c s) (String.◌∷◌ d t) =
    let rest = str_leb s t in
    if ltb (code c) (code d) then true else if eqb (code c) (code d) then rest else false

unfoldable pub insert : String → List String → List String
insert s [] = s ∷ []
insert s (t ∷ ts) = let rest = insert s ts in if str_leb s t then s ∷ t ∷ ts else t ∷ rest

-- `slice::sort`
unfoldable pub sort : List String → List String
unfolding insert
sort [] = []
sort (s ∷ ss) = insert s (sort ss)

-- `join("\n")`
abbrev pub join_lines : List String → String
join_lines [] = ""
join_lines (s ∷ []) = s
join_lines (s ∷ t ∷ ts) = String.◌++◌ s (String.◌++◌ "\n" (join_lines (t ∷ ts)))

module _ (H : Hashing) where
  abbrev pub manifest_line : String × List ℕ → String
  manifest_line (path, content) = String.◌++◌ path (String.◌++◌ ":" (H.hex (H.sha256 content)))

  unfoldable pub manifest_hash : List (String × List ℕ) → String
  manifest_hash files = H.hex (H.sha256 (as_bytes (join_lines (sort (map manifest_line files)))))

module _ (S : Serde) where
  open S use {Value, Map, as_object, as_str, entries, to_string}

  abbrev content_bytes : Option String → Value → List ℕ
  content_bytes (some s) contents = as_bytes s
  content_bytes none contents = as_bytes (to_string contents)

  abbrev files_of : Option Map → List (String × List ℕ)
  files_of none = []
  files_of (some obj) =
      map (λ (name, contents). (name, content_bytes (as_str contents) contents)) (entries obj)

  unfoldable pub files_from_json : Value → List (String × List ℕ)
  files_from_json files = files_of (as_object files)
