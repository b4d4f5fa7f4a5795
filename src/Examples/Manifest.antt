-- ===== src/Examples/Manifest.antt =====
-- The artifact hash at concrete inputs.
use mathlib.Core.List.Perm
use nexus_client.Prelude.{ℕ, List, String, ◌≡◌, refl, true, [], ◌∷◌}
use nexus_client.Agenc.Manifest.{str_leb, manifest_line, manifest_hash}
use nexus_client.Agenc.Manifest.Collision.{manifest_hash-collides}
use nexus_client.Agenc.Manifest.Order.{manifest_hash-perm}
use nexus_client.Examples.Parts.{sample_hashing}

in_order :
    str_leb
      (manifest_line sample_hashing ("a", 1 ∷ []))
      (manifest_line sample_hashing ("b", 2 ∷ []))
    ≡ true
unfolding str_leb
in_order = refl

manifest_hash-collides_example :
    manifest_hash sample_hashing (("a:hex\nb", 2 ∷ []) ∷ [])
    ≡ manifest_hash sample_hashing (("a", 1 ∷ []) ∷ ("b", 2 ∷ []) ∷ [])
manifest_hash-collides_example =
    manifest_hash-collides sample_hashing "a" "b" (1 ∷ []) (2 ∷ []) in_order

abbrev a : String × List ℕ
a = ("a", 1 ∷ [])

abbrev b : String × List ℕ
b = ("b", 2 ∷ [])

abbrev c : String × List ℕ
c = ("c", 3 ∷ [])

manifest_hash-perm_example :
    manifest_hash sample_hashing (b ∷ a ∷ c ∷ []) ≡ manifest_hash sample_hashing (a ∷ b ∷ c ∷ [])
manifest_hash-perm_example = manifest_hash-perm sample_hashing (Perm.swap a b (c ∷ []))
