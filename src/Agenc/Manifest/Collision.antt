-- ===== src/Agenc/Manifest/Collision.antt =====
-- Two bundles with one hash, agenc-worker/src/manifest.rs.
use Prim.Native.String
use text.Mathlib.TextLemmas.{append_assoc}
use nexus_client.Prelude.{ℕ, ◌≡◌, refl, sym, ap, ◌∙◌, true, List, [], ◌∷◌, String}
use nexus_client.External.Crypto.{Hashing}
use nexus_client.Utf8.{as_bytes}
use nexus_client.Agenc.Manifest.{str_leb, insert, sort, join_lines, manifest_line, manifest_hash}

sort_two : (s t : String) → str_leb s t ≡ true → sort (s ∷ t ∷ []) ≡ s ∷ t ∷ []
unfolding sort insert
sort_two s t h = rw h refl

regroup :
    (s p r : String)
    → String.◌++◌ (String.◌++◌ s (String.◌++◌ "\n" p)) r
      ≡ String.◌++◌ s (String.◌++◌ "\n" (String.◌++◌ p r))
regroup s p r = append_assoc s (String.◌++◌ "\n" p) r ∙ ap (String.◌++◌ s) (append_assoc "\n" p r)

module _ (H : Hashing) where
  -- A path may hold a line break: one file whose path is another file's line, a line break and a path has
  -- the same hash as the two files, where their lines are in order.
  pub manifest_hash-collides :
      (path path' : String) (content content' : List ℕ)
      → str_leb (manifest_line H (path, content)) (manifest_line H (path', content')) ≡ true
      → manifest_hash H
          ((String.◌++◌ (manifest_line H (path, content)) (String.◌++◌ "\n" path'), content') ∷ [])
        ≡ manifest_hash H ((path, content) ∷ (path', content') ∷ [])
  unfolding manifest_hash sort insert
  manifest_hash-collides path path' content content' h =
      ap (λ text. H.hex (H.sha256 (as_bytes text)))
        (regroup (manifest_line H (path, content)) path' _ ∙ sym (ap join_lines (sort_two _ _ h)))
