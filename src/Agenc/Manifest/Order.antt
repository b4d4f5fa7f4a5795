-- ===== src/Agenc/Manifest/Order.antt =====
-- The order of the files does not matter to the hash, agenc-worker/src/manifest.rs.

use mathlib.Core.List.{Perm, foldr}
use mathlib.Core.List.Perm
use text.Mathlib.TextEquality.{Char-path, IsScalar-prop}
use nexus_client.Prelude.{
  ℕ, ◌≡◌, refl, sym, ap, ◌∙◌, ◌⊎◌, inl, inr, true, List, [], ◌∷◌, String, arith,
}
use nexus_client.Utf8.{as_bytes}
use nexus_client.External.Crypto.{Hashing}
use nexus_client.Agenc.Manifest.{str_leb, insert, sort, join_lines, manifest_line, manifest_hash}

str_leb_total : (s t : String) → (str_leb s t ≡ true) ⊎ (str_leb t s ≡ true)
unfolding str_leb
str_leb_total String.[] t = inl refl
str_leb_total (String.◌∷◌ c s) String.[] = inr refl
str_leb_total (String.◌∷◌ c s) (String.◌∷◌ d t) = ground (arith, str_leb_total s t)

str_leb_antisymm : (s t : String) → str_leb s t ≡ true → str_leb t s ≡ true → s ≡ t
unfolding str_leb
str_leb_antisymm String.[] String.[] h k = refl
str_leb_antisymm String.[] (String.◌∷◌ d t) h k = cc
str_leb_antisymm (String.◌∷◌ c s) String.[] h k = cc
str_leb_antisymm (String.◌∷◌ c s) (String.◌∷◌ d t) h k =
    ground (arith, str_leb_antisymm s t, Char-path c d)

str_leb_trans : (s t u : String) → str_leb s t ≡ true → str_leb t u ≡ true → str_leb s u ≡ true
unfolding str_leb
str_leb_trans String.[] t u h k = refl
str_leb_trans (String.◌∷◌ c s) String.[] u h k = cc
str_leb_trans (String.◌∷◌ c s) (String.◌∷◌ d t) String.[] h k = cc
str_leb_trans (String.◌∷◌ c s) (String.◌∷◌ d t) (String.◌∷◌ e u) h k =
    ground (arith, str_leb_trans s t u)

-- Two insertions may be swapped.
insert_comm : (s t : String) (l : List String) → insert s (insert t l) ≡ insert t (insert s l)
unfolding insert
insert_comm s t [] = ground (arith, str_leb_total s t, str_leb_antisymm s t)
insert_comm s t (u ∷ l) = ground (
  arith,
  insert_comm s t l,
  str_leb_total s t,
  str_leb_total s u,
  str_leb_total t u,
  str_leb_antisymm s t,
  str_leb_trans s t u,
  str_leb_trans t s u,
  str_leb_trans s u t,
  str_leb_trans t u s,
)

texts_set : IsSet (List String)
texts_set = hlevel (IsScalar-prop)

sort-eq-foldr : (l : List String) → sort l ≡ foldr insert [] l
unfolding sort
sort-eq-foldr [] = refl
sort-eq-foldr (s ∷ l) = ap (insert s) (sort-eq-foldr l)

-- Permuted lists are sorted alike.
sort-perm : {l r : List String} → Perm l r → sort l ≡ sort r
sort-perm {l} {r} p =
    sort-eq-foldr l ∙ Perm.foldr-eq texts_set insert insert_comm p [] ∙ sym (sort-eq-foldr r)

module _ (H : Hashing) where
  -- The hash does not depend on the order in which the files are given: permuted bundles have one hash.
  pub manifest_hash-perm :
      {files files' : List (String × List ℕ)}
      → Perm files files'
      → manifest_hash H files ≡ manifest_hash H files'
  unfolding manifest_hash
  manifest_hash-perm p =
      ap (λ lines. H.hex (H.sha256 (as_bytes (join_lines lines))))
        (sort-perm (Perm.map (manifest_line H) p))
