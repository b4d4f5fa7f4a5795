-- ===== src/Text.antt =====
-- What the source uses of Rust's `str`, on native texts (sequences of Unicode scalar values).
pub mod Affixes
use nexus_client.Prelude.{
  ℕ, zero, suc, Option, none, some, String, Char, code, Bool, ◌&&◌, ◌||◌, leb, eqb, ◌==◌,
  if◌then◌else◌,
}

-- `char::is_whitespace`: Unicode's White_Space.
unfoldable pub is_whitespace : ℕ → Bool
is_whitespace c =
    leb 9 c && leb c 13
    || eqb c 32
    || eqb c 0x85
    || eqb c 0xA0
    || eqb c 0x1680
    || leb 0x2000 c && leb c 0x200A
    || eqb c 0x2028
    || eqb c 0x2029
    || eqb c 0x202F
    || eqb c 0x205F
    || eqb c 0x3000

unfoldable pub strip_prefix : String → String → Option String
strip_prefix String.[] s = some s
strip_prefix (String.◌∷◌ c p) String.[] = none
strip_prefix (String.◌∷◌ c p) (String.◌∷◌ d s) =
    if eqb (code c) (code d) then strip_prefix p s else none

unfoldable pub trim_start_matches : (ℕ → Bool) → String → String
trim_start_matches p String.[] = ""
trim_start_matches p (String.◌∷◌ c s) =
    if p (code c) then trim_start_matches p s else String.◌∷◌ c s

-- A character before an already trimmed rest.
abbrev trimmed : (ℕ → Bool) → Char → String → String
trimmed p c String.[] = if p (code c) then "" else String.◌∷◌ c ""
trimmed p c (String.◌∷◌ d s) = String.◌∷◌ c (String.◌∷◌ d s)

unfoldable pub trim_end_matches : (ℕ → Bool) → String → String
trim_end_matches p String.[] = ""
trim_end_matches p (String.◌∷◌ c s) = trimmed p c (trim_end_matches p s)

unfoldable pub trim_start : String → String
unfolding trim_start_matches is_whitespace
trim_start s = trim_start_matches is_whitespace s

unfoldable pub trim : String → String
unfolding trim_start trim_end_matches
trim s = trim_end_matches is_whitespace (trim_start s)

abbrev pub is_empty : String → Bool
is_empty s = s == ""

-- `chars().take(n).collect()`
unfoldable pub take_chars : ℕ → String → String
take_chars zero s = ""
take_chars (suc n) String.[] = ""
take_chars (suc n) (String.◌∷◌ c s) = String.◌∷◌ c (take_chars n s)
