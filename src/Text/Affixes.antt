-- ===== src/Text/Affixes.antt =====
-- What is stripped from a text, and what is left of it.
use Prim.Native.String
use text.Mathlib.TextEquality.{Char-path}
use text.Mathlib.TextLemmas.{nil-append, cons-append}
use nexus_client.Prelude.{
  ℕ, ◌≡◌, ◌≢◌, sym, ap, ◌∙◌, inl, inr, Bool, true, false, Bool-cases, some, none, String, Char,
  code, eqb, arith,
}
use nexus_client.Text.{strip_prefix, trim_start_matches}

eq_of_eqb : (c d : Char) → eqb (code c) (code d) ≡ true → c ≡ d
eq_of_eqb c d h = Char-path c d (ground arith)

-- A prefix that is stripped stands in front of the rest.
pub strip_prefix-some :
    (p s : String) {r : String} → strip_prefix p s ≡ some r → s ≡ String.◌++◌ p r
unfolding strip_prefix
strip_prefix-some String.[] s {r} e = let nil = nil-append r in cc
strip_prefix-some (String.◌∷◌ c p) String.[] e = cc
strip_prefix-some (String.◌∷◌ c p) (String.◌∷◌ d s) {r} e =
    elim (Bool-cases (eqb (code c) (code d))) [
      | inl same ↦
          ap (λ x. String.◌∷◌ x s) (sym (eq_of_eqb c d same))
          ∙ ap (String.◌∷◌ c) (strip_prefix-some p s (rw same at e))
          ∙ sym (cons-append c p r)
      | inr other ↦ let e' = rw other at e in cc
    ]

-- A prefix in front of a text is stripped.
pub strip_prefix-append : (p r : String) → strip_prefix p (String.◌++◌ p r) ≡ some r
unfolding strip_prefix
strip_prefix-append String.[] r = ap some (nil-append r)
strip_prefix-append (String.◌∷◌ c p) r =
    let same : eqb (code c) (code c) ≡ true = ground arith in
    rw (cons-append c p r, same) (strip_prefix-append p r)

pub strip_prefix-none :
    (p s : String) → strip_prefix p s ≡ none → (r : String) → s ≢ String.◌++◌ p r
strip_prefix-none p s e r h =
    let e' = sym (strip_prefix-append p r) ∙ ap (strip_prefix p) (sym h) ∙ e in cc

-- Every character passes the test.
abbrev pub AllChars : (ℕ → Bool) → String → Type 0
AllChars p String.[] = Unit
AllChars p (String.◌∷◌ c s) = (p (code c) ≡ true) × AllChars p s

-- A text that is empty or starts with a character that passes the test.
abbrev pub Starts : (ℕ → Bool) → Bool → String → Type 0
Starts p b String.[] = Unit
Starts p b (String.◌∷◌ c s) = p (code c) ≡ b

-- A text is cut where the test first fails.
pub record IsCut (p : ℕ → Bool) (s front rest : String) : Type 0 where
  pub whole : s ≡ String.◌++◌ front rest
  pub passed : AllChars p front
  pub stops : Starts p false rest

pub trim_start_matches-IsCut :
    (p : ℕ → Bool) (s : String) → (front : String) × IsCut p s front (trim_start_matches p s)
unfolding trim_start_matches
trim_start_matches-IsCut p String.[] =
    ("", record { whole = sym (nil-append ""); passed = tt; stops = tt })
trim_start_matches-IsCut p (String.◌∷◌ c s) = elim (Bool-cases (p (code c))) [
  | inl passes ↦
      let (front, cut) = trim_start_matches-IsCut p s in
      rw passes (
        String.◌∷◌ c front,
        record {
          whole = ap (String.◌∷◌ c) cut.whole ∙ sym (cons-append c front _);
          passed = (passes, cut.passed);
          stops = cut.stops;
        },
      )
  | inr fails ↦ rw fails ("", record { whole = sym (nil-append _); passed = tt; stops = fails })
]
