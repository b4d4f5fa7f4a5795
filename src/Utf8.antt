-- ===== src/Utf8.antt =====
-- Rust's UTF-8: `str::as_bytes` and `String::from_utf8_lossy`, which replaces each maximal ill-formed
-- piece by one U+FFFD.
pub mod RoundTrip
use Prim.Native.Nat.{compare, Ordering}
use Prim.Native.Char.{char, IsLt}
use Prim.Native.String
use nexus_client.Prelude.{
  ℕ, zero, suc, ◌+◌, ◌-◌, ◌*◌, ◌/◌, ◌%◌, ◌≡◌, refl, List, [], ◌∷◌, ◌++◌, String, Char, code, Bool,
  leb, ltb, ◌&&◌, if◌then◌else◌,
}

encode_code : ℕ → List ℕ
encode_code n =
    if ltb n 0x80
    then n ∷ []
    else if ltb n 0x800
    then (0xC0 + n / 64) ∷ (0x80 + n % 64) ∷ []
    else if ltb n 0x10000
    then (0xE0 + n / 4096) ∷ (0x80 + n / 64 % 64) ∷ (0x80 + n % 64) ∷ []
    else (0xF0 + n / 262144) ∷ (0x80 + n / 4096 % 64) ∷ (0x80 + n / 64 % 64) ∷ (0x80 + n % 64) ∷ []

-- `as_bytes`
unfoldable pub as_bytes : String → List ℕ
unfolding encode_code
as_bytes String.[] = []
as_bytes (String.◌∷◌ c s) = encode_code (code c) ++ as_bytes s

abbrev pub replacement : Char
replacement = char 0xFFFD tt

-- The clauses of the library's `IsScalar`, over the three comparisons that it makes.
abbrev Both : Ordering → Ordering → Type 0
Both Ordering.lt o = IsLt o
Both Ordering.eq _ = ⊥
Both Ordering.gt _ = ⊥

abbrev Scalar : Ordering → Ordering → Ordering → Type 0
Scalar Ordering.lt _ _ = Unit
Scalar Ordering.eq o p = Both o p
Scalar Ordering.gt o p = Both o p

when_scalar : (o p q : Ordering) → (Scalar o p q → Char) → Char
when_scalar Ordering.lt _ _ k = k tt
when_scalar Ordering.eq Ordering.lt Ordering.lt k = k tt
when_scalar Ordering.gt Ordering.lt Ordering.lt k = k tt
when_scalar _ _ _ k = replacement

-- The character of a number.
unfoldable pub from_u32 : ℕ → Char
unfolding when_scalar
from_u32 n = when_scalar (compare n 55296) (compare 57343 n) (compare n 1114112) (char n)

-- What the decoder has read of a character: the bytes still due, the range of the next one, and the
-- number so far.
pub data Pending : Type 0 where
  ready : Pending
  due : (need lo hi acc : ℕ) → Pending

abbrev one : ℕ → String
one n = String.◌∷◌ (from_u32 n) ""

abbrev bad : String
bad = String.◌∷◌ replacement ""

abbrev within : ℕ → ℕ → ℕ → Bool
within lo hi b = leb lo b && leb b hi

lead : ℕ → String × Pending
lead b =
    if ltb b 0x80
    then (one b, ready)
    else if within 0xC2 0xDF b
    then ("", due 0 0x80 0xBF (b - 0xC0))
    else if within 0xE0 0xE0 b
    then ("", due 1 0xA0 0xBF 0)
    else if within 0xED 0xED b
    then ("", due 1 0x80 0x9F 13)
    else if within 0xE1 0xEF b
    then ("", due 1 0x80 0xBF (b - 0xE0))
    else if within 0xF0 0xF0 b
    then ("", due 2 0x90 0xBF 0)
    else if within 0xF1 0xF3 b
    then ("", due 2 0x80 0xBF (b - 0xF0))
    else if within 0xF4 0xF4 b
    then ("", due 2 0x80 0x8F 4)
    else (bad, ready)

after_bad : String × Pending → String × Pending
after_bad (s, p) = (String.◌++◌ bad s, p)

-- One byte; `due need …` waits for `need + 1` continuation bytes.
step : Pending → ℕ → String × Pending
unfolding lead after_bad
step ready b = lead b
step (due zero lo hi acc) b =
    if within lo hi b then (one (acc * 64 + (b - 0x80)), ready) else after_bad (lead b)
step (due (suc need) lo hi acc) b =
    if within lo hi b then ("", due need 0x80 0xBF (acc * 64 + (b - 0x80))) else after_bad (lead b)

flush : Pending → String
flush ready = ""
flush (due need lo hi acc) = bad

decode : Pending → List ℕ → String
unfolding step flush
decode p [] = flush p
decode p (b ∷ bs) = let (s, p') = step p b in String.◌++◌ s (decode p' bs)

unfoldable pub from_utf8_lossy : List ℕ → String
unfolding decode
from_utf8_lossy bytes = decode ready bytes

lossy_ascii : from_utf8_lossy (0x68 ∷ 0x69 ∷ []) ≡ "hi"
unfolding from_utf8_lossy from_u32
lossy_ascii = refl

lossy_mixed : from_utf8_lossy (as_bytes "aé€😀") ≡ "aé€😀"
unfolding from_utf8_lossy from_u32 as_bytes
lossy_mixed = refl

lossy_split : from_utf8_lossy (0xE2 ∷ 0x82 ∷ 0x41 ∷ []) ≡ "�A"
unfolding from_utf8_lossy from_u32
lossy_split = refl
