-- ===== src/Utf8/RoundTrip.antt =====
-- The bytes of a text decode to the text.
use Prim.Native.Nat.{compare, Ordering}
use Prim.Native.Char.{char, IsScalar}
use text.Mathlib.TextLemmas.{nil-append, cons-append}
use nexus_client.Prelude.{
  ℕ, zero, suc, ◌+◌, ◌-◌, ◌*◌, ◌/◌, ◌%◌, ◌≡◌, ◌<◌, ◌≤◌, refl, ap, ◌∙◌, ◌⊎◌, inl, inr, List, [], ◌∷◌,
  ◌++◌, String, Char, Bool, true, false, leb, ltb, ltb→lt, ltb→le, Bool-cases, ◌&&◌, if◌then◌else◌,
  arith,
}
use nexus_client.Utf8.{
  encode_code, as_bytes, Scalar, when_scalar, from_u32, Pending, ready, due, one, within, lead,
  step, decode, flush, from_utf8_lossy,
}

when_scalar_lem :
    (o p q : Ordering) (k : Scalar o p q → Char) (s : Scalar o p q) → when_scalar o p q k ≡ k s
unfolding when_scalar
when_scalar_lem Ordering.lt p q k s = refl
when_scalar_lem Ordering.eq Ordering.lt Ordering.lt k s = refl
when_scalar_lem Ordering.gt Ordering.lt Ordering.lt k s = refl
when_scalar_lem Ordering.eq Ordering.lt Ordering.eq k s = elim s [ ]
when_scalar_lem Ordering.eq Ordering.lt Ordering.gt k s = elim s [ ]
when_scalar_lem Ordering.gt Ordering.lt Ordering.eq k s = elim s [ ]
when_scalar_lem Ordering.gt Ordering.lt Ordering.gt k s = elim s [ ]
when_scalar_lem Ordering.eq Ordering.eq q k s = elim s [ ]
when_scalar_lem Ordering.eq Ordering.gt q k s = elim s [ ]
when_scalar_lem Ordering.gt Ordering.eq q k s = elim s [ ]
when_scalar_lem Ordering.gt Ordering.gt q k s = elim s [ ]

from_u32_code : (n : ℕ) (p : IsScalar n) → from_u32 n ≡ char n p
unfolding from_u32
from_u32_code n p =
    when_scalar_lem (compare n 55296) (compare 57343 n) (compare n 1114112) (char n) p

abbrev is_less : Ordering → Bool
is_less Ordering.lt = true
is_less _ = false

less : (a b : ℕ) → compare a b ≡ Ordering.lt → a < b
less a b e = ltb→lt a b (rw (e, ltb) refl)

bounds_of :
    (n : ℕ) (o p q : Ordering)
    → compare n 55296 ≡ o
    → compare 57343 n ≡ p
    → compare n 1114112 ≡ q
    → Scalar o p q
    → (n < 55296) ⊎ ((57343 < n) × (n < 1114112))
bounds_of n Ordering.lt p q a b c s = inl (less n 55296 a)
bounds_of n Ordering.eq Ordering.lt Ordering.lt a b c s = inr (less 57343 n b, less n 1114112 c)
bounds_of n Ordering.gt Ordering.lt Ordering.lt a b c s = inr (less 57343 n b, less n 1114112 c)
bounds_of n Ordering.eq Ordering.lt Ordering.eq a b c s = elim s [ ]
bounds_of n Ordering.eq Ordering.lt Ordering.gt a b c s = elim s [ ]
bounds_of n Ordering.gt Ordering.lt Ordering.eq a b c s = elim s [ ]
bounds_of n Ordering.gt Ordering.lt Ordering.gt a b c s = elim s [ ]
bounds_of n Ordering.eq Ordering.eq q a b c s = elim s [ ]
bounds_of n Ordering.eq Ordering.gt q a b c s = elim s [ ]
bounds_of n Ordering.gt Ordering.eq q a b c s = elim s [ ]
bounds_of n Ordering.gt Ordering.gt q a b c s = elim s [ ]

scalar_bounds : (n : ℕ) → IsScalar n → (n < 55296) ⊎ ((57343 < n) × (n < 1114112))
scalar_bounds n s = bounds_of n _ _ _ refl refl refl s

ascii_lead : (n : ℕ) → n < 128 → lead n ≡ (one n, ready)
unfolding lead
ascii_lead n h = ground arith

lead_two : (k : ℕ) → 2 ≤ k → k < 32 → lead (0xC0 + k) ≡ ("", due 0 0x80 0xBF (0xC0 + k - 0xC0))
unfolding lead
lead_two k h j = ground arith

-- The range of the second of three, and of four, bytes.
abbrev low3 : ℕ → ℕ
low3 k = if ltb k 1 then 0xA0 else 0x80

abbrev high3 : ℕ → ℕ
high3 k = if leb 13 k && leb k 13 then 0x9F else 0xBF

abbrev low4 : ℕ → ℕ
low4 k = if ltb k 1 then 0x90 else 0x80

abbrev high4 : ℕ → ℕ
high4 k = if ltb k 4 then 0xBF else 0x8F

lead_three : (k : ℕ) → k < 16 → lead (0xE0 + k) ≡ ("", due 1 (low3 k) (high3 k) k)
unfolding lead
lead_three k h = ground arith

lead_four : (k : ℕ) → k < 5 → lead (0xF0 + k) ≡ ("", due 2 (low4 k) (high4 k) k)
unfolding lead
lead_four k h = ground arith

within_lem : (lo hi b : ℕ) → lo ≤ b → b ≤ hi → within lo hi b ≡ true
within_lem lo hi b h j = ground arith

step_last :
    (lo hi acc b : ℕ)
    → lo ≤ b
    → b ≤ hi
    → step (due zero lo hi acc) b ≡ (one (acc * 64 + (b - 0x80)), ready)
unfolding step
step_last lo hi acc b h j = rw (within_lem lo hi b h j) refl

step_more :
    (need lo hi acc b : ℕ)
    → lo ≤ b
    → b ≤ hi
    → step (due (suc need) lo hi acc) b ≡ ("", due need 0x80 0xBF (acc * 64 + (b - 0x80)))
unfolding step
step_more need lo hi acc b h j = rw (within_lem lo hi b h j) refl

off_surrogates : (n : ℕ) → (n < 55296) ⊎ ((57343 < n) × (n < 1114112)) → (n < 55296) ⊎ (57343 < n)
off_surrogates n (inl h) = inl h
off_surrogates n (inr (h, j)) = inr h

below_end : (n : ℕ) → (n < 55296) ⊎ ((57343 < n) × (n < 1114112)) → 65536 ≤ n → n < 1114112
below_end n (inl h) big = omega arith
below_end n (inr (h, j)) big = j

empty : decode ready [] ≡ ""
unfolding decode flush
empty = refl

module _ (bs : List ℕ) where
  decode_silent :
      (p p' : Pending) (b : ℕ) (rest : List ℕ)
      → step p b ≡ ("", p')
      → decode p (b ∷ rest) ≡ decode p' rest
  unfolding decode
  decode_silent p p' b rest e = rw e (nil-append (decode p' rest))

  decode_said :
      (p : Pending) (b n m : ℕ)
      → step p b ≡ (one m, ready)
      → m ≡ n
      → decode p (b ∷ bs) ≡ String.◌∷◌ (from_u32 n) (decode ready bs)
  unfolding decode
  decode_said p b n m e same =
      rw (e, same)
        (cons-append (from_u32 n) "" (decode ready bs)
          ∙ ap (String.◌∷◌ (from_u32 n)) (nil-append (decode ready bs)))

  last :
      (n acc b lo hi : ℕ)
      → lo ≤ b
      → b ≤ hi
      → acc * 64 + (b - 0x80) ≡ n
      → decode (due 0 lo hi acc) (b ∷ bs) ≡ String.◌∷◌ (from_u32 n) (decode ready bs)
  last n acc b lo hi h j e = decode_said (due 0 lo hi acc) b n _ (step_last lo hi acc b h j) e

  ready_lead : (b : ℕ) → step ready b ≡ lead b
  unfolding step
  ready_lead b = refl

  decode_two :
      (n : ℕ)
      → 128 ≤ n
      → n < 2048
      → decode ready ((0xC0 + n / 64) ∷ (0x80 + n % 64) ∷ bs)
        ≡ String.◌∷◌ (from_u32 n) (decode ready bs)
  decode_two n h j =
      decode_silent ready _ (0xC0 + n / 64) _
        (ready_lead _ ∙ lead_two (n / 64) (omega arith) (omega arith))
      ∙ last n _ (0x80 + n % 64) 0x80 0xBF (omega arith) (omega arith) (omega arith)

  decode_three :
      (n : ℕ)
      → 2048 ≤ n
      → n < 65536
      → (n < 55296) ⊎ (57343 < n)
      → decode ready ((0xE0 + n / 4096) ∷ (0x80 + n / 64 % 64) ∷ (0x80 + n % 64) ∷ bs)
        ≡ String.◌∷◌ (from_u32 n) (decode ready bs)
  decode_three n h j s =
      decode_silent ready _ (0xE0 + n / 4096) _ (ready_lead _ ∙ lead_three (n / 4096) (omega arith))
      ∙ decode_silent _ _ (0x80 + n / 64 % 64) _ (
          step_more 0 (low3 (n / 4096)) (high3 (n / 4096)) (n / 4096) (0x80 + n / 64 % 64)
            (ground arith) (ground arith))
      ∙ last n _ (0x80 + n % 64) 0x80 0xBF (omega arith) (omega arith) (omega arith)

  decode_four :
      (n : ℕ)
      → 65536 ≤ n
      → n < 1114112
      → decode ready (
          (0xF0 + n / 262144)
          ∷ (0x80 + n / 4096 % 64)
          ∷ (0x80 + n / 64 % 64)
          ∷ (0x80 + n % 64)
          ∷ bs)
        ≡ String.◌∷◌ (from_u32 n) (decode ready bs)
  decode_four n h j =
      decode_silent ready _ (0xF0 + n / 262144) _
        (ready_lead _ ∙ lead_four (n / 262144) (omega arith))
      ∙ decode_silent _ _ (0x80 + n / 4096 % 64) _ (
          step_more 1 (low4 (n / 262144)) (high4 (n / 262144)) (n / 262144) (0x80 + n / 4096 % 64)
            (ground arith) (ground arith))
      ∙ decode_silent _ _ (0x80 + n / 64 % 64) _
          (step_more 0 0x80 0xBF _ (0x80 + n / 64 % 64) (omega arith) (omega arith))
      ∙ last n _ (0x80 + n % 64) 0x80 0xBF (omega arith) (omega arith) (omega arith)

  decode_one : (n : ℕ) → n < 128 → decode ready (n ∷ bs) ≡ String.◌∷◌ (from_u32 n) (decode ready bs)
  decode_one n h = decode_said ready n n n (ready_lead n ∙ ascii_lead n h) refl

  -- The bytes of a scalar value, before others.
  decode_code :
      (n : ℕ)
      → (n < 55296) ⊎ ((57343 < n) × (n < 1114112))
      → decode ready (encode_code n ++ bs) ≡ String.◌∷◌ (from_u32 n) (decode ready bs)
  unfolding encode_code
  decode_code n s = elim (Bool-cases (ltb n 0x80)) [
    | inl one_byte ↦ rw one_byte (decode_one n (ltb→lt n 0x80 one_byte))
    | inr more ↦ rw more (elim (Bool-cases (ltb n 0x800)) [
      | inl two ↦ rw two (decode_two n (ltb→le n 0x80 more) (ltb→lt n 0x800 two))
      | inr more' ↦ rw more' (elim (Bool-cases (ltb n 0x10000)) [
        | inl three ↦
            rw three
              (decode_three n (ltb→le n 0x800 more') (ltb→lt n 0x10000 three) (off_surrogates n s))
        | inr four ↦
            rw four (decode_four n (ltb→le n 0x10000 four) (below_end n s (ltb→le n 0x10000 four)))
      ])
    ])
  ]

-- A text's bytes decode to the text.
pub from_utf8_lossy-as_bytes : (s : String) → from_utf8_lossy (as_bytes s) ≡ s
unfolding from_utf8_lossy as_bytes
from_utf8_lossy-as_bytes String.[] = empty
from_utf8_lossy-as_bytes (String.◌∷◌ (char n p) s) =
    decode_code (as_bytes s) n (scalar_bounds n p)
    ∙ ap (λ c. String.◌∷◌ c (decode ready (as_bytes s))) (from_u32_code n p)
    ∙ ap (String.◌∷◌ (char n p)) (from_utf8_lossy-as_bytes s)
