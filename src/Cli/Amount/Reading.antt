-- ===== src/Cli/Amount/Reading.antt =====
-- What `fmt_gnn` of src/main.rs prints, read back.
use Prim.Native.Char.{char}
use native.Mathlib.Nat.{pow-suc}
use nexus_client.Prelude.{
  subst, ℕ, zero, suc, ◌+◌, ◌*◌, ◌-◌, ◌/◌, ◌%◌, ◌^◌, ◌≡◌, ◌<◌, ◌≤◌, refl, sym, ap, ◌∙◌, ℤ, true,
  false, eqb, ◌≢◌, ◌⊎◌, Bool-cases, inl, inr, some, String, code, ltb, leb, ltb→lt, arith,
}
use nexus_client.Stake.Rpc.{parse_digits}
use nexus_client.Cli.Amount.{digit, digits, decimal, six_digits, point, fmt_gnn}

code-digit : (d : ℕ) → d < 10 → code (digit d) ≡ 48 + d
code-digit zero h = refl
code-digit (suc zero) h = refl
code-digit (suc (suc zero)) h = refl
code-digit (suc (suc (suc zero))) h = refl
code-digit (suc (suc (suc (suc zero)))) h = refl
code-digit (suc (suc (suc (suc (suc zero))))) h = refl
code-digit (suc (suc (suc (suc (suc (suc zero)))))) h = refl
code-digit (suc (suc (suc (suc (suc (suc (suc zero))))))) h = refl
code-digit (suc (suc (suc (suc (suc (suc (suc (suc zero)))))))) h = refl
code-digit (suc (suc (suc (suc (suc (suc (suc (suc (suc zero))))))))) h = refl
code-digit (suc (suc (suc (suc (suc (suc (suc (suc (suc (suc n)))))))))) h =
    let wrong : ⊥ = omega arith in elim wrong [ ]

lt→ltb : (a b : ℕ) → a < b → ltb a b ≡ true
lt→ltb a b h = ground arith

le→leb : (a b : ℕ) → a ≤ b → leb a b ≡ true
le→leb a b h = ground arith

eqb→eq : (a b : ℕ) → eqb a b ≡ true → a ≡ b
eqb→eq a b h = ground arith

eqb→ne : (a b : ℕ) → eqb a b ≡ false → a ≢ b
eqb→ne a b h = ground arith

read_digit :
    (acc d : ℕ) (rest : String)
    → d < 10
    → acc * 10 + d < 2 ^ 64
    → parse_digits acc (String.◌∷◌ (digit d) rest) ≡ parse_digits (acc * 10 + d) rest
unfolding parse_digits
read_digit acc d rest h fits =
    let at : 48 + d - 48 ≡ d = omega arith in
    rw
      (
        code-digit d h,
        le→leb 48 (48 + d) (omega arith),
        le→leb (48 + d) 57 (omega arith),
        at,
        lt→ltb (acc * 10 + d) (2 ^ 64) fits,
      )
      refl

-- Reading the digits of a number on from 0 gives the number.
digits_read :
    (fuel n : ℕ) (rest : String)
    → n < 10 ^ fuel
    → n < 2 ^ 64
    → parse_digits 0 (digits fuel n rest) ≡ parse_digits n rest
unfolding digits
digits_read zero n rest small fits =
    let zero_lem : 0 ≡ n = omega arith in ap (λ m. parse_digits m rest) zero_lem
digits_read (suc fuel) n rest small fits = elim (Bool-cases (ltb n 10)) [
  | inl last ↦ rw last (
      read_digit 0 (n % 10) rest (omega arith) (omega arith)
      ∙ ap (λ m. parse_digits m rest) (omega (arith, ltb→lt n 10 last)))
  | inr more ↦ rw more (
      digits_read fuel (n / 10) (String.◌∷◌ (digit (n % 10)) rest) (omega (arith, pow-suc 10 fuel))
        (omega arith)
      ∙ read_digit (n / 10) (n % 10) rest (omega arith) (omega arith)
      ∙ ap (λ m. parse_digits m rest) (omega arith))
]

next :
    (acc acc' d : ℕ) (rest : String)
    → d < 10
    → acc' ≡ acc * 10 + d
    → acc' < 2 ^ 64
    → parse_digits acc (String.◌∷◌ (digit d) rest) ≡ parse_digits acc' rest
next acc acc' d rest h e fits =
    read_digit acc d rest h (omega arith) ∙ ap (λ m. parse_digits m rest) (sym e)

done : (n : ℕ) → parse_digits n "" ≡ some n
unfolding parse_digits
done n = refl

read_six : (f : ℕ) → f < 1_000_000 → parse_digits 0 (six_digits f) ≡ some f
unfolding six_digits
read_six f h =
    let a : ℕ = f / 100_000 in
    let b : ℕ = f / 10_000 in
    let c : ℕ = f / 1000 in
    let d : ℕ = f / 100 in
    let e : ℕ = f / 10 in
    next 0 a (f / 100_000 % 10) _ (omega arith) (omega arith) (omega arith)
    ∙ next a b (f / 10_000 % 10) _ (omega arith) (omega arith) (omega arith)
    ∙ next b c (f / 1000 % 10) _ (omega arith) (omega arith) (omega arith)
    ∙ next c d (f / 100 % 10) _ (omega arith) (omega arith) (omega arith)
    ∙ next d e (f / 10 % 10) _ (omega arith) (omega arith) (omega arith)
    ∙ next e f (f % 10) "" (omega arith) (omega arith) (omega arith)
    ∙ done f

abbrev count : String → ℕ
count String.[] = 0
count (String.◌∷◌ c s) = suc (count s)

-- A text of digits, a point and six digits, which are the number's micros.
pub record Shows (txt : String) (n : ℕ) : Type 0 where
  pub whole : String
  pub frac : String
  pub shape : txt ≡ point whole frac
  pub whole_read : parse_digits 0 whole ≡ some (n / 1_000_000)
  pub frac_read : parse_digits 0 frac ≡ some (n % 1_000_000)
  pub six : count frac ≡ 6

-- An amount from 0 on: the digits before the point are the whole coins, and the six digits behind it the
-- remaining micros.
fmt_gnn-Shows : (n : ℕ) → n ≤ 2 ^ 63 → Shows (fmt_gnn (ℤ.pos n)) n
unfolding fmt_gnn decimal six_digits parse_digits
fmt_gnn-Shows n h = record {
  whole = decimal (n / 1_000_000);
  frac = six_digits (n % 1_000_000);
  shape = refl;
  whole_read = digits_read 20 (n / 1_000_000) "" (omega arith) (omega arith);
  frac_read = read_six (n % 1_000_000) (omega arith);
  six = refl;
}

-- A negative amount is printed like the positive one with a minus sign before it, but without the sign
-- when it is less than one whole coin.
fmt_gnn-negsuc :
    (n : ℕ)
    → ((n + 1 < 1_000_000) × (fmt_gnn (ℤ.negsuc n) ≡ fmt_gnn (ℤ.pos (n + 1))))
      ⊎ ((1_000_000 ≤ n + 1)
          × (fmt_gnn (ℤ.negsuc n) ≡ String.◌∷◌ (char 45 tt) (fmt_gnn (ℤ.pos (n + 1)))))
unfolding fmt_gnn
fmt_gnn-negsuc n = elim (Bool-cases (eqb ((n + 1) / 1_000_000) 0)) [
  | inl small ↦
      inl (omega (arith, eqb→eq _ _ small), rw (eqb→eq ((n + 1) / 1_000_000) 0 small) refl)
  | inr large ↦ inr (omega (arith, eqb→ne _ _ large), rw large refl)
]

-- `i64`
abbrev pub IsI64 : ℤ → Type 0
IsI64 (ℤ.pos n) = n < 2 ^ 63
IsI64 (ℤ.negsuc n) = n < 2 ^ 63

abbrev pub Prints : String → ℤ → Type 0
Prints txt (ℤ.pos n) = Shows txt n
Prints txt (ℤ.negsuc n) =
    ((n + 1 < 1_000_000) × Shows txt (n + 1))
    ⊎ ((1_000_000 ≤ n + 1)
        × (rest : String) × (txt ≡ String.◌∷◌ (char 45 tt) rest)
        × Shows rest (n + 1))

-- Every 64-bit amount is printed as its whole coins, a point and the six digits of the remaining micros; a
-- negative one by its absolute value, behind a minus sign when it is at least one whole coin and without a
-- sign when it is less.
pub fmt_gnn-Prints : (z : ℤ) → IsI64 z → Prints (fmt_gnn z) z
fmt_gnn-Prints (ℤ.pos n) h = fmt_gnn-Shows n (omega arith)
fmt_gnn-Prints (ℤ.negsuc n) h =
    let shown = fmt_gnn-Shows (n + 1) (omega arith) in
    elim (fmt_gnn-negsuc n) [
      | inl (small, e) ↦ inl (small, subst (λ txt. Shows txt (n + 1)) (sym e) shown)
      | inr (large, e) ↦ inr (large, fmt_gnn (ℤ.pos (n + 1)), e, shown)
    ]
