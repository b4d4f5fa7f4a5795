-- ===== src/Cli/Amount.antt =====
-- src/main.rs: `fmt_gnn`, with the decimal notation that it prints in.
pub mod Reading
use Prim.Native.Char.{char}
use Prim.Native.String
use nexus_client.Prelude.{
  ℕ, zero, suc, ◌/◌, ◌%◌, ◌+◌, ℤ, String, Char, ltb, eqb, ◌&&◌, if◌then◌else◌,
}

abbrev digit : ℕ → Char
digit zero = char 48 tt
digit (suc zero) = char 49 tt
digit (suc (suc zero)) = char 50 tt
digit (suc (suc (suc zero))) = char 51 tt
digit (suc (suc (suc (suc zero)))) = char 52 tt
digit (suc (suc (suc (suc (suc zero))))) = char 53 tt
digit (suc (suc (suc (suc (suc (suc zero)))))) = char 54 tt
digit (suc (suc (suc (suc (suc (suc (suc zero))))))) = char 55 tt
digit (suc (suc (suc (suc (suc (suc (suc (suc zero)))))))) = char 56 tt
digit _ = char 57 tt

-- The digits before `rest`, at most as many as the first argument says.
digits : ℕ → ℕ → String → String
digits zero n rest = rest
digits (suc fuel) n rest =
    let rest' = String.◌∷◌ (digit (n % 10)) rest in
    let more = digits fuel (n / 10) rest' in if ltb n 10 then rest' else more

-- A number of 64 bits has at most 20 digits.
unfoldable pub decimal : ℕ → String
unfolding digits
decimal n = digits 20 n ""

-- `{:06}` of a number below 1_000_000
unfoldable pub six_digits : ℕ → String
six_digits n = String.◌∷◌ (digit (n / 100_000 % 10)) (
    String.◌∷◌ (digit (n / 10_000 % 10)) (
      String.◌∷◌ (digit (n / 1000 % 10)) (
        String.◌∷◌ (digit (n / 100 % 10))
          (String.◌∷◌ (digit (n / 10 % 10)) (String.◌∷◌ (digit (n % 10)) "")))))

abbrev micros_per_gnn : ℕ
micros_per_gnn = 1_000_000

-- Both parts with a point between them.
abbrev point : String → String → String
point String.[] frac = String.◌∷◌ (char 46 tt) frac
point (String.◌∷◌ c whole) frac = String.◌∷◌ c (point whole frac)

-- The division truncates toward 0, so that a negative whole part below 1 is printed as 0.
abbrev signed_whole : ℕ → String
signed_whole n = if eqb n 0 then decimal 0 else String.◌∷◌ (char 45 tt) (decimal n)

unfoldable pub fmt_gnn : ℤ → String
fmt_gnn (ℤ.pos n) = point (decimal (n / micros_per_gnn)) (six_digits (n % micros_per_gnn))
fmt_gnn (ℤ.negsuc n) =
    point (signed_whole ((n + 1) / micros_per_gnn)) (six_digits ((n + 1) % micros_per_gnn))
