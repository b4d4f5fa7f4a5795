-- ===== src/Prelude/Results.antt =====
-- `Option` chains (`?` on an `Option`) and `Result` chains (`?` on a `Result`).
use mathlib.Core.Path.{◌≡◌, refl}
use mathlib.Core.Option.{Option, none, some}

-- `and_then`, and `?` on an option.
abbrev pub and_then {ℓ κ} : {A : Type ℓ} {B : Type κ} → Option A → (A → Option B) → Option B
and_then none f = none
and_then (some a) f = f a

abbrev pub unwrap_or {ℓ} : {A : Type ℓ} → Option A → A → A
unwrap_or none d = d
unwrap_or (some a) d = a

pub data Result {ℓ κ} (A : Type ℓ) (E : Type κ) : Type (ℓ ⊔ κ) where
  ok : A → Result A E
  err : E → Result A E

module _ {ℓ κ} {A : Type ℓ} {E : Type κ} where
  abbrev pub ok_or : Option A → E → Result A E
  ok_or none e = err e
  ok_or (some a) e = ok a

  -- `?` on a result.
  infixl 5 ◌>>=◌
  abbrev pub ◌>>=◌ {μ} : {B : Type μ} → Result A E → (A → Result B E) → Result B E
  ok a >>= f = f a
  err e >>= f = err e

-- `map_err` and `and_then` of a result.
abbrev pub map_err {ℓ} : {A E F : Type ℓ} → (E → F) → Result A E → Result A F
map_err f (ok a) = ok a
map_err f (err e) = err (f e)

abbrev pub ok_and_then {ℓ} : {A B E : Type ℓ} → Result A E → (A → Result B E) → Result B E
ok_and_then (ok a) f = f a
ok_and_then (err e) f = err e

-- Inversion of a chain that succeeds.
pub ok_and_then-eq-ok {ℓ} :
    {A B E : Type ℓ} (r : Result A E) (f : A → Result B E) {b : B}
    → ok_and_then r f ≡ ok b
    → (a : A) × (r ≡ ok a) × (f a ≡ ok b)
ok_and_then-eq-ok (ok a) f e = (a, refl, e)
ok_and_then-eq-ok (err x) f e = cc

pub map_err-eq-ok {ℓ} :
    {A E F : Type ℓ} (f : E → F) (r : Result A E) {a : A} → map_err f r ≡ ok a → r ≡ ok a
map_err-eq-ok f (ok a) e = cc
map_err-eq-ok f (err x) e = cc

pub ok_or-eq-err {ℓ κ} :
    {A : Type ℓ} {E : Type κ} (o : Option A) (x : E) {e : E} → ok_or o x ≡ err e → e ≡ x
ok_or-eq-err none x h = cc
ok_or-eq-err (some a) x h = cc

pub ok_or-eq-ok {ℓ κ} :
    {A : Type ℓ} {E : Type κ} (o : Option A) (x : E) {a : A} → ok_or o x ≡ ok a → o ≡ some a
ok_or-eq-ok none x h = cc
ok_or-eq-ok (some a) x h = cc

pub and_then-eq-some {ℓ κ} :
    {A : Type ℓ} {B : Type κ} (o : Option A) (f : A → Option B) {b : B}
    → and_then o f ≡ some b
    → (a : A) × (o ≡ some a) × (f a ≡ some b)
and_then-eq-some none f e = cc
and_then-eq-some (some a) f e = (a, refl, e)
