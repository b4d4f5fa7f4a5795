-- ===== src/Agenc/Net/Ensures.antt =====
-- What an action leaves, from what held before it.
use nexus_client.Prelude.{List, ◌≡◌, refl, sym, subst, Result, ok, err}
use nexus_client.External.Serde.{Serde}
use nexus_client.Agenc.Net.{Event, Act, ◌>>=◌, pure, lift, throw, then_with, via, with_error}

module _ {S : Serde} {A E : Type 0} where
  -- `Q` of a value and the history, `R` of an error and the history.
  abbrev pub Outcome :
      (A → List (Event S) → Type 0)
      → (E → List (Event S) → Type 0)
      → Result A E × List (Event S)
      → Type 0
  Outcome Q R (ok a, h) = Q a h
  Outcome Q R (err e, h) = R e h

  pub record Ensures (P : List (Event S) → Type 0) (m : Act S A E) (Q : A → List (Event S) → Type 0)
      (R : E → List (Event S) → Type 0) : Type 0 where
    pub at : (h : List (Event S)) → P h → Outcome Q R (m h)

module _ {S : Serde} {E : Type 0} {R : E → List (Event S) → Type 0} where
  bind_at :
      {A B : Type 0} {M : A → List (Event S) → Type 0} {Q : B → List (Event S) → Type 0}
      (r : Result A E × List (Event S)) (f : A → Act S B E)
      → Outcome M R r
      → ((a : A) → Ensures (M a) (f a) Q R)
      → Outcome Q R (then_with r f)
  bind_at (ok a, h) f o k = (k a).at h o
  bind_at (err e, h) f o k = o

module _ {S : Serde} {E : Type 0} {P : List (Event S) → Type 0}
    {R : E → List (Event S) → Type 0} where
  pub Ensures-pure :
      {A : Type 0} {Q : A → List (Event S) → Type 0} (a : A)
      → ((h : List (Event S)) → P h → Q a h)
      → Ensures P (pure a) Q R
  unfolding pure
  Ensures-pure a k = record { at = k }

  pub Ensures-throw :
      {A : Type 0} {Q : A → List (Event S) → Type 0} (e : E)
      → ((h : List (Event S)) → P h → R e h)
      → Ensures P (throw e) Q R
  unfolding throw
  Ensures-throw e k = record { at = k }

  pub Ensures-lift :
      {A : Type 0} {Q : A → List (Event S) → Type 0} (r : Result A E)
      → ((a : A) → r ≡ ok a → (h : List (Event S)) → P h → Q a h)
      → ((e : E) → r ≡ err e → (h : List (Event S)) → P h → R e h)
      → Ensures P (lift r) Q R
  unfolding lift
  Ensures-lift (ok a) k j = record { at = k a refl }
  Ensures-lift (err e) k j = record { at = j e refl }

  pub Ensures-bind :
      {A B : Type 0} (M : A → List (Event S) → Type 0) {Q : B → List (Event S) → Type 0}
      {m : Act S A E} {f : A → Act S B E}
      → Ensures P m M R
      → ((a : A) → Ensures (M a) (f a) Q R)
      → Ensures P (m >>= f) Q R
  unfolding ◌>>=◌
  Ensures-bind M {Q} {m} {f} e k = record {
    at = λ h p. bind_at {M = M} {Q = Q} (m h) f (e.at h p) k;
  }

module _ {S : Serde} {A E : Type 0} {Q : A → List (Event S) → Type 0}
    {R : E → List (Event S) → Type 0} where
  -- What holds before may be split into a fact about no history, and the rest.
  pub Ensures-given :
      {C : Type 0} {P P' : List (Event S) → Type 0} {m : Act S A E}
      → ((h : List (Event S)) → P h → C × P' h)
      → (C → Ensures P' m Q R)
      → Ensures P m Q R
  Ensures-given take k = record { at = λ h p. let (c, p') = take h p in (k c).at h p' }

  -- What holds before may be used for the history at hand.
  pub Ensures-from :
      {P : List (Event S) → Type 0} {m : Act S A E}
      → ((h : List (Event S)) → P h → Ensures (λ x. x ≡ h) m Q R)
      → Ensures P m Q R
  Ensures-from k = record { at = λ h p. (k h p).at h refl }

-- What holds of the history with a value and with an error holds of it.
pub history_of-Outcome :
    {S : Serde} {A E : Type 0} (P : List (Event S) → Type 0) (r : Result A E × List (Event S))
    → Outcome {S = S} {A = A} {E = E} (λ a h. P h) (λ e h. P h) r
    → P r.1
history_of-Outcome P (ok a, h) o = o
history_of-Outcome P (err e, h) o = o

any-Outcome :
    {S : Serde} {A E : Type 0} (r : Result A E × List (Event S))
    → Outcome {S = S} {A = A} {E = E} (λ a h. Unit {0}) (λ e h. Unit {0}) r
any-Outcome (ok a, h) = tt
any-Outcome (err e, h) = tt

pub Ensures-any :
    {S : Serde} {A E : Type 0} {P : List (Event S) → Type 0} {m : Act S A E}
    → Ensures P m (λ a h. Unit {0}) (λ e h. Unit {0})
Ensures-any {m} = record { at = λ h p. any-Outcome (m h) }

module _ {S : Serde} {A E : Type 0} (Q : A → List (Event S) → Type 0)
    (R : E → List (Event S) → Type 0) where
  -- What a success, and a failure, leaves.
  pub ok_of-Outcome :
      (r : Result A E × List (Event S)) (a : A) → Outcome Q R r → r.0 ≡ ok a → Q a r.1
  ok_of-Outcome (ok b, h) a o e = let same : b ≡ a = cc in subst (λ x. Q x h) same o
  ok_of-Outcome (err x, h) a o e = cc

  pub err_of-Outcome :
      (r : Result A E × List (Event S)) (x : E) → Outcome Q R r → r.0 ≡ err x → R x r.1
  err_of-Outcome (ok b, h) x o e = cc
  err_of-Outcome (err y, h) x o e = let same : y ≡ x = cc in subst (λ z. R z h) same o

with_error-Outcome :
    {S : Serde} {A E F : Type 0} (Q : A → List (Event S) → Type 0) (f : E → F)
    (r : Result A E × List (Event S))
    → Outcome Q (λ e h. Unit {0}) r
    → Outcome Q (λ e h. Unit {0}) (with_error f r)
with_error-Outcome Q f (ok a, h) o = o
with_error-Outcome Q f (err e, h) o = tt

pub Ensures-via :
    {S : Serde} {A E F : Type 0} {P : List (Event S) → Type 0} {Q : A → List (Event S) → Type 0}
    (f : E → F) {m : Act S A E}
    → Ensures P m Q (λ e h. Unit {0})
    → Ensures P (via f m) Q (λ e h. Unit {0})
unfolding via
Ensures-via {Q} f {m} e = record { at = λ h p. with_error-Outcome Q f (m h) (e.at h p) }

module _ {S : Serde} {A E : Type 0} where
  weak-Outcome :
      (R : E → List (Event S) → Type 0) (Q Q' : A → List (Event S) → Type 0)
      (r : Result A E × List (Event S))
      → ((a : A) (h : List (Event S)) → Q a h → Q' a h)
      → Outcome Q R r
      → Outcome Q' R r
  weak-Outcome R Q Q' (ok a, h) k o = k a h o
  weak-Outcome R Q Q' (err e, h) k o = o

  self-Outcome : (r : Result A E × List (Event S)) → Outcome (λ a x. r.0 ≡ ok a) (λ e x. Unit {0}) r
  self-Outcome (ok a, h) = refl
  self-Outcome (err e, h) = tt

  -- The value is what the action gives at this history.
  pub Ensures-self :
      (h : List (Event S)) {m : Act S A E}
      → Ensures (λ x. x ≡ h) m (λ a x. (m h).0 ≡ ok a) (λ e x. Unit {0})
  Ensures-self h {m} = record {
    at = λ x e.
        subst (λ y. Outcome (λ a z. (m h).0 ≡ ok a) (λ e z. Unit {0}) (m y)) (sym e)
          (self-Outcome (m h));
  }

module _ {S : Serde} {A E : Type 0} {R : E → List (Event S) → Type 0} where
  pub Ensures-weak :
      {P : List (Event S) → Type 0} {Q Q' : A → List (Event S) → Type 0} {m : Act S A E}
      → ((a : A) (h : List (Event S)) → Q a h → Q' a h)
      → Ensures P m Q R
      → Ensures P m Q' R
  Ensures-weak {Q} {Q'} {m} k e = record { at = λ h p. weak-Outcome R Q Q' (m h) k (e.at h p) }

and-Outcome :
    {S : Serde} {A E : Type 0} (Q Q' : A → List (Event S) → Type 0)
    (r : Result A E × List (Event S))
    → Outcome Q (λ e h. Unit {0}) r
    → Outcome Q' (λ e h. Unit {0}) r
    → Outcome (λ a h. Q a h × Q' a h) (λ e h. Unit {0}) r
and-Outcome Q Q' (ok a, h) o p = (o, p)
and-Outcome Q Q' (err e, h) o p = tt

-- Two facts about a success, the first from less.
pub Ensures-and :
    {S : Serde} {A E : Type 0} {P P' : List (Event S) → Type 0} {Q Q' : A → List (Event S) → Type 0}
    {m : Act S A E}
    → ((h : List (Event S)) → P' h → P h)
    → Ensures P m Q (λ e h. Unit {0})
    → Ensures P' m Q' (λ e h. Unit {0})
    → Ensures P' m (λ a h. Q a h × Q' a h) (λ e h. Unit {0})
Ensures-and {Q} {Q'} {m} weak e k = record {
  at = λ h p. and-Outcome Q Q' (m h) (e.at h (weak h p)) (k.at h p);
}
