-- ===== src/Agenc/Net.antt =====
-- Actions that post over HTTP, call tools, sign, and may fail. What was done is kept in order, and each answer is a
-- function of it, so that nothing is assumed of the servers. An HTTP event is a request that the program hands
-- to reqwest; what reqwest sends in following a redirect is its own, and no event.
pub mod Ensures
pub mod Inversion
use nexus_client.Prelude.{
  ℕ, List, [], ◌∷◌, ◌++◌, String, Result, ok, err, ok_and_then, map_err, ◌≡◌, refl, All, All-append,
}
use nexus_client.External.Serde.{Serde}
use nexus_client.External.Http.{Reply}

module _ (S : Serde) where
  pub data Event : Type 0 where
    posted : String → S.Value → Event
    fetched : String → Event
    signed : List ℕ → Event
    -- seconds
    slept : ℕ → Event
    -- a tool of the MCP, with its arguments
    called : String → S.Value → Event
    -- a request with this bearer token
    bearing : String → Event → Event

  -- The answer to the request that ends the history.
  abbrev pub Servers : Type 0
  Servers = List Event → Reply

  -- The answer of the MCP to the call that ends the history, or the text of an error.
  abbrev pub Mcp : Type 0
  Mcp = List Event → Result S.Value String

  abbrev pub Act : Type 0 → Type 0 → Type 0
  Act A E = List Event → Result A E × List Event

module _ {S : Serde} {E : Type 0} where
  abbrev pub then_with :
      {A B : Type 0} → Result A E × List (Event S) → (A → Act S B E) → Result B E × List (Event S)
  then_with (ok a, h) f = f a h
  then_with (err e, h) f = (err e, h)

  infixl 5 ◌>>=◌
  unfoldable pub ◌>>=◌ : {A B : Type 0} → Act S A E → (A → Act S B E) → Act S B E
  ◌>>=◌ m f h = then_with (m h) f

  infixl 5 ◌>>◌
  abbrev pub ◌>>◌ : {B : Type 0} → Act S (Unit {0}) E → Act S B E → Act S B E
  m >> n = m >>= λ _. n

  unfoldable pub pure : {A : Type 0} → A → Act S A E
  pure a h = (ok a, h)

  unfoldable pub lift : {A : Type 0} → Result A E → Act S A E
  lift r h = (r, h)

  unfoldable pub post : Servers S → String → S.Value → Act S Reply E
  post servers url body h = let h' = h ++ posted url body ∷ [] in (ok (servers h'), h')

  -- A GET.
  unfoldable pub fetch : Servers S → String → Act S Reply E
  fetch servers url h = let h' = h ++ fetched url ∷ [] in (ok (servers h'), h')

  -- The same with a bearer token.
  unfoldable pub post_as : Servers S → String → String → S.Value → Act S Reply E
  post_as servers token url body h =
      let h' = h ++ bearing token (posted url body) ∷ [] in (ok (servers h'), h')

  unfoldable pub fetch_as : Servers S → String → String → Act S Reply E
  fetch_as servers token url h =
      let h' = h ++ bearing token (fetched url) ∷ [] in (ok (servers h'), h')

  unfoldable pub throw : {A : Type 0} → E → Act S A E
  throw e h = (err e, h)

  unfoldable pub sleep : ℕ → Act S (Unit {0}) E
  sleep secs h = (ok tt, h ++ slept secs ∷ [])

  -- The message that a key signs is kept; the signature is the caller's.
  unfoldable pub record_signing : List ℕ → Act S (Unit {0}) E
  record_signing msg h = (ok tt, h ++ signed msg ∷ [])

module _ {S : Serde} {E : Type 0} where
  pub bind-lift :
      {A B : Type 0} (r : Result A E) (f : A → Result B E) (h : List (Event S))
      → (lift r >>= λ a. lift (f a)) h ≡ (ok_and_then r f, h)
  unfolding lift ◌>>=◌
  bind-lift (ok a) f h = refl
  bind-lift (err e) f h = refl

-- `map_err` of an action's error.
abbrev pub with_error :
    {S : Serde} {A E F : Type 0}
    → (E → F)
    → Result A E × List (Event S)
    → Result A F × List (Event S)
with_error f (r, h) = (map_err f r, h)

unfoldable pub via : {S : Serde} {A E F : Type 0} → (E → F) → Act S A E → Act S A F
via f m h = with_error f (m h)

-- `P` of every event of the history is kept.
pub record Keeps {S : Serde} {A E : Type 0} (P : Event S → Type 0) (m : Act S A E) : Type 0 where
  pub at : (h : List (Event S)) → All P h → All P (m h).1

module _ {S : Serde} {E : Type 0} {P : Event S → Type 0} where
  pub Keeps-pure : {A : Type 0} (a : A) → Keeps P (pure {S = S} {E = E} a)
  unfolding pure
  Keeps-pure a = record { at = λ h k. k }

  pub Keeps-lift : {A : Type 0} (r : Result A E) → Keeps P (lift {S = S} r)
  unfolding lift
  Keeps-lift r = record { at = λ h k. k }

  pub Keeps-post :
      (servers : Servers S) (url : String) (body : S.Value)
      → P (posted url body)
      → Keeps P (post {E = E} servers url body)
  unfolding post
  Keeps-post servers url body p = record { at = λ h k. All-append P h _ k (p, tt) }

  pub Keeps-fetch :
      (servers : Servers S) (url : String) → P (fetched url) → Keeps P (fetch {E = E} servers url)
  unfolding fetch
  Keeps-fetch servers url p = record { at = λ h k. All-append P h _ k (p, tt) }

  pub Keeps-post_as :
      (servers : Servers S) (token url : String) (body : S.Value)
      → P (bearing token (posted url body))
      → Keeps P (post_as {E = E} servers token url body)
  unfolding post_as
  Keeps-post_as servers token url body p = record { at = λ h k. All-append P h _ k (p, tt) }

  pub Keeps-fetch_as :
      (servers : Servers S) (token url : String)
      → P (bearing token (fetched url))
      → Keeps P (fetch_as {E = E} servers token url)
  unfolding fetch_as
  Keeps-fetch_as servers token url p = record { at = λ h k. All-append P h _ k (p, tt) }

  pub Keeps-record_signing :
      (msg : List ℕ) → P (signed msg) → Keeps P (record_signing {S = S} {E = E} msg)
  unfolding record_signing
  Keeps-record_signing msg p = record { at = λ h k. All-append P h _ k (p, tt) }

  -- One event more, and no failure.
  pub Keeps-event :
      {A : Type 0} {a : A} (e : Event S) → P e → Keeps {E = E} P (λ h. (ok a, h ++ e ∷ []))
  Keeps-event e p = record { at = λ h k. All-append P h _ k (p, tt) }

  pub Keeps-via : {A F : Type 0} (f : E → F) {m : Act S A E} → Keeps P m → Keeps P (via f m)
  unfolding via
  Keeps-via f k = record { at = λ h x. k.at h x }

  -- The rest may use that the lifted result was no error.
  pub Keeps-bind-lift :
      {A B : Type 0} (r : Result A E) (f : A → Act S B E)
      → ((a : A) → r ≡ ok a → Keeps P (f a))
      → Keeps P (lift r >>= f)
  unfolding lift ◌>>=◌
  Keeps-bind-lift (ok a) f k = k a refl
  Keeps-bind-lift (err e) f k = record { at = λ h x. x }

  then_with-All :
      {A B : Type 0} (r : Result A E × List (Event S)) (f : A → Act S B E)
      → All P r.1
      → ((a : A) → Keeps P (f a))
      → All P (then_with r f).1
  then_with-All (ok a, h) f x k = (k a).at h x
  then_with-All (err e, h) f x k = x

  pub Keeps-bind :
      {A B : Type 0} (m : Act S A E) (f : A → Act S B E)
      → Keeps P m
      → ((a : A) → Keeps P (f a))
      → Keeps P (m >>= f)
  unfolding ◌>>=◌
  Keeps-bind m f km kf = record { at = λ h x. then_with-All (m h) f (km.at h x) kf }
