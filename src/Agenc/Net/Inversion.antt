-- ===== src/Agenc/Net/Inversion.antt =====
-- What the steps of an action that succeeds have done.
use nexus_client.Prelude.{ℕ, List, [], ◌∷◌, ◌++◌, String, sym, ◌≡◌, refl, Result, ok, err}
use nexus_client.External.Serde.{Serde}
use nexus_client.External.Http.{Reply}
use nexus_client.Agenc.Net.{
  Event, posted, fetched, signed, bearing, Servers, post, fetch, post_as, record_signing, Act,
  ◌>>=◌, then_with, lift, pure, with_error, via,
}

module _ {S : Serde} {E : Type 0} where
  then_with-eq-ok :
      {A B : Type 0} (r : Result A E × List (Event S)) (f : A → Act S B E) {b : B}
      {h' : List (Event S)}
      → then_with r f ≡ (ok b, h')
      → (a : A) × (h1 : List (Event S)) × (r ≡ (ok a, h1)) × (f a h1 ≡ (ok b, h'))
  then_with-eq-ok (ok a, h) f e = (a, h, refl, e)
  then_with-eq-ok (err x, h) f e = cc

  -- The first step succeeded, and so did the second where the first ended.
  pub bind-eq-ok :
      {A B : Type 0} (m : Act S A E) (f : A → Act S B E) (h : List (Event S)) {b : B}
      {h' : List (Event S)}
      → (m >>= f) h ≡ (ok b, h')
      → (a : A) × (h1 : List (Event S)) × (m h ≡ (ok a, h1)) × (f a h1 ≡ (ok b, h'))
  unfolding ◌>>=◌
  bind-eq-ok m f h e = then_with-eq-ok (m h) f e

  pub lift-eq-ok :
      {A : Type 0} (r : Result A E) (h : List (Event S)) {a : A} {h' : List (Event S)}
      → lift r h ≡ (ok a, h')
      → (r ≡ ok a) × (h ≡ h')
  unfolding lift
  lift-eq-ok r h e = (cc, cc)

  with_error-eq-ok :
      {A F : Type 0} (f : F → E) (r : Result A F × List (Event S)) {a : A} {h' : List (Event S)}
      → with_error f r ≡ (ok a, h')
      → r ≡ (ok a, h')
  with_error-eq-ok f (ok a, h) e = cc
  with_error-eq-ok f (err x, h) e = cc

  pub via-eq-ok :
      {A F : Type 0} (f : F → E) (m : Act S A F) (h : List (Event S)) {a : A} {h' : List (Event S)}
      → via f m h ≡ (ok a, h')
      → m h ≡ (ok a, h')
  unfolding via
  via-eq-ok f m h e = with_error-eq-ok f (m h) e

  pub pure-eq-ok :
      {A : Type 0} (b : A) (h : List (Event S)) {a : A} {h' : List (Event S)}
      → pure {E = E} b h ≡ (ok a, h')
      → (b ≡ a) × (h ≡ h')
  unfolding pure
  pure-eq-ok b h e = (cc, cc)

  pub post_as-eq-ok :
      (servers : Servers S) (token url : String) (body : S.Value) (h : List (Event S))
      {reply : Reply} {h' : List (Event S)}
      → post_as {E = E} servers token url body h ≡ (ok reply, h')
      → (h' ≡ h ++ bearing token (posted url body) ∷ []) × (servers h' ≡ reply)
  unfolding post_as
  post_as-eq-ok servers token url body h {reply} {h'} e =
      let here : h ++ bearing token (posted url body) ∷ [] ≡ h' = cc in (sym here, cc)

  pub post-eq-ok :
      (servers : Servers S) (url : String) (body : S.Value) (h : List (Event S)) {reply : Reply}
      {h' : List (Event S)}
      → post {E = E} servers url body h ≡ (ok reply, h')
      → (h' ≡ h ++ posted url body ∷ []) × (servers h' ≡ reply)
  unfolding post
  post-eq-ok servers url body h {reply} {h'} e =
      let here : h ++ posted url body ∷ [] ≡ h' = cc in (sym here, cc)

  pub fetch-eq-ok :
      (servers : Servers S) (url : String) (h : List (Event S)) {reply : Reply}
      {h' : List (Event S)}
      → fetch {E = E} servers url h ≡ (ok reply, h')
      → (h' ≡ h ++ fetched url ∷ []) × (servers h' ≡ reply)
  unfolding fetch
  fetch-eq-ok servers url h {reply} {h'} e =
      let here : h ++ fetched url ∷ [] ≡ h' = cc in (sym here, cc)

  pub record_signing-eq-ok :
      (bytes : List ℕ) (h : List (Event S)) {a : Unit {0}} {h' : List (Event S)}
      → record_signing {E = E} bytes h ≡ (ok a, h')
      → h' ≡ h ++ signed bytes ∷ []
  unfolding record_signing
  record_signing-eq-ok bytes h {a} {h'} e = let here : h ++ signed bytes ∷ [] ≡ h' = cc in sym here
