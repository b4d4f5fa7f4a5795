-- ===== src/Agenc/Builder/Calls.antt =====
-- What one call of a tool leaves.
use nexus_client.Prelude.{
  List, [], ◌∷◌, ◌++◌, ◌≡◌, refl, String, Result, ok, err, map_err, All, All-append,
}
use nexus_client.External.Serde.{Serde}
use nexus_client.Agenc.Net.{Event, called, Mcp, Act, then_with, Keeps, ◌>>=◌}
use nexus_client.Agenc.Net.Ensures.{Ensures, Outcome}
use nexus_client.Agenc.Builder.{BuilderError, tool_failed, call}

module _ (S : Serde) (Q : S.Value → List (Event S) → Type 0)
    (R : BuilderError → List (Event S) → Type 0) where
  map_err-Outcome :
      (name : String) (r : Result S.Value String) (h : List (Event S))
      → ((v : S.Value) → r ≡ ok v → Q v h)
      → ((e : String) → R (tool_failed name e) h)
      → Outcome Q R (map_err (tool_failed name) r, h)
  map_err-Outcome name (ok v) h k j = k v refl
  map_err-Outcome name (err e) h k j = j e

module _ (S : Serde) (mcp : Mcp S) {P : List (Event S) → Type 0}
    {Q : S.Value → List (Event S) → Type 0} {R : BuilderError → List (Event S) → Type 0} where
  pub call-Ensures :
      (name : String) (args : S.Value)
      → ((h : List (Event S)) (v : S.Value)
          → P h
          → mcp (h ++ called name args ∷ []) ≡ ok v
          → Q v (h ++ called name args ∷ []))
      → ((h : List (Event S)) (e : String)
          → P h
          → R (tool_failed name e) (h ++ called name args ∷ []))
      → Ensures P (call S mcp name args) Q R
  unfolding call
  call-Ensures name args k j = record {
    at = λ h p.
        let h' = h ++ called name args ∷ [] in
        map_err-Outcome S Q R name (mcp h') h' (λ v e. k h v p e) (λ e. j h e p);
  }

module _ (S : Serde) (mcp : Mcp S) {P : Event S → Type 0} where
  map_err-All :
      {B : Type 0} (name : String) (r : Result S.Value String) (h : List (Event S))
      (f : S.Value → Act S B BuilderError)
      → mcp h ≡ r
      → All P h
      → ((v : S.Value) (h' : List (Event S)) → mcp h' ≡ ok v → Keeps P (f v))
      → All P (then_with (map_err (tool_failed name) r, h) f).1
  map_err-All name (ok v) h f a x k = (k v h a).at h x
  map_err-All name (err e) h f a x k = x

  -- The rest may use what the tool answered.
  pub Keeps-bind-call :
      {B : Type 0} (name : String) (args : S.Value) (f : S.Value → Act S B BuilderError)
      → P (called name args)
      → ((v : S.Value) (h : List (Event S)) → mcp h ≡ ok v → Keeps P (f v))
      → Keeps P (call S mcp name args >>= f)
  unfolding call ◌>>=◌
  Keeps-bind-call name args f p k = record {
    at = λ h x.
        let h' = h ++ called name args ∷ [] in
        map_err-All name (mcp h') h' f refl (All-append P h _ x (p, tt)) k;
  }

  pub Keeps-call :
      (name : String) (args : S.Value) → P (called name args) → Keeps P (call S mcp name args)
  unfolding call
  Keeps-call name args p = record { at = λ h x. All-append P h _ x (p, tt) }
