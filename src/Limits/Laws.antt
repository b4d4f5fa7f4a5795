-- ===== src/Limits/Laws.antt =====
-- What the checks of src/limits.rs guarantee.
use nexus_client.Prelude.{
  ℕ, ◌≡◌, ◌≤◌, ◌↔◌, List, [], ◌∷◌, Option, none, some, String, len, length, eq_iff, true, false,
  contains, lookup, IsNodup, Bool-cases, Option-cases, inl, inr, ok, arith, ◌==◌, if◌then◌else◌, ap,
  Bool, min, and_then, unwrap_or,
}
use mathlib.Core.Option
use nexus_client.External.Serde.{Serde}
use nexus_client.External.Crypto.{Base58}
use nexus_client.Limits.Nonce.{max_nonce_chars, nonce_bytes, validate_nonce}
use nexus_client.Limits.Body.{
  allowed_body_keys, max_output_tokens, keep_allowed, kept, clamp, sanitize_job_body,
}

-- `validate_nonce` accepts exactly the texts of at most 64 bytes that decode to 32 bytes, and
-- returns those bytes.
pub validate_nonce_iff :
    (b : Base58) (b58 : String) (bytes : List ℕ)
    → (validate_nonce b b58 ≡ ok bytes)
      ↔ ((len b58 ≤ max_nonce_chars) × (b.decode b58 ≡ some bytes) × (length bytes ≡ nonce_bytes))
unfolding validate_nonce
validate_nonce_iff b b58 bytes = ground arith

-- A key's value after the loop: the listed one where the key is permitted, else the earlier one.
abbrev overlay {ℓ} : {V : Type ℓ} → Bool → Option V → Option V → Option V
overlay true (some v) old = some v
overlay true none old = old
overlay false _ old = old

module _ (S : Serde) where
  open S use {
    Value, Map, map_new, map_insert, map_get, map_get-insert, map_get-new, entries, lookup-entries,
    entries-IsNodup, get, get-object, get_of_not_object, object_of_as_object, as_object, uint,
    string, bool, as_u64-uint,
  }

  map_get-keep_allowed :
      (es : List (String × Value)) (out : Map) (k : String)
      → IsNodup es
      → map_get (keep_allowed S out es) k
        ≡ overlay (contains allowed_body_keys k) (lookup k es) (map_get out k)
  unfolding keep_allowed
  map_get-keep_allowed [] out k h = ground arith
  map_get-keep_allowed ((j, v) ∷ es) out k (fresh, h) = elim (Bool-cases (j == k)) [
    | inl same ↦
        let e : j ≡ k = (eq_iff j k).0 same in
        ground (
          arith,
          ap (λ x. lookup x es) e,
          ap (contains allowed_body_keys) e,
          map_get-keep_allowed es out k h,
          map_get-keep_allowed es (map_insert out j v) k h,
          map_get-insert out j k v,
        )
    | inr other ↦ ground (
      arith,
      map_get-keep_allowed es out k h,
      map_get-keep_allowed es (map_insert out j v) k h,
      map_get-insert out j k v,
    )
  ]

  map_get-kept :
      (raw : Value) (k : String)
      → map_get (kept S (as_object raw)) k
        ≡ (if contains allowed_body_keys k then get raw k else none)
  map_get-kept raw k = elim (Option-cases (as_object raw)) [
    | inl other ↦ rw other (ground (arith, map_get-new k, get_of_not_object raw k other))
    | inr (m, e) ↦ rw e (
        ground (
          arith,
          ap (λ v. get v k) (object_of_as_object raw m e),
          get-object m k,
          lookup-entries m k,
          map_get-new k,
          map_get-keep_allowed (entries m) map_new k (entries-IsNodup m),
        ))
  ]

  -- What the local model is sent for each key, whatever the gateway sent: `stream` is true, `model`
  -- is the configured one, `max_tokens` is the requested number clamped to the ceiling (the ceiling
  -- where none was requested), every other permitted key is passed on unchanged, and every key that
  -- is not permitted is absent.
  pub get-sanitize_job_body :
      (raw : Value) (model k : String)
      → get (sanitize_job_body S raw model) k ≡ (
          if "stream" == k
          then some (bool true)
          else if "model" == k
          then some (string model)
          else if "max_tokens" == k
          then some (
              uint (
                unwrap_or
                  (Option.map (λ n. min n 8192) (and_then (get raw "max_tokens") S.as_u64))
                  8192))
          else if contains allowed_body_keys k
          then get raw k
          else none)
  unfolding sanitize_job_body contains
  get-sanitize_job_body raw model k = simp (get-object, map_get-insert, map_get-kept)

  -- The ceiling holds for whatever number, or other value, the gateway asked for.
  pub clamp-le : (requested : Option Value) → clamp S requested ≤ max_output_tokens
  clamp-le requested = ground arith

  clamp_again :
      (requested : Option Value) → clamp S (some (uint (clamp S requested))) ≡ clamp S requested
  clamp_again requested =
      let bound = clamp-le requested in
      ground (arith, as_u64-uint (clamp S requested) (omega arith))

  get-sanitize_max_tokens :
      (raw : Value) (model : String)
      → get (sanitize_job_body S raw model) "max_tokens"
        ≡ some (uint (clamp S (get raw "max_tokens")))
  get-sanitize_max_tokens raw model = get-sanitize_job_body raw model "max_tokens"

  -- Sanitizing a second time changes no key.
  sanitize_idempotent :
      (raw : Value) (model k : String)
      → get (sanitize_job_body S (sanitize_job_body S raw model) model) k
        ≡ get (sanitize_job_body S raw model) k
  sanitize_idempotent raw model k = ground (
    arith,
    get-sanitize_job_body raw model k,
    get-sanitize_job_body (sanitize_job_body S raw model) model k,
    ap (clamp S) (get-sanitize_max_tokens raw model),
    clamp_again (get raw "max_tokens"),
  )
