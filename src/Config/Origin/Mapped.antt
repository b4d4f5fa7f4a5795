-- ===== src/Config/Origin/Mapped.antt =====
-- What `http_origin_from_ws` of src/config.rs makes of every gateway.

use Prim.Native.String
use text.Mathlib.TextLemmas.{nil-append, cons-append}
use nexus_client.Prelude.{
  ◌≡◌, ◌≢◌, sym, ap, ◌∙◌, inl, inr, true, Bool-cases, some, none, Option-cases, String, code, not,
}
use nexus_client.Text.{strip_prefix}
use nexus_client.Text.Affixes.{AllChars, Starts, strip_prefix-some, strip_prefix-none}
use nexus_client.Config.Origin.{
  ends_authority, authority_only, after_http, after_ws, http_origin_from_ws,
}

-- The schemes that are known, each with the HTTP scheme of its origin.
pub data Maps : String → String → Type 0 where
  wss : Maps "wss://" "https://"
  ws : Maps "ws://" "http://"
  http : Maps "http://" "http://"
  https : Maps "https://" "https://"

-- An authority, and what follows it: nothing, or a path, a query or a fragment.
pub record IsSplit (s authority rest : String) : Type 0 where
  pub whole : s ≡ String.◌++◌ authority rest
  pub inside : AllChars (λ c. not (ends_authority c)) authority
  pub stops : Starts ends_authority true rest

authority_only-IsSplit : (s : String) → (rest : String) × IsSplit s (authority_only s) rest
unfolding authority_only
authority_only-IsSplit String.[] =
    ("", record { whole = sym (nil-append ""); inside = tt; stops = tt })
authority_only-IsSplit (String.◌∷◌ c s) = elim (Bool-cases (ends_authority (code c))) [
  | inl ends ↦
      rw ends (String.◌∷◌ c s, record { whole = sym (nil-append _); inside = tt; stops = ends })
  | inr goes_on ↦
      let (rest, split) = authority_only-IsSplit s in
      rw goes_on (
        rest,
        record {
          whole = ap (String.◌∷◌ c) split.whole ∙ sym (cons-append c _ rest);
          inside = (ap not goes_on, split.inside);
          stops = split.stops;
        },
      )
]

-- The origin of a gateway.
pub data Origin (gateway : String) : String → Type 0 where
  mapped :
      {scheme http_scheme remainder authority rest : String}
      → Maps scheme http_scheme
      → gateway ≡ String.◌++◌ scheme remainder
      → IsSplit remainder authority rest
      → Origin gateway (String.◌++◌ http_scheme authority)
  unknown :
      ((scheme http_scheme : String)
        → Maps scheme http_scheme
        → (remainder : String) → gateway ≢ String.◌++◌ scheme remainder)
      → Origin gateway gateway

mapped_by :
    (gateway scheme http_scheme : String) {remainder : String}
    → Maps scheme http_scheme
    → strip_prefix scheme gateway ≡ some remainder
    → Origin gateway (String.◌++◌ http_scheme (authority_only remainder))
mapped_by gateway scheme http_scheme {remainder} m e =
    let (rest, split) = authority_only-IsSplit remainder in
    mapped m (strip_prefix-some scheme gateway e) split

unknown_by :
    (gateway : String)
    → strip_prefix "wss://" gateway ≡ none
    → strip_prefix "ws://" gateway ≡ none
    → strip_prefix "http://" gateway ≡ none
    → strip_prefix "https://" gateway ≡ none
    → (scheme http_scheme : String) → Maps scheme http_scheme
    → (remainder : String) → gateway ≢ String.◌++◌ scheme remainder
unknown_by gateway a b c d _ _ wss = strip_prefix-none "wss://" gateway a
unknown_by gateway a b c d _ _ ws = strip_prefix-none "ws://" gateway b
unknown_by gateway a b c d _ _ http = strip_prefix-none "http://" gateway c
unknown_by gateway a b c d _ _ https = strip_prefix-none "https://" gateway d

-- Every gateway has the origin that its form says: behind `wss://`, `ws://`, `http://` or `https://` the
-- authority alone is kept, up to the first `/`, `?` or `#`, behind `https://` for the secure two and
-- `http://` for the others; any other text is passed through.
pub http_origin_from_ws-Origin : (gateway : String) → Origin gateway (http_origin_from_ws gateway)
unfolding http_origin_from_ws after_ws after_http
http_origin_from_ws-Origin gateway = elim (Option-cases (strip_prefix "wss://" gateway)) [
  | inr (r, a) ↦ rw a (mapped_by gateway "wss://" "https://" wss a)
  | inl a ↦ rw a (elim (Option-cases (strip_prefix "ws://" gateway)) [
    | inr (r, b) ↦ rw b (mapped_by gateway "ws://" "http://" ws b)
    | inl b ↦ rw b (elim (Option-cases (strip_prefix "http://" gateway)) [
      | inr (r, c) ↦ rw c (mapped_by gateway "http://" "http://" http c)
      | inl c ↦ rw c (elim (Option-cases (strip_prefix "https://" gateway)) [
        | inr (r, d) ↦ rw d (mapped_by gateway "https://" "https://" https d)
        | inl d ↦ rw d (unknown (unknown_by gateway a b c d))
      ])
    ])
  ])
]
