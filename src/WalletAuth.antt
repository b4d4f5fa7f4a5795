-- ===== src/WalletAuth.antt =====
-- src/wallet_auth.rs: the sign-in with the wallet's key. The client is `reqwest::Client::new()`: a reply is the
-- last one behind the redirects that reqwest follows by itself, which are no events.
pub mod Trace
use Prim.Native.String
use nexus_client.Prelude.{
  ℕ, eqb, Option, List, [], ◌∷◌, String, Result, ok, err, ok_or, ok_and_then, if◌then◌else◌,
}
use nexus_client.Text.{trim_end_matches}
use nexus_client.Utf8.{as_bytes}
use nexus_client.External.Serde.{Serde, json}
use nexus_client.External.Crypto.{Base58}
use nexus_client.External.Solana.{Solana}
use nexus_client.External.Http.{Reply, failed, answer, is_success}
use nexus_client.Agenc.Net.{Event, Servers, Act, lift, post, record_signing, ◌>>=◌, ◌>>◌}

pub record Challenge : Type 0 where
  pub domain : String
  pub nonce : String
  pub issued_at : String
  pub chain_id : String
  pub statement : String

-- The errors, which the source gives as texts; the first field is `challenge` or `verify`.
pub data AuthError : Type 0 where
  request_failed : String → String → AuthError
  bad_status : String → ℕ → String → AuthError
  invalid_json : String → String → AuthError

-- serde_json's `from_str` at the two answers, the second by its token.
pub record Answers : Type 0 where
  pub challenge_from_str : String → Option Challenge
  pub token_from_str : String → Option String

infixr 6 ◌<>◌
abbrev pub ◌<>◌ : String → String → String
s <> t = String.◌++◌ s t

unfoldable pub build_siws_message : String → String → String → String → String → String → String
build_siws_message domain pubkey statement nonce issued_at chain_id =
    domain <> " wants you to sign in with your Solana account:\n" <> pubkey <> "\n\n" <> statement
    <> "\n\nURI: https://" <> domain <> "\nVersion: 1\nChain ID: " <> chain_id <> "\nNonce: "
    <> nonce <> "\nIssued At: " <> issued_at

-- The body of a successful answer.
unfoldable pub body_of : String → Reply → Result String AuthError
body_of step (failed e) = err (request_failed step e)
body_of step (answer status text) =
    if is_success status then ok text else err (bad_status step status text)

abbrev pub origin_of : String → String
origin_of gateway_http_origin = trim_end_matches (λ c. eqb c b'/') gateway_http_origin

abbrev pub challenge_url : String → String
challenge_url gateway_http_origin = origin_of gateway_http_origin <> "/api/auth/challenge"

abbrev pub verify_url : String → String
verify_url gateway_http_origin = origin_of gateway_http_origin <> "/api/auth/verify"

abbrev pub siws_of : String → Challenge → String
siws_of pubkey c = build_siws_message c.domain pubkey c.statement c.nonce c.issued_at c.chain_id

module _ (S : Serde) (C : Solana) (B : Base58) (J : Answers) (servers : Servers S) where
  abbrev pub verify_body : C.Keypair → String → S.Value
  verify_body wallet message = json S (
      ("message", S.string message)
      ∷ ("signature", S.string (B.encode (C.sign_message wallet (as_bytes message))))
      ∷ ("pubkey", S.string (C.pubkey wallet))
      ∷ [])

  abbrev pub challenge_of : Reply → Result Challenge AuthError
  challenge_of reply =
      ok_and_then (body_of "challenge" reply)
        λ text. ok_or (J.challenge_from_str text) (invalid_json "challenge" text)

  abbrev pub token_of : Reply → Result String AuthError
  token_of reply =
      ok_and_then (body_of "verify" reply)
        λ text. ok_or (J.token_from_str text) (invalid_json "verify" text)

  -- The first POST has no body, which the history keeps as null.
  unfoldable pub get_wallet_jwt : String → C.Keypair → Act S String AuthError
  get_wallet_jwt gateway_http_origin wallet = do
    reply ← post servers (challenge_url gateway_http_origin) S.null
    challenge ← lift (challenge_of reply)
    let message = siws_of (C.pubkey wallet) challenge
    _ ← record_signing (as_bytes message)
    reply' ← post servers (verify_url gateway_http_origin) (verify_body wallet message)
    lift (token_of reply')
