-- ===== src/WalletAuth/Trace.antt =====
-- What the sign-in of src/wallet_auth.rs posts and signs.
use nexus_client.Prelude.{
  ℕ, ◌≡◌, refl, sym, subst, true, inl, inr, Bool-cases, Option, none, some, List, [], ◌∷◌, ◌++◌,
  String, Result, ok, err, ok_or, ok_and_then, eqb,
}
use nexus_client.Text.{trim_end_matches}
use nexus_client.Utf8.{as_bytes}
use nexus_client.External.Serde.{Serde, json}
use nexus_client.External.Crypto.{Base58}
use nexus_client.External.Solana.{Solana}
use nexus_client.External.Http.{
  Reply, failed, answer, is_success, Reads, is_success_bounds, is_success_of_bounds,
}
use nexus_client.Agenc.Net.{Event, posted, signed, Servers, post, record_signing, lift, ◌>>=◌}
use nexus_client.WalletAuth.{
  ◌<>◌, Challenge, AuthError, invalid_json, Answers, build_siws_message, body_of, get_wallet_jwt,
}

-- The answer of a step, parsed.
abbrev parsed : {A : Type 0} → (String → Option A) → String → Reply → Result A AuthError
parsed from_str step reply =
    ok_and_then (body_of step reply) λ text. ok_or (from_str text) (invalid_json step text)

-- It is a value exactly where the reply is a success whose text parses to it.
abbrev Parses : {A : Type 0} → (String → Option A) → Reply → Result A AuthError → Type 0
Parses from_str reply (ok a) = Reads from_str reply a
Parses {A} from_str reply (err e) = (a : A) → ¬ Reads from_str reply a

text-Parses :
    {A : Type 0} (from_str : String → Option A) (step : String) (status : ℕ) (text : String)
    (o : Option A)
    → is_success status ≡ true
    → from_str text ≡ o
    → Parses from_str (answer status text) (ok_or o (invalid_json step text))
text-Parses from_str step status text (some a) good e =
    let (low, high) = is_success_bounds status good in (text, (status, refl, low, high), e)
text-Parses from_str step status text none good e = λ a (t, (s, same, low, high), said).
    let w : text ≡ t = cc in let x : from_str t ≡ none = subst (λ y. from_str y ≡ none) w e in cc

parsed-Parses :
    {A : Type 0} (from_str : String → Option A) (step : String) (reply : Reply)
    → Parses from_str reply (parsed from_str step reply)
unfolding body_of
parsed-Parses from_str step (failed e) = λ a (t, (s, same, low, high), said). cc
parsed-Parses from_str step (answer status text) = elim (Bool-cases (is_success status)) [
  | inl good ↦ rw good (text-Parses from_str step status text (from_str text) good refl)
  | inr bad ↦ rw bad (λ a (t, (s, same, low, high), said).
      let w : status ≡ s = cc in
      let x : is_success status ≡ true =
        subst (λ n. is_success n ≡ true) (sym w) (is_success_of_bounds s low high) in
      cc)
]

-- A path at the gateway, whose URL may end in slashes.
abbrev pub at_gateway : String → String → String
at_gateway origin path = trim_end_matches (λ c. eqb c b'/') origin <> path

-- The text to sign, of the challenge's fields and the wallet's address.
abbrev pub sign_in_text : String → Challenge → String
sign_in_text address c =
    c.domain <> " wants you to sign in with your Solana account:\n" <> address <> "\n\n"
    <> c.statement <> "\n\nURI: https://" <> c.domain <> "\nVersion: 1\nChain ID: " <> c.chain_id
    <> "\nNonce: " <> c.nonce <> "\nIssued At: " <> c.issued_at

module _ (S : Serde) (C : Solana) (B : Base58) (J : Answers) (servers : Servers S) where
  module _ (origin : String) (wallet : C.Keypair) (h : List (Event S)) where
    abbrev pub asked : List (Event S)
    asked = h ++ posted (at_gateway origin "/api/auth/challenge") S.null ∷ []

    -- After the challenge: one signature, of this text, and the POST of the text with it.
    abbrev pub verified : Challenge → List (Event S)
    verified c =
        (asked ++ signed (as_bytes (sign_in_text (C.pubkey wallet) c)) ∷ [])
        ++ posted (at_gateway origin "/api/auth/verify") (
            json S (
              ("message", S.string (sign_in_text (C.pubkey wallet) c))
              ∷ (
                "signature",
                S.string (
                    B.encode (C.sign_message wallet (as_bytes (sign_in_text (C.pubkey wallet) c)))),
              )
              ∷ ("pubkey", S.string (C.pubkey wallet))
              ∷ []))
          ∷ []

    -- Where the answer is no challenge, nothing more is done; else the challenge's text is signed once and
    -- posted, and the second answer decides.
    pub data SignIn : Result String AuthError × List (Event S) → Type 0 where
      unchallenged :
          (e : AuthError)
          → ((c : Challenge) → ¬ Reads J.challenge_from_str (servers asked) c)
          → SignIn (err e, asked)
      refused :
          (c : Challenge) (e : AuthError)
          → Reads J.challenge_from_str (servers asked) c
          → ((jwt : String) → ¬ Reads J.token_from_str (servers (verified c)) jwt)
          → SignIn (err e, verified c)
      accepted :
          (c : Challenge) (jwt : String)
          → Reads J.challenge_from_str (servers asked) c
          → Reads J.token_from_str (servers (verified c)) jwt
          → SignIn (ok jwt, verified c)

    token-SignIn :
        (c : Challenge) (r : Result String AuthError)
        → Reads J.challenge_from_str (servers asked) c
        → Parses J.token_from_str (servers (verified c)) r
        → SignIn (r, verified c)
    token-SignIn c (ok jwt) p q = accepted c jwt p q
    token-SignIn c (err e) p q = refused c e p q

    -- What the source does with the challenge.
    rest-SignIn :
        (r : Result Challenge AuthError)
        → Parses J.challenge_from_str (servers asked) r
        → SignIn (
            (lift r >>= λ c. record_signing (as_bytes (sign_in_text (C.pubkey wallet) c)) >>= λ _.
            post servers (at_gateway origin "/api/auth/verify") (
              json S (
                ("message", S.string (sign_in_text (C.pubkey wallet) c))
                ∷ (
                  "signature",
                  S.string (
                      B.encode
                        (C.sign_message wallet (as_bytes (sign_in_text (C.pubkey wallet) c)))),
                )
                ∷ ("pubkey", S.string (C.pubkey wallet))
                ∷ []))
            >>= λ reply. lift (parsed J.token_from_str "verify" reply))
              asked)
    unfolding ◌>>=◌ lift record_signing post
    rest-SignIn (ok c) p =
        token-SignIn c _ p (parsed-Parses J.token_from_str "verify" (servers (verified c)))
    rest-SignIn (err e) p = unchallenged e p

  -- For every gateway, the sign-in first asks for a challenge. Unless the answer is a success that parses as
  -- one, it fails and signs and posts nothing more. Else it signs exactly one message, the text of that
  -- challenge's fields and the wallet's own address, and posts this text with its signature and the address;
  -- and it gives the token of the second answer exactly where that is a success that parses to it. What is
  -- posted is what the HTTP client is asked to post, before any redirect that it follows itself.
  pub get_wallet_jwt-SignIn :
      (origin : String) (wallet : C.Keypair) (h : List (Event S))
      → SignIn origin wallet h (get_wallet_jwt S C B J servers origin wallet h)
  unfolding get_wallet_jwt build_siws_message ◌>>=◌ post
  get_wallet_jwt-SignIn origin wallet h =
      rest-SignIn origin wallet h _
        (parsed-Parses J.challenge_from_str "challenge" (servers (asked origin wallet h)))
