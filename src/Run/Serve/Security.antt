-- ===== src/Run/Serve/Security.antt =====
-- What one session signs and what it hands to the local model, whatever the gateway sends.
use mathlib.Core.List.{append-nil, append_assoc}
use nexus_client.Prelude.{
  ℕ, ◌≡◌, refl, sym, ap, ◌∙◌, ◌⊎◌, inl, inr, Bool, true, false, Option, some, List, [], ◌∷◌, ◌++◌,
  map, String, length, Result, ok, err, arith,
}
use nexus_client.External.Serde.{Serde}
use nexus_client.External.Crypto.{Base58, Ed25519}
use nexus_client.Limits.Nonce.{NonceError, validate_nonce, auth_message}
use nexus_client.Limits.Body.{sanitize_job_body}
use nexus_client.Limits.Laws.{validate_nonce_iff}
use nexus_client.Protocol.Frames.{ServerFrame, auth_text, parse}
use nexus_client.Config.Defaults.{Config}
use nexus_client.Run.Link.{closing, Peer, Link, send, send_text}
use nexus_client.Run.Job.{handle_job}
use nexus_client.Run.Job.Streaming.{handle_job-Transcript}
use nexus_client.Run.Reconnect.{SessionOutcome}
use nexus_client.Run.Serve.{
  text, close, Message, Wake, message, broken, signal, Awaited, got, over, await_challenge,
  await_ready, upstream_url, on_job_frame, on_message, job_loop, after_ready, after_auth,
  after_nonce, after_challenge, auth_frame, signing, serve, after_job,
}

-- The bytes of "nexus-compute-node-auth:v1\n".
abbrev pub domain_tag : List ℕ
domain_tag =
    110 ∷ 101 ∷ 120 ∷ 117 ∷ 115 ∷ 45 ∷ 99 ∷ 111 ∷ 109 ∷ 112 ∷ 117 ∷ 116 ∷ 101 ∷ 45 ∷ 110 ∷ 111 ∷ 100
    ∷ 101 ∷ 45 ∷ 97 ∷ 117 ∷ 116 ∷ 104 ∷ 58 ∷ 118 ∷ 49 ∷ 10 ∷ []

module _ (S : Serde) (peer : Peer S) (config : Config) where
  -- The POSTs of some job bodies: all to the configured server, all sanitized for the configured model.
  abbrev pub posts : List S.Value → List (String × S.Value)
  posts bodies = map (λ body. (upstream_url S config, sanitize_job_body S body config.model)) bodies

  -- From `l` to `l'` no signature was made, and only such POSTs.
  pub record Working (l l' : Link S) : Type 0 where
    pub bodies : List S.Value
    pub posted : l'.posted ≡ l.posted ++ posts bodies
    pub signed : l'.signed ≡ l.signed

  Working-same : (l l' : Link S) → l'.posted ≡ l.posted → l'.signed ≡ l.signed → Working l l'
  Working-same l l' p q = record { bodies = []; posted = p ∙ sym (append-nil l.posted); signed = q }

  Working-cons :
      {l l' l'' : Link S} (body : S.Value)
      → l'.posted ≡ l.posted ++ posts (body ∷ [])
      → l'.signed ≡ l.signed
      → Working l' l''
      → Working l l''
  Working-cons {l} body p q w = record {
    bodies = body ∷ w.bodies;
    posted =
        w.posted
        ∙ ap (λ xs. xs ++ posts w.bodies) p
        ∙ append_assoc l.posted (posts (body ∷ [])) (posts w.bodies);
    signed = w.signed ∙ q;
  }

  posted-send_text : (t : String) (l : Link S) → (send_text S peer t l).1.posted ≡ l.posted
  unfolding send_text
  posted-send_text t l = ground arith

  signed-send_text : (t : String) (l : Link S) → (send_text S peer t l).1.signed ≡ l.signed
  unfolding send_text
  signed-send_text t l = ground arith

  send-Working : (l : Link S) → Working l (send S peer closing l).1
  unfolding send
  send-Working l = Working-same l _ (ground arith) (ground arith)

  -- `rest` works on from wherever it is called.
  abbrev Works : (Link S → SessionOutcome × Link S) → Type 0
  Works rest = (l : Link S) → Working l (rest l).1

  after_job-Working :
      (r : Bool × Link S) (rest : Link S → SessionOutcome × Link S) (l : Link S) (body : S.Value)
      → r.1.posted ≡ l.posted ++ posts (body ∷ [])
      → r.1.signed ≡ l.signed
      → Works rest
      → Working l (after_job S peer config r rest).1
  after_job-Working (true, l') rest l body p q w = Working-cons body p q (w l')
  after_job-Working (false, l') rest l body p q w = record {
    bodies = body ∷ [];
    posted = p;
    signed = q;
  }

  on_job_frame-Working :
      (f : Option (ServerFrame S)) (l : Link S) (rest : Link S → SessionOutcome × Link S)
      → Works rest
      → Working l (on_job_frame S peer config f l rest).1
  unfolding on_job_frame
  on_job_frame-Working (some (ServerFrame.job job_id body)) l rest w =
      let t = handle_job-Transcript S peer job_id (upstream_url S config) config.model body l in
      after_job-Working (handle_job S peer job_id (upstream_url S config) config.model body l) rest
        l body t.posted t.signed w
  on_job_frame-Working _ l rest w = w l

  on_message-Working :
      (m : Message) (l : Link S) (rest : Link S → SessionOutcome × Link S)
      → Works rest
      → Working l (on_message S peer config m l rest).1
  unfolding on_message
  on_message-Working (text txt) l rest w = on_job_frame-Working (parse S txt) l rest w
  on_message-Working close l rest w = Working-same l l refl refl
  on_message-Working _ l rest w = w l

  job_loop-Working : (wakes : List Wake) → Works (job_loop S peer config wakes)
  unfolding job_loop
  job_loop-Working [] l = Working-same l l refl refl
  job_loop-Working (signal ∷ wakes) l = send-Working l
  job_loop-Working (broken ∷ wakes) l = Working-same l l refl refl
  job_loop-Working (message m ∷ wakes) l = on_message-Working m l _ (job_loop-Working wakes)

  after_ready-Working : (r : Awaited (Unit {0}) × List Wake) → Works (after_ready S peer config r)
  unfolding after_ready
  after_ready-Working (got _, wakes) l = job_loop-Working wakes l
  after_ready-Working (over outcome, wakes) l = Working-same l l refl refl

  after_auth-Working :
      (r : Bool × Link S) (wakes : List Wake) → Working r.1 (after_auth S peer config r wakes).1
  unfolding after_auth
  after_auth-Working (true, l) wakes = after_ready-Working (await_ready S wakes) l
  after_auth-Working (false, l) wakes = Working-same l l refl refl

  module _ (B : Base58) (E : Ed25519) (node_key : E.SigningKey) (wallet_pubkey : String) where
    -- What a session leaves: nothing at all, or one signature of the tagged message of a 32-byte nonce
    -- and then sanitized POSTs.
    abbrev pub Session : Link S → Link S → Type 0
    Session l l' =
        (l' ≡ l)
        ⊎ ((nonce : List ℕ) × (length nonce ≡ 32)
            × (l'.signed ≡ l.signed ++ (domain_tag ++ nonce) ∷ [])
            × ((bodies : List S.Value) × (l'.posted ≡ l.posted ++ posts bodies)))

    after_nonce-Session :
        (r : Result (List ℕ) NonceError) (wakes : List Wake) (l : Link S)
        → ((nonce : List ℕ) → r ≡ ok nonce → length nonce ≡ 32)
        → Session l (after_nonce S peer config B E node_key wallet_pubkey r wakes l).1
    unfolding after_nonce auth_message
    after_nonce-Session (err e) wakes l h = inl refl
    after_nonce-Session (ok nonce) wakes l h =
        let msg = auth_message nonce in
        let t = auth_text S (auth_frame S peer config B E node_key wallet_pubkey msg) in
        let l' = signing S peer config B E node_key wallet_pubkey msg l in
        let w = after_auth-Working (send_text S peer t l') wakes in
        inr (
          nonce,
          h nonce refl,
          w.signed ∙ signed-send_text t l',
          (w.bodies, w.posted ∙ ap (λ xs. xs ++ posts w.bodies) (posted-send_text t l')),
        )

    after_challenge-Session :
        (r : Awaited String × List Wake) (l : Link S)
        → Session l (after_challenge S peer config B E node_key wallet_pubkey r l).1
    unfolding after_challenge
    after_challenge-Session (over outcome, wakes) l = inl refl
    after_challenge-Session (got nonce, wakes) l =
        after_nonce-Session (validate_nonce B nonce) wakes l
          (λ bytes e. ((validate_nonce_iff B nonce bytes).0 e).2)

    -- Whatever the gateway sends and whenever it does, a session either writes, signs and posts nothing, or
    -- signs exactly one message, the domain tag followed by a 32-byte nonce, and posts only to the
    -- configured server, only bodies sanitized for the configured model.
    pub serve-Session :
        (wakes : List Wake) (l : Link S)
        → Session l (serve S peer config B E node_key wallet_pubkey wakes l).1
    unfolding serve
    serve-Session wakes l = after_challenge-Session (await_challenge S wakes) l
