-- ===== src/Run/Serve/Outcomes.antt =====
-- Why a session ends as it does.
use nexus_client.Prelude.{
  ◌≡◌, refl, ◌⊎◌, inl, inr, Bool, true, false, Option, some, List, [], ◌∷◌, String, Result, ok, err,
  ℕ,
}
use nexus_client.External.Serde.{Serde}
use nexus_client.External.Crypto.{Base58, Ed25519}
use nexus_client.Limits.Nonce.{NonceError, validate_nonce}
use nexus_client.Protocol.Frames.{ServerFrame, parse}
use nexus_client.Config.Defaults.{Config}
use nexus_client.Run.Link.{Peer, Link}
use nexus_client.Run.Reconnect.{SessionOutcome, disconnected, rejected, shutdown}
use nexus_client.Run.Serve.{
  text, close, Message, Wake, message, broken, signal, Awaited, got, over, await_challenge,
  await_ready, on_job_frame, on_message, job_loop, after_ready, after_auth, after_nonce,
  after_challenge, serve, after_job, on_challenge_frame, on_ready_frame,
}

module _ (S : Serde) where
  -- The gateway said `rejected` with this reason; ctrl-c was pressed.
  abbrev pub Heard : String → List Wake → Type 0
  Heard reason [] = ⊥
  Heard reason (w ∷ wakes) =
      ((txt : String) × (w ≡ message (text txt))
        × (parse S txt ≡ some (ServerFrame.rejected reason)))
      ⊎ Heard reason wakes

  abbrev pub Pressed : List Wake → Type 0
  Pressed [] = ⊥
  Pressed (w ∷ wakes) = (w ≡ signal) ⊎ Pressed wakes

  abbrev pub Explained : SessionOutcome → List Wake → Type 0
  Explained disconnected wakes = Unit
  Explained (rejected reason) wakes = Heard reason wakes
  Explained shutdown wakes = Pressed wakes

  Explained-cons :
      (o : SessionOutcome) (w : Wake) (wakes : List Wake)
      → Explained o wakes
      → Explained o (w ∷ wakes)
  Explained-cons disconnected w wakes h = tt
  Explained-cons (rejected reason) w wakes h = inr h
  Explained-cons shutdown w wakes h = inr h

  -- A handshake loop ended with an explained outcome, or what explains the rest explains the whole.
  abbrev Waited : {A : Type 0} → List Wake → Awaited A × List Wake → Type 0
  Waited wakes (got _, rest) = (o : SessionOutcome) → Explained o rest → Explained o wakes
  Waited wakes (over o, rest) = Explained o wakes

  Waited-cons :
      {A : Type 0} (w : Wake) (wakes : List Wake) (r : Awaited A × List Wake)
      → Waited wakes r
      → Waited (w ∷ wakes) r
  Waited-cons w wakes (got _, rest) h = λ o e. Explained-cons o w wakes (h o e)
  Waited-cons w wakes (over o, rest) h = Explained-cons o w wakes h

  on_challenge_frame-Waited :
      (txt : String) (f : Option (ServerFrame S)) (wakes : List Wake)
      (rest : Awaited String × List Wake)
      → parse S txt ≡ f
      → Waited wakes rest
      → Waited (message (text txt) ∷ wakes) (on_challenge_frame S f wakes rest)
  on_challenge_frame-Waited txt (some (ServerFrame.challenge nonce)) wakes rest e h =
      λ o x. Explained-cons o _ wakes x
  on_challenge_frame-Waited txt (some (ServerFrame.rejected reason)) wakes rest e h =
      inl (txt, refl, e)
  on_challenge_frame-Waited txt _ wakes rest e h = Waited-cons _ wakes rest h

  await_challenge-Waited : (wakes : List Wake) → Waited wakes (await_challenge S wakes)
  unfolding await_challenge
  await_challenge-Waited [] = tt
  await_challenge-Waited (broken ∷ wakes) = tt
  await_challenge-Waited (message (text txt) ∷ wakes) =
      on_challenge_frame-Waited txt (parse S txt) wakes (await_challenge S wakes) refl
        (await_challenge-Waited wakes)
  await_challenge-Waited (w ∷ wakes) =
      Waited-cons _ wakes (await_challenge S wakes) (await_challenge-Waited wakes)

  on_ready_frame-Waited :
      (txt : String) (f : Option (ServerFrame S)) (wakes : List Wake)
      (rest : Awaited (Unit {0}) × List Wake)
      → parse S txt ≡ f
      → Waited wakes rest
      → Waited (message (text txt) ∷ wakes) (on_ready_frame S f wakes rest)
  on_ready_frame-Waited txt (some ServerFrame.ready) wakes rest e h =
      λ o x. Explained-cons o _ wakes x
  on_ready_frame-Waited txt (some (ServerFrame.rejected reason)) wakes rest e h = inl (txt, refl, e)
  on_ready_frame-Waited txt _ wakes rest e h = Waited-cons _ wakes rest h

  await_ready-Waited : (wakes : List Wake) → Waited wakes (await_ready S wakes)
  unfolding await_ready
  await_ready-Waited [] = tt
  await_ready-Waited (broken ∷ wakes) = tt
  await_ready-Waited (message (text txt) ∷ wakes) =
      on_ready_frame-Waited txt (parse S txt) wakes (await_ready S wakes) refl
        (await_ready-Waited wakes)
  await_ready-Waited (w ∷ wakes) =
      Waited-cons _ wakes (await_ready S wakes) (await_ready-Waited wakes)

  module _ (peer : Peer S) (config : Config) where
    abbrev Explains : (Link S → SessionOutcome × Link S) → List Wake → Type 0
    Explains rest wakes = (l : Link S) → Explained (rest l).0 wakes

    after_job-Explained :
        (r : Bool × Link S) (rest : Link S → SessionOutcome × Link S) (wakes : List Wake)
        → Explains rest wakes
        → Explained (after_job S peer config r rest).0 wakes
    after_job-Explained (true, l) rest wakes h = h l
    after_job-Explained (false, l) rest wakes h = tt

    on_job_frame-Explained :
        (f : Option (ServerFrame S)) (rest : Link S → SessionOutcome × Link S) (wakes : List Wake)
        → Explains rest wakes
        → Explains (λ l. on_job_frame S peer config f l rest) wakes
    unfolding on_job_frame
    on_job_frame-Explained (some (ServerFrame.job job_id body)) rest wakes h l =
        after_job-Explained _ rest wakes h
    on_job_frame-Explained _ rest wakes h l = h l

    on_message-Explained :
        (m : Message) (rest : Link S → SessionOutcome × Link S) (wakes : List Wake)
        → Explains rest wakes
        → Explains (λ l. on_message S peer config m l rest) wakes
    unfolding on_message
    on_message-Explained (text txt) rest wakes h l =
        on_job_frame-Explained (parse S txt) rest wakes h l
    on_message-Explained close rest wakes h l = tt
    on_message-Explained _ rest wakes h l = h l

    job_loop-Explained : (wakes : List Wake) → Explains (job_loop S peer config wakes) wakes
    unfolding job_loop
    job_loop-Explained [] l = tt
    job_loop-Explained (signal ∷ wakes) l = inl refl
    job_loop-Explained (broken ∷ wakes) l = tt
    job_loop-Explained (message m ∷ wakes) l =
        Explained-cons _ _ wakes (on_message-Explained m _ wakes (job_loop-Explained wakes) l)

    after_ready-Explained :
        (wakes : List Wake) (r : Awaited (Unit {0}) × List Wake)
        → Waited wakes r
        → Explains (after_ready S peer config r) wakes
    unfolding after_ready
    after_ready-Explained wakes (got _, rest) h l = h _ (job_loop-Explained rest l)
    after_ready-Explained wakes (over o, rest) h l = h

    after_auth-Explained :
        (r : Bool × Link S) (wakes : List Wake)
        → Explained (after_auth S peer config r wakes).0 wakes
    unfolding after_auth
    after_auth-Explained (true, l) wakes =
        after_ready-Explained wakes (await_ready S wakes) (await_ready-Waited wakes) l
    after_auth-Explained (false, l) wakes = tt

    module _ (B : Base58) (E : Ed25519) (node_key : E.SigningKey) (wallet_pubkey : String) where
      after_nonce-Explained :
          (r : Result (List ℕ) NonceError) (wakes : List Wake) (l : Link S)
          → Explained (after_nonce S peer config B E node_key wallet_pubkey r wakes l).0 wakes
      unfolding after_nonce
      after_nonce-Explained (err e) wakes l = tt
      after_nonce-Explained (ok nonce) wakes l = after_auth-Explained _ wakes

      after_challenge-Explained :
          (wakes : List Wake) (r : Awaited String × List Wake) (l : Link S)
          → Waited wakes r
          → Explained (after_challenge S peer config B E node_key wallet_pubkey r l).0 wakes
      unfolding after_challenge
      after_challenge-Explained wakes (over o, rest) l h = h
      after_challenge-Explained wakes (got nonce, rest) l h =
          h _ (after_nonce-Explained (validate_nonce B nonce) rest l)

      -- A session is `Rejected` only with a reason that the gateway sent in a `rejected` frame, and
      -- `Shutdown` only if ctrl-c was pressed.
      pub serve-Explained :
          (wakes : List Wake) (l : Link S)
          → Explained (serve S peer config B E node_key wallet_pubkey wakes l).0 wakes
      unfolding serve
      serve-Explained wakes l =
          after_challenge-Explained wakes (await_challenge S wakes) l (await_challenge-Waited wakes)
