-- ===== src/Run/Serve.antt =====
-- src/run.rs: `serve` and `run`.
pub mod Security
pub mod Outcomes
use Prim.Native.String
use nexus_client.Prelude.{
  ℕ, Bool, true, false, Option, none, some, List, [], ◌∷◌, ◌++◌, String, eqb, Result, ok, err,
  unwrap_or,
}
use nexus_client.Text.{trim_end_matches}
use nexus_client.External.Serde.{Serde}
use nexus_client.External.Crypto.{Base58, Ed25519}
use nexus_client.Limits.Nonce.{NonceError, validate_nonce, auth_message}
use nexus_client.Protocol.Frames.{AuthFrame, auth_text, ServerFrame, parse}
use nexus_client.Config.Defaults.{Config}
use nexus_client.Run.Link.{closing, Peer, Link, send, send_text}
use nexus_client.Run.Job.{handle_job}
use nexus_client.Run.Reconnect.{SessionOutcome, disconnected, rejected, shutdown, reconnect_loop}

-- tungstenite's `Message`, as far as the program tells them apart
pub data Message : Type 0 where
  text : String → Message
  close : Message
  ping : Message
  binary_or_pong : Message

-- What the session waits on, in the order of arrival: a message, a transport error, or ctrl-c. The end
-- of the list is the end of the stream.
pub data Wake : Type 0 where
  message : Message → Wake
  broken : Wake
  signal : Wake

-- A handshake loop's end: what was awaited, or the session's outcome.
pub data Awaited (A : Type 0) : Type 0 where
  got : A → Awaited A
  over : SessionOutcome → Awaited A

module _ (S : Serde) where
  abbrev on_challenge_frame :
      Option (ServerFrame S) → List Wake → Awaited String × List Wake → Awaited String × List Wake
  on_challenge_frame (some (ServerFrame.challenge nonce)) wakes rest = (got nonce, wakes)
  on_challenge_frame (some (ServerFrame.rejected reason)) wakes rest =
      (over (rejected reason), wakes)
  on_challenge_frame _ wakes rest = rest

  -- The first loop of `serve`. Nothing there polls the signal.
  await_challenge : List Wake → Awaited String × List Wake
  await_challenge [] = (over disconnected, [])
  await_challenge (broken ∷ wakes) = (over disconnected, wakes)
  await_challenge (message (text txt) ∷ wakes) =
      on_challenge_frame (parse S txt) wakes (await_challenge wakes)
  await_challenge (_ ∷ wakes) = await_challenge wakes

  abbrev on_ready_frame :
      Option (ServerFrame S)
      → List Wake
      → Awaited (Unit {0}) × List Wake
      → Awaited (Unit {0}) × List Wake
  on_ready_frame (some ServerFrame.ready) wakes rest = (got tt, wakes)
  on_ready_frame (some (ServerFrame.rejected reason)) wakes rest = (over (rejected reason), wakes)
  on_ready_frame _ wakes rest = rest

  -- The second loop.
  await_ready : List Wake → Awaited (Unit {0}) × List Wake
  await_ready [] = (over disconnected, [])
  await_ready (broken ∷ wakes) = (over disconnected, wakes)
  await_ready (message (text txt) ∷ wakes) = on_ready_frame (parse S txt) wakes (await_ready wakes)
  await_ready (_ ∷ wakes) = await_ready wakes

  unfoldable pub upstream_url : Config → String
  upstream_url config =
      String.◌++◌ (trim_end_matches (λ c. eqb c b'/') config.upstream) "/chat/completions"

  module _ (peer : Peer S) (config : Config) where
    abbrev ended_by : Bool × Link S → SessionOutcome → SessionOutcome × Link S
    ended_by (_, l) outcome = (outcome, l)

    abbrev after_job : Bool × Link S → (Link S → SessionOutcome × Link S) → SessionOutcome × Link S
    after_job (true, l) rest = rest l
    after_job (false, l) rest = (disconnected, l)

    on_job_frame :
        Option (ServerFrame S)
        → Link S
        → (Link S → SessionOutcome × Link S)
        → SessionOutcome × Link S
    on_job_frame (some (ServerFrame.job job_id body)) l rest =
        after_job (handle_job S peer job_id (upstream_url config) config.model body l) rest
    on_job_frame _ l rest = rest l

    on_message : Message → Link S → (Link S → SessionOutcome × Link S) → SessionOutcome × Link S
    unfolding on_job_frame
    on_message (text txt) l rest = on_job_frame (parse S txt) l rest
    on_message close l rest = (disconnected, l)
    on_message _ l rest = rest l

    job_loop : List Wake → Link S → SessionOutcome × Link S
    unfolding on_message
    job_loop [] l = (disconnected, l)
    job_loop (signal ∷ wakes) l = ended_by (send S peer closing l) shutdown
    job_loop (broken ∷ wakes) l = (disconnected, l)
    job_loop (message m ∷ wakes) l = on_message m l (job_loop wakes)

    after_ready : Awaited (Unit {0}) × List Wake → Link S → SessionOutcome × Link S
    unfolding job_loop
    after_ready (got _, wakes) l = job_loop wakes l
    after_ready (over outcome, wakes) l = (outcome, l)

    after_auth : Bool × Link S → List Wake → SessionOutcome × Link S
    unfolding after_ready await_ready
    after_auth (true, l) wakes = after_ready (await_ready wakes) l
    after_auth (false, l) wakes = (disconnected, l)

    module _ (B : Base58) (E : Ed25519) (node_key : E.SigningKey) (wallet_pubkey : String) where
      -- `sign_base58`, whose message is kept in the link
      abbrev signing : List ℕ → Link S → Link S
      signing msg l = record l { signed = l.signed ++ msg ∷ [] }

      abbrev auth_frame : List ℕ → AuthFrame
      auth_frame msg = record {
        node_pubkey = B.encode (E.verifying_key node_key);
        wallet_pubkey = wallet_pubkey;
        model = config.model;
        context_len = none;
        signature = B.encode (E.sign node_key msg);
      }

      after_nonce : Result (List ℕ) NonceError → List Wake → Link S → SessionOutcome × Link S
      unfolding after_auth
      after_nonce (err e) wakes l = (disconnected, l)
      after_nonce (ok bytes) wakes l =
          let msg = auth_message bytes in
          after_auth (send_text S peer (auth_text S (auth_frame msg)) (signing msg l)) wakes

      after_challenge : Awaited String × List Wake → Link S → SessionOutcome × Link S
      unfolding after_nonce
      after_challenge (over outcome, wakes) l = (outcome, l)
      after_challenge (got nonce, wakes) l = after_nonce (validate_nonce B nonce) wakes l

      unfoldable pub serve : List Wake → Link S → SessionOutcome × Link S
      unfolding after_challenge await_challenge
      serve wakes l = after_challenge (await_challenge wakes) l

      -- `run`: the supervisor raced against ctrl-c. The attempts end where ctrl-c is pressed, unless the
      -- supervisor has returned before.
      unfoldable pub run : List (Option (List Wake) × ℕ) → Link S → SessionOutcome
      run attempts l = unwrap_or (reconnect_loop serve attempts l).outcome shutdown
