-- ===== src/Agenc/Builder.antt =====
-- agenc-worker/src/builder.rs: `sign_siws` and `drive_builder`, over any tools.
pub mod Calls
pub mod Pinned
pub mod Tier
pub mod Promotion
pub mod Creation
pub mod Signing
pub mod Termination
use Prim.Native.String
use nexus_client.Prelude.{
  ℕ, Bool, true, false, not, ◌&&◌, Option, none, some, List, [], ◌∷◌, ◌++◌, String, ◌==◌, Result,
  ok, err, map_err, ok_or, and_then, unwrap_or, leb, if◌then◌else◌,
}
use nexus_client.Utf8.{as_bytes}
use nexus_client.External.Serde.{Serde, json}
use nexus_client.External.Crypto.{Base58, Ed25519, Hashing}
use nexus_client.Agenc.Net
use nexus_client.Agenc.Net.{
  Event, called, Mcp, Act, pure, lift, throw, sleep, record_signing, ◌>>=◌, ◌>>◌,
}
use nexus_client.Agenc.Manifest.{manifest_hash, files_from_json}

-- The errors, which the source gives as texts. `unfinished` is no error of the source: the readings of
-- the clock that the model was given are used up.
pub data BuilderError : Type 0 where
  tool_failed : String → String → BuilderError
  no_message : BuilderError
  auth_rejected : BuilderError
  no_session : BuilderError
  over_budget : BuilderError
  session_failed : String → BuilderError
  unfinished : BuilderError

-- The action for a phase and a status.
unfoldable pub action_for : String → String → Option String
action_for phase status =
    if phase == "brainstorm" && status == "waiting_approval"
    then some "approve_spec"
    else if phase == "plan" && status == "waiting_approval"
    then some "approve_plan"
    else if phase == "execute" && status == "waiting_user"
    then some "next_task"
    else none

-- `== Some(false)`
abbrev pub rejects : Option Bool → Bool
rejects (some false) = true
rejects _ = false

module _ (S : Serde) where
  open S use {Value, get, as_str, string}

  abbrev pub text_or : Value → String → String → String
  text_or v key default = unwrap_or (and_then (get v key) as_str) default

  abbrev pub session_args : String → Value
  session_args session_id = json S (("session_id", string session_id) ∷ [])

  abbrev pub tier_args : String → Value
  tier_args session_id =
      json S (("session_id", string session_id) ∷ ("tier", string "community") ∷ [])

  abbrev pub advance_args : String → String → Value
  advance_args session_id action =
      json S (("session_id", string session_id) ∷ ("action", string action) ∷ [])

module _ (S : Serde) (mcp : Mcp S) where
  open S use {Value, get, as_str, as_bool, string, null}

  unfoldable pub call : String → Value → Act S Value BuilderError
  call name args h =
      let h' = h ++ called name args ∷ [] in (map_err (tool_failed name) (mcp h'), h')

  module _ (session_id : String) where
    -- The tier is pinned once, when the plan waits for its approval.
    unfoldable pub pin_tier : String → String → Bool → Act S Bool BuilderError
    pin_tier phase status tier_pinned =
        if phase == "plan" && status == "waiting_approval" && not tier_pinned
        then (call "nexus_builder_tier" (tier_args S session_id) >>= λ _. pure true)
        else pure tier_pinned

    unfoldable pub take_action : Option String → Act S (Unit {0}) BuilderError
    take_action none = sleep 2
    take_action (some action) =
        call "nexus_builder_advance" (advance_args S session_id action) >>= λ _. pure tt

    -- A status that is neither terminal nor `running`.
    unfoldable pub advance : String → String → Bool → Act S Bool BuilderError
    advance phase status tier_pinned = do
      pinned ← pin_tier phase status tier_pinned
      _ ← take_action (action_for phase status)
      pure pinned

    -- `rest` is the next round.
    unfoldable pub on_status :
        String → Value → Bool → (Bool → Act S Value BuilderError) → Act S Value BuilderError
    on_status status snap tier_pinned rest =
        if status == "done"
        then pure (unwrap_or (get snap "files") null)
        else if status == "error"
        then throw (session_failed (text_or S snap "error_message" "(no error_message)"))
        else if status == "running"
        then (sleep 2 >>= λ _. rest tier_pinned)
        else (advance (text_or S snap "phase" "") status tier_pinned >>= rest)

    -- The loop, one reading of the clock (seconds since its start) for each round.
    unfoldable pub poll : ℕ → List ℕ → Bool → Act S Value BuilderError
    poll budget_secs [] tier_pinned = throw unfinished
    poll budget_secs (elapsed ∷ readings) tier_pinned =
        if leb budget_secs elapsed then throw over_budget else do
          snap ← call "nexus_builder_status" (session_args S session_id)
          on_status (text_or S snap "status" "") snap tier_pinned (poll budget_secs readings)

  module _ (B : Base58) (E : Ed25519) (H : Hashing) where
    unfoldable pub sign_siws : String → E.SigningKey → String
    sign_siws message key = B.encode (E.sign key (as_bytes message))

    unfoldable pub authenticate : E.SigningKey → String → Act S (Unit {0}) BuilderError
    authenticate worker_key worker_pubkey = do
      challenge ← call "nexus_auth_challenge" (json S (("pubkey", string worker_pubkey) ∷ []))
      message ← lift (ok_or (and_then (get challenge "message") as_str) no_message)
      record_signing (as_bytes message)
      verify ← call "nexus_auth_verify" (
          json S (
            ("pubkey", string worker_pubkey)
            ∷ ("signature", string (sign_siws message worker_key))
            ∷ ("message", string message)
            ∷ []))
      if rejects (and_then (get verify "authenticated") as_bool)
          then throw auth_rejected
          else pure tt

    unfoldable pub create_session : String → String → Act S String BuilderError
    create_session parcel_uid brief = do
      created ←
          call "nexus_builder_create"
            (json S (("parcel_uid", string parcel_uid) ∷ ("brief", string brief) ∷ []))
      lift (ok_or (and_then (get created "session_id") as_str) no_session)

    -- The session and the hash of the promoted app's files.
    unfoldable pub drive_builder :
        E.SigningKey → String → String → String → ℕ → List ℕ → Act S (String × String) BuilderError
    drive_builder worker_key worker_pubkey parcel_uid brief budget_secs readings = do
      authenticate worker_key worker_pubkey
      session_id ← create_session parcel_uid brief
      done_files ← poll session_id budget_secs readings false
      _ ← call "nexus_builder_promote" (session_args S session_id)
      pure (session_id, manifest_hash H (files_from_json S done_files))
