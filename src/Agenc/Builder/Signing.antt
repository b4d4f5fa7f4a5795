-- ===== src/Agenc/Builder/Signing.antt =====
-- What `drive_builder` of agenc-worker/src/builder.rs signs.
use nexus_client.Prelude.{
  ℕ, ◌≡◌, refl, Bool, true, false, Option, none, some, List, [], ◌∷◌, String, ok, and_then, leb,
  ◌==◌, if◌then◌else◌, ok_or-eq-ok,
}
use nexus_client.Utf8.{as_bytes}
use nexus_client.External.Serde.{Serde}
use nexus_client.External.Crypto.{Base58, Ed25519, Hashing}
use nexus_client.Agenc.Net.{
  Event, called, slept, signed, Mcp, Act, throw, sleep, Keeps, Keeps-pure, Keeps-bind-lift,
  Keeps-bind, Keeps-lift, Keeps-record_signing, Keeps-event,
}
use nexus_client.Agenc.Builder.Calls.{Keeps-bind-call}
use nexus_client.Agenc.Builder.{
  BuilderError, rejects, pin_tier, take_action, action_for, advance, on_status, poll, authenticate,
  create_session, drive_builder,
}

module _ (S : Serde) (mcp : Mcp S) where
  open S use {Value, get, as_str, as_bool}

  -- The bytes of a text that a tool has answered as the `message`.
  abbrev pub IsChallenge : List ℕ → Type 0
  IsChallenge bytes =
      (h : List (Event S)) × (v : Value) × (message : String) × (mcp h ≡ ok v)
      × (and_then (get v "message") as_str ≡ some message)
      × (bytes ≡ as_bytes message)

  module _ (P : Event S → Type 0) (calls : (name : String) (args : Value) → P (called name args))
      (sleeps : (secs : ℕ) → P (slept secs)) where
    Keeps-sleep : (secs : ℕ) → Keeps P (sleep {E = BuilderError} secs)
    unfolding sleep
    Keeps-sleep secs = Keeps-event (slept secs) (sleeps secs)

    Keeps-throw : {A : Type 0} (e : BuilderError) → Keeps P (throw {A = A} e)
    unfolding throw
    Keeps-throw e = record { at = λ h x. x }

    Keeps-if :
        {A : Type 0} {m n : Act S A BuilderError} (b : Bool)
        → Keeps P m
        → Keeps P n
        → Keeps P (if b then m else n)
    Keeps-if true e k = e
    Keeps-if false e k = k

    module _ (session_id : String) where
      take_action-Keeps : (action : Option String) → Keeps P (take_action S mcp session_id action)
      unfolding take_action
      take_action-Keeps none = Keeps-sleep 2
      take_action-Keeps (some action) =
          Keeps-bind-call S mcp _ _ _ (calls _ _) (λ v h _. Keeps-pure tt)

      advance-Keeps :
          (phase status : String) (p : Bool) → Keeps P (advance S mcp session_id phase status p)
      unfolding advance pin_tier
      advance-Keeps phase status p =
          Keeps-bind _ _
            (Keeps-if _ (Keeps-bind-call S mcp _ _ _ (calls _ _) (λ v h _. Keeps-pure true))
              (Keeps-pure p))
            λ q. Keeps-bind _ _ (take_action-Keeps (action_for phase status)) (λ _. Keeps-pure q)

      on_status-Keeps :
          (status : String) (snap : Value) (p : Bool) (rest : Bool → Act S Value BuilderError)
          → ((q : Bool) → Keeps P (rest q))
          → Keeps P (on_status S mcp session_id status snap p rest)
      unfolding on_status
      on_status-Keeps status snap p rest k = Keeps-if (status == "done") (Keeps-pure _) (
          Keeps-if (status == "error") (Keeps-throw _) (
            Keeps-if (status == "running") (Keeps-bind _ _ (Keeps-sleep 2) (λ _. k p))
              (Keeps-bind _ _ (advance-Keeps _ status p) k)))

      poll-Keeps :
          (budget : ℕ) (readings : List ℕ) (p : Bool)
          → Keeps P (poll S mcp session_id budget readings p)
      unfolding poll
      poll-Keeps budget [] p = Keeps-throw _
      poll-Keeps budget (elapsed ∷ readings) p = Keeps-if (leb budget elapsed) (Keeps-throw _) (
          Keeps-bind-call S mcp _ _ _ (calls _ _)
            (λ snap h _. on_status-Keeps _ snap p _ (poll-Keeps budget readings)))

    module _ (challenges : (bytes : List ℕ) → IsChallenge bytes → P (signed bytes)) (B : Base58)
        (E : Ed25519) (H : Hashing) where
      authenticate-Keeps :
          (key : E.SigningKey) (pubkey : String) → Keeps P (authenticate S mcp B E H key pubkey)
      unfolding authenticate
      authenticate-Keeps key pubkey = Keeps-bind-call S mcp _ _ _ (calls _ _) λ v h answered.
          Keeps-bind-lift _ _ λ message e.
            Keeps-bind _ _
              (Keeps-record_signing (as_bytes message)
                (challenges _ (h, v, message, answered, ok_or-eq-ok _ _ e, refl)))
              λ _. Keeps-bind-call S mcp _ _ _ (calls _ _) λ v' h' _.
                Keeps-if (rejects (and_then (get v' "authenticated") as_bool)) (Keeps-throw _)
                  (Keeps-pure tt)

      -- A property of the events that every call, every pause and the signature of an answered message
      -- has, is kept by the session.
      pub drive_builder-Keeps :
          (key : E.SigningKey) (pubkey parcel_uid brief : String) (budget : ℕ) (readings : List ℕ)
          → Keeps P (drive_builder S mcp B E H key pubkey parcel_uid brief budget readings)
      unfolding drive_builder create_session
      drive_builder-Keeps key pubkey parcel_uid brief budget readings =
          Keeps-bind _ _ (authenticate-Keeps key pubkey) λ _.
            Keeps-bind _ _ (Keeps-bind-call S mcp _ _ _ (calls _ _) (λ v h _. Keeps-lift _))
              λ session_id.
                Keeps-bind _ _ (poll-Keeps session_id budget readings false)
                  λ files. Keeps-bind-call S mcp _ _ _ (calls _ _) (λ v h _. Keeps-pure _)
