-- ===== src/Agenc/Builder/Creation.antt =====
-- Which session agenc-worker/src/builder.rs `drive_builder` works on: the one made for the parcel and the brief.
use mathlib.Core.List.{append-nil, append_assoc}
use nexus_client.Prelude.{
  ℕ, ◌≡◌, refl, sym, ap, ◌∙◌, Bool, false, not, ◌&&◌, Bool-cases, inl, inr, Option, none, some,
  List, [], ◌∷◌, ◌++◌, String, ◌==◌, leb, and_then, ok, ok_or-eq-ok,
}
use nexus_client.External.Serde.{Serde, json}
use nexus_client.External.Crypto.{Base58, Ed25519, Hashing}
use nexus_client.Agenc.Net.{Event, called, slept, Mcp, Act, sleep}
use nexus_client.Agenc.Net.Ensures.{
  Ensures, Ensures-pure, Ensures-throw, Ensures-lift, Ensures-bind, Ensures-any, Ensures-and,
}
use nexus_client.Agenc.Builder.Calls.{call-Ensures}
use nexus_client.Agenc.Builder.Promotion.{Any, DoneWith, Promoted, poll-DoneWith}
use nexus_client.Agenc.Builder.{
  BuilderError, call, action_for, session_args, tier_args, advance_args, text_or, pin_tier,
  take_action, advance, on_status, poll, create_session, drive_builder,
}

module _ (S : Serde) (mcp : Mcp S) where
  open S use {Value, get, as_str, string}

  -- Any property of the history that one more event keeps is kept by the session's loop.
  module _ (P : List (Event S) → Type 0)
      (grow : (h : List (Event S)) (e : Event S) → P h → P (h ++ e ∷ [])) where
    Keeps-call :
        (name : String) (args : Value) → Ensures P (call S mcp name args) (λ v h. P h) (λ e h. Unit)
    Keeps-call name args =
        call-Ensures S mcp name args (λ h v p _. grow h (called name args) p) (λ h e p. tt)

    Keeps-sleep : (secs : ℕ) → Ensures P (sleep secs) (λ v h. P h) (λ (e : BuilderError) h. Unit)
    unfolding sleep
    Keeps-sleep secs = record { at = λ h p. grow h (slept secs) p }

    module _ (session_id : String) where
      Keeps-take_action :
          (action : Option String)
          → Ensures P (take_action S mcp session_id action) (λ v h. P h) (λ e h. Unit)
      unfolding take_action
      Keeps-take_action none = Keeps-sleep 2
      Keeps-take_action (some action) =
          Ensures-bind (λ v h. P h)
            (Keeps-call "nexus_builder_advance" (advance_args S session_id action))
            (λ v. Ensures-pure tt (λ h p. p))

      Keeps-pin_tier :
          (phase status : String) (p : Bool)
          → Ensures P (pin_tier S mcp session_id phase status p) (λ v h. P h) (λ e h. Unit)
      unfolding pin_tier
      Keeps-pin_tier phase status p =
          elim (Bool-cases (phase == "plan" && status == "waiting_approval" && not p)) [
            | inl pin ↦ rw pin (
                Ensures-bind (λ v h. P h) (Keeps-call "nexus_builder_tier" (tier_args S session_id))
                  (λ v. Ensures-pure _ (λ h x. x)))
            | inr keep ↦ rw keep (Ensures-pure p (λ h x. x))
          ]

      Keeps-on_status :
          (status : String) (snap : Value) (p : Bool) (rest : Bool → Act S Value BuilderError)
          → ((q : Bool) → Ensures P (rest q) (λ v h. P h) (λ e h. Unit))
          → Ensures P (on_status S mcp session_id status snap p rest) (λ v h. P h) (λ e h. Unit)
      unfolding on_status advance
      Keeps-on_status status snap p rest k = elim (Bool-cases (status == "done")) [
        | inl done ↦ rw done (Ensures-pure _ (λ h x. x))
        | inr going ↦ elim (Bool-cases (status == "error")) [
          | inl failed ↦ rw (going, failed) (Ensures-throw _ (λ h x. tt))
          | inr sound ↦ elim (Bool-cases (status == "running")) [
            | inl running ↦
                rw (going, sound, running) (Ensures-bind (λ v h. P h) (Keeps-sleep 2) (λ v. k p))
            | inr waiting ↦
                rw (going, sound, waiting)
                  (Ensures-bind (λ v h. P h)
                    (Ensures-bind (λ v h. P h) (Keeps-pin_tier (text_or S snap "phase" "") status p)
                      λ q.
                        Ensures-bind (λ v h. P h)
                          (Keeps-take_action (action_for (text_or S snap "phase" "") status))
                          (λ v. Ensures-pure q (λ h x. x)))
                    k)
          ]
        ]
      ]

      Keeps-poll :
          (budget : ℕ) (readings : List ℕ) (p : Bool)
          → Ensures P (poll S mcp session_id budget readings p) (λ v h. P h) (λ e h. Unit)
      unfolding poll
      Keeps-poll budget [] p = Ensures-throw _ (λ h x. tt)
      Keeps-poll budget (elapsed ∷ readings) p = elim (Bool-cases (leb budget elapsed)) [
        | inl over ↦ rw over (Ensures-throw _ (λ h x. tt))
        | inr within ↦ rw within (
            Ensures-bind (λ v h. P h)
              (Keeps-call "nexus_builder_status" (session_args S session_id))
              (λ snap. Keeps-on_status _ snap p _ (Keeps-poll budget readings)))
      ]

  module _ (parcel_uid brief : String) where
    abbrev pub creating : Event S
    creating =
        called "nexus_builder_create"
          (json S (("parcel_uid", string parcel_uid) ∷ ("brief", string brief) ∷ []))

    -- The session was created for the parcel and the brief, by a call that the answer gave this id to.
    pub record Created (session_id : String) (h : List (Event S)) : Type 0 where
      pub before : List (Event S)
      pub behind : List (Event S)
      pub created : Value
      pub answered : mcp (before ++ creating ∷ []) ≡ ok created
      pub named : and_then (get created "session_id") as_str ≡ some session_id
      pub history : h ≡ (before ++ creating ∷ []) ++ behind

    grow-Created :
        (session_id : String) (h : List (Event S)) (e : Event S)
        → Created session_id h
        → Created session_id (h ++ e ∷ [])
    grow-Created session_id h e c = record {
      before = c.before;
      behind = c.behind ++ e ∷ [];
      created = c.created;
      answered = c.answered;
      named = c.named;
      history =
          ap (λ x. x ++ e ∷ []) c.history ∙ append_assoc (c.before ++ creating ∷ []) c.behind _;
    }

    -- The answer to the call that ends the history.
    Answered : Value → List (Event S) → Type 0
    Answered created h' =
        (h : List (Event S)) × (h' ≡ h ++ creating ∷ []) × (mcp (h ++ creating ∷ []) ≡ ok created)

    module _ (B : Base58) (E : Ed25519) (H : Hashing) where
      create_session-Created :
          Ensures (Any S mcp) (create_session S mcp B E H parcel_uid brief) Created (λ e h. Unit)
      unfolding create_session Answered
      create_session-Created =
          Ensures-bind Answered (call-Ensures S mcp _ _ (λ h v _ a. (h, refl, a)) (λ h e _. tt))
            (λ created.
              Ensures-lift _
                (λ id named x (h, same, a). record {
                  before = h;
                  behind = [];
                  created = created;
                  answered = a;
                  named = ok_or-eq-ok _ _ named;
                  history = same ∙ sym (append-nil (h ++ creating ∷ []));
                })
                (λ _ _ _ _. tt))

      -- The session that was created for the parcel and the brief was promoted.
      abbrev pub Built : String × String → List (Event S) → Type 0
      Built r h = Promoted S mcp B E H r h × Created r.0 h

      pub drive_builder-Built :
          (key : E.SigningKey) (pubkey : String) (budget : ℕ) (readings : List ℕ)
          → Ensures
              (Any S mcp)
              (drive_builder S mcp B E H key pubkey parcel_uid brief budget readings)
              Built
              (λ e h. Unit)
      unfolding drive_builder
      drive_builder-Built key pubkey budget readings =
          Ensures-bind (λ v. Any S mcp) Ensures-any
            λ _. Ensures-bind Created create_session-Created λ session_id.
              Ensures-bind (λ files h. DoneWith S mcp session_id files h × Created session_id h)
                (Ensures-and (λ h c. tt) (poll-DoneWith S mcp session_id budget readings false)
                  (Keeps-poll (Created session_id) (grow-Created session_id) session_id budget
                    readings false))
                λ files.
                  Ensures-bind
                    (λ v h'.
                      (h : List (Event S)) × DoneWith S mcp session_id files h
                      × (h' ≡ h ++ called "nexus_builder_promote" (session_args S session_id) ∷ [])
                      × Created session_id h')
                    (call-Ensures S mcp "nexus_builder_promote" (session_args S session_id)
                      (λ h v (d, c) _. (h, d, refl, grow-Created session_id h _ c)) (λ h e _. tt))
                    (λ v. Ensures-pure _ (λ h' (h, d, e, c). (
                      record {
                        files = files;
                        before = h;
                        last = e;
                        finished = d;
                        committed = refl;
                      },
                      c,
                    )))
