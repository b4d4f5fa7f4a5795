-- ===== src/Agenc/Builder/Termination.antt =====
-- The loop of agenc-worker/src/builder.rs `drive_builder` ends within its budget.
use nexus_client.Prelude.{
  ℕ, ◌≡◌, ◌≢◌, ◌≤◌, ◌⊎◌, refl, Bool, true, false, Bool-cases, inl, inr, Option, none, some, List,
  [], ◌∷◌, String, ◌==◌, arith, leb, if◌then◌else◌, and_then, err, ok_or-eq-err,
}
use nexus_client.External.Serde.{Serde}
use nexus_client.External.Crypto.{Base58, Ed25519, Hashing}
use nexus_client.Agenc.Net.{Event, Mcp, Act, pure, throw, sleep, record_signing, ◌>>=◌}
use nexus_client.Agenc.Net.Ensures.{
  Ensures, Ensures-pure, Ensures-throw, Ensures-lift, Ensures-bind, err_of-Outcome,
}
use nexus_client.Agenc.Builder.Calls.{call-Ensures}
use nexus_client.Agenc.Builder.{
  BuilderError, unfinished, auth_rejected, no_message, no_session, rejects, call, pin_tier,
  take_action, action_for, advance, on_status, poll, authenticate, create_session, drive_builder,
}

-- Some reading of the clock reaches the budget.
abbrev pub Reaches : ℕ → List ℕ → Type 0
Reaches budget [] = ⊥
Reaches budget (elapsed ∷ readings) = (budget ≤ elapsed) ⊎ Reaches budget readings

module _ (S : Serde) (mcp : Mcp S) where
  open S use {Value, get, as_bool}

  -- Whatever it does, it does not run out of readings.
  abbrev Finishes : {A : Type 0} → Act S A BuilderError → Type 0
  Finishes {A} m = Ensures (λ h. Unit {0}) m (λ (a : A) h. Unit {0}) (λ e h. e ≢ unfinished)

  call-Finishes : (name : String) (args : Value) → Finishes (call S mcp name args)
  call-Finishes name args = call-Ensures S mcp name args (λ h v _ _. tt) (λ h e _. cc)

  pure-Finishes : {A : Type 0} (a : A) → Finishes (pure a)
  pure-Finishes a = Ensures-pure a (λ h _. tt)

  sleep-Finishes : (secs : ℕ) → Finishes (sleep secs)
  unfolding sleep
  sleep-Finishes secs = record { at = λ h _. tt }

  bind-Finishes :
      {A B : Type 0} {m : Act S A BuilderError} {f : A → Act S B BuilderError}
      → Finishes m
      → ((a : A) → Finishes (f a))
      → Finishes (m >>= f)
  bind-Finishes e k = Ensures-bind (λ a h. Unit {0}) e k

  module _ (session_id : String) where
    pin_tier-Finishes :
        (phase status : String) (p : Bool) → Finishes (pin_tier S mcp session_id phase status p)
    unfolding pin_tier
    pin_tier-Finishes phase status p =
        if-Finishes _ (bind-Finishes (call-Finishes _ _) (λ _. pure-Finishes true))
          (pure-Finishes p)
      where
        if-Finishes :
            {A : Type 0} {m n : Act S A BuilderError} (b : Bool)
            → Finishes m
            → Finishes n
            → Finishes (if b then m else n)
        if-Finishes true e k = e
        if-Finishes false e k = k

    take_action-Finishes : (action : Option String) → Finishes (take_action S mcp session_id action)
    unfolding take_action
    take_action-Finishes none = sleep-Finishes 2
    take_action-Finishes (some action) = bind-Finishes (call-Finishes _ _) (λ _. pure-Finishes tt)

    advance-Finishes :
        (phase status : String) (p : Bool) → Finishes (advance S mcp session_id phase status p)
    unfolding advance
    advance-Finishes phase status p =
        bind-Finishes (pin_tier-Finishes phase status p)
          λ q. bind-Finishes (take_action-Finishes (action_for phase status)) (λ _. pure-Finishes q)

    on_status-Finishes :
        (status : String) (snap : Value) (p : Bool) (rest : Bool → Act S Value BuilderError)
        → ((q : Bool) → Finishes (rest q))
        → Finishes (on_status S mcp session_id status snap p rest)
    unfolding on_status
    on_status-Finishes status snap p rest k = elim (Bool-cases (status == "done")) [
      | inl done ↦ rw done (pure-Finishes _)
      | inr going ↦ elim (Bool-cases (status == "error")) [
        | inl failed ↦ rw (going, failed) (Ensures-throw _ (λ h t. cc))
        | inr sound ↦ elim (Bool-cases (status == "running")) [
          | inl running ↦ rw (going, sound, running) (bind-Finishes (sleep-Finishes 2) (λ v. k p))
          | inr waiting ↦ rw (going, sound, waiting) (bind-Finishes (advance-Finishes _ status p) k)
        ]
      ]
    ]

    poll-Finishes :
        (budget : ℕ) (readings : List ℕ) (p : Bool)
        → Reaches budget readings
        → Finishes (poll S mcp session_id budget readings p)
    unfolding poll
    poll-Finishes budget [] p r = absurd r
    poll-Finishes budget (elapsed ∷ readings) p r = elim (Bool-cases (leb budget elapsed)) [
      | inl over ↦ rw over (Ensures-throw _ (λ h t. cc))
      | inr within ↦ rw within (
          bind-Finishes (call-Finishes _ _) (λ snap.
            on_status-Finishes _ snap p _ (λ q. poll-Finishes budget readings q (later r within))))
    ]
      where
        later :
            (budget ≤ elapsed) ⊎ Reaches budget readings
            → leb budget elapsed ≡ false
            → Reaches budget readings
        later (inl reached) within = absurd (ground arith)
        later (inr reached) within = reached

  module _ (B : Base58) (E : Ed25519) (H : Hashing) where
    verdict-Finishes :
        (b : Bool) → Finishes (if b then throw {A = Unit {0}} auth_rejected else pure tt)
    verdict-Finishes true = Ensures-throw _ (λ h t. cc)
    verdict-Finishes false = pure-Finishes tt

    authenticate-Finishes :
        (key : E.SigningKey) (pubkey : String) → Finishes (authenticate S mcp B E H key pubkey)
    unfolding authenticate record_signing
    authenticate-Finishes key pubkey = bind-Finishes (call-Finishes _ _) λ v.
        bind-Finishes
          (Ensures-lift _ (λ m _ h t. tt) (λ x e h t. let same = ok_or-eq-err _ no_message e in cc))
          λ m.
            bind-Finishes (record { at = λ h _. tt })
              λ _.
                bind-Finishes (call-Finishes _ _)
                  (λ v'. verdict-Finishes (rejects (and_then (get v' "authenticated") as_bool)))

    -- Whatever the tools answer, the session ends, by a result or an error of the source, as soon as the
    -- clock reaches the budget: if some reading of the clock does, `drive_builder` uses no further one.
    pub drive_builder-ne-unfinished :
        (key : E.SigningKey) (pubkey parcel_uid brief : String) (budget : ℕ) (readings : List ℕ)
        (h : List (Event S))
        → Reaches budget readings
        → (drive_builder S mcp B E H key pubkey parcel_uid brief budget readings h).0
          ≢ err unfinished
    unfolding drive_builder create_session
    drive_builder-ne-unfinished key pubkey parcel_uid brief budget readings h r e =
        err_of-Outcome (λ a h. Unit {0}) (λ e h. e ≢ unfinished) _ unfinished
          ((bind-Finishes (authenticate-Finishes key pubkey) λ _.
              bind-Finishes
                (bind-Finishes (call-Finishes _ _) (λ c.
                  Ensures-lift _ (λ m _ h t. tt)
                    (λ x e h t. let same = ok_or-eq-err _ no_session e in cc)))
                λ session_id.
                  bind-Finishes (poll-Finishes session_id budget readings false r)
                    λ files. bind-Finishes (call-Finishes _ _) (λ _. pure-Finishes _)).at
            h tt)
          e refl
