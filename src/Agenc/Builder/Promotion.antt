-- ===== src/Agenc/Builder/Promotion.antt =====
-- What a finished session of agenc-worker/src/builder.rs has promoted.
use nexus_client.Prelude.{
  ℕ, ◌≡◌, refl, ◌∙◌, Bool, false, Bool-cases, eq_iff, inl, inr, List, [], ◌∷◌, ◌++◌, String, ◌==◌,
  unwrap_or, leb, ok,
}
use nexus_client.External.Serde.{Serde}
use nexus_client.External.Crypto.{Base58, Ed25519, Hashing}
use nexus_client.Agenc.Net.{Event, called, Mcp, Act}
use nexus_client.Agenc.Net.Ensures.{Ensures, Ensures-pure, Ensures-throw, Ensures-bind, Ensures-any}
use nexus_client.Agenc.Manifest.{manifest_hash, files_from_json}
use nexus_client.Agenc.Builder.Calls.{call-Ensures}
use nexus_client.Agenc.Builder.{BuilderError, session_args, text_or, on_status, poll, drive_builder}

module _ (S : Serde) (mcp : Mcp S) where
  open S use {Value, get, null}

  abbrev pub Any : List (Event S) → Type 0
  Any h = Unit {0}

  module _ (session_id : String) where
    abbrev asked : List (Event S) → List (Event S)
    asked h = h ++ called "nexus_builder_status" (session_args S session_id) ∷ []

    -- The last call was for the session's status, the answer says `done` and has these files.
    pub record DoneWith (files : Value) (h' : List (Event S)) : Type 0 where
      pub before : List (Event S)
      pub last : h' ≡ asked before
      pub snap : Value
      pub answered : mcp h' ≡ ok snap
      pub done : text_or S snap "status" "" ≡ "done"
      pub has : files ≡ unwrap_or (get snap "files") null

    -- The answer to the last call.
    Answered : Value → List (Event S) → Type 0
    Answered snap h' = (h : List (Event S)) × (h' ≡ asked h) × (mcp h' ≡ ok snap)

    on_status-DoneWith :
        (status : String) (snap : Value) (p : Bool) (rest : Bool → Act S Value BuilderError)
        → text_or S snap "status" "" ≡ status
        → ((q : Bool) → Ensures Any (rest q) DoneWith (λ e h. Unit))
        → Ensures
            (Answered snap)
            (on_status S mcp session_id status snap p rest)
            DoneWith
            (λ e h. Unit)
    unfolding on_status Answered
    on_status-DoneWith status snap p rest same k = elim (Bool-cases (status == "done")) [
      | inl done ↦ rw done (
          Ensures-pure _ (λ h' (h, e, a). record {
            before = h;
            last = e;
            snap = snap;
            answered = a;
            done = same ∙ (eq_iff status "done").0 done;
            has = refl;
          }))
      | inr going ↦ elim (Bool-cases (status == "error")) [
        | inl failed ↦ rw (going, failed) (Ensures-throw _ (λ h t. tt))
        | inr sound ↦ elim (Bool-cases (status == "running")) [
          | inl running ↦
              rw (going, sound, running) (Ensures-bind (λ v h. Unit) Ensures-any (λ v. k p))
          | inr waiting ↦ rw (going, sound, waiting) (Ensures-bind (λ v h. Unit) Ensures-any k)
        ]
      ]
    ]

    pub poll-DoneWith :
        (budget : ℕ) (readings : List ℕ) (p : Bool)
        → Ensures Any (poll S mcp session_id budget readings p) DoneWith (λ e h. Unit)
    unfolding poll Answered
    poll-DoneWith budget [] p = Ensures-throw _ (λ h t. tt)
    poll-DoneWith budget (elapsed ∷ readings) p = elim (Bool-cases (leb budget elapsed)) [
      | inl over ↦ rw over (Ensures-throw _ (λ h t. tt))
      | inr within ↦ rw within (
          Ensures-bind Answered
            (call-Ensures S mcp "nexus_builder_status" (session_args S session_id)
              (λ h v _ a. (h, refl, a)) (λ h e _. tt))
            (λ snap. on_status-DoneWith _ snap p _ refl (poll-DoneWith budget readings)))
    ]

  module _ (B : Base58) (E : Ed25519) (H : Hashing) where
    -- The session's files were promoted by the last call, and this is their hash.
    pub record Promoted (r : String × String) (h' : List (Event S)) : Type 0 where
      pub files : Value
      pub before : List (Event S)
      pub last : h' ≡ before ++ called "nexus_builder_promote" (session_args S r.0) ∷ []
      pub finished : DoneWith r.0 files before
      pub committed : r.1 ≡ manifest_hash H (files_from_json S files)

    pub drive_builder-Ensures :
        (key : E.SigningKey) (pubkey parcel_uid brief : String) (budget : ℕ) (readings : List ℕ)
        → Ensures Any
            (drive_builder S mcp B E H key pubkey parcel_uid brief budget readings)
            Promoted
            (λ e h. Unit)
    unfolding drive_builder
    drive_builder-Ensures key pubkey parcel_uid brief budget readings =
        Ensures-bind (λ v h. Unit) Ensures-any
          λ _.
            Ensures-bind (λ v h. Unit) Ensures-any
              λ session_id.
                Ensures-bind (DoneWith session_id) (poll-DoneWith session_id budget readings false)
                  λ files.
                    Ensures-bind
                      (λ v h'.
                        (h : List (Event S)) × DoneWith session_id files h
                        × (h'
                            ≡ h ++ called "nexus_builder_promote" (session_args S session_id) ∷ []))
                      (call-Ensures S mcp "nexus_builder_promote" (session_args S session_id)
                        (λ h v d _. (h, d, refl)) (λ h e _. tt))
                      (λ v. Ensures-pure _ (λ h' (h, d, e). record {
                        files = files;
                        before = h;
                        last = e;
                        finished = d;
                        committed = refl;
                      }))
