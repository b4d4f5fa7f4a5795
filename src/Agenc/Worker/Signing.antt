-- ===== src/Agenc/Worker/Signing.antt =====
-- What the round trip signs.
use nexus_client.Prelude.{
  ℕ, ◌≡◌, ◌⊎◌, inl, inr, subst, List, [], ◌∷◌, String, Result, ok, All, map_err-eq-ok,
}
use nexus_client.External.Serde.{Serde}
use nexus_client.External.Crypto.{Ed25519, Hashing}
use nexus_client.External.Solana.{Solana}
use nexus_client.Agenc.Net.{
  Event, posted, signed, Servers, Keeps, Keeps-pure, Keeps-lift, Keeps-post, Keeps-bind-lift,
  Keeps-bind,
}
use nexus_client.Agenc.Tx.{TxError, decode_tx, assert_expected, sign_and_send}
use nexus_client.Agenc.Tx.Sending.{sign_and_send-Keeps}
use nexus_client.Agenc.Tx.Guard.{IsExpected, assert_expected_iff}
use nexus_client.Agenc.Worker.{
  claim_disc, submit_disc, WorkerCfg, WorkerMeta, build_claim_tx, build_submit_tx, program, sending,
  assert_sign_send, worker_roundtrip,
}

module _ (S : Serde) (servers : Servers S) (C : Solana) (E : Ed25519) (H : Hashing) where
  -- The signed bytes are the serialization of a message that passed the check for this discriminator.
  abbrev pub IsChecked : List ℕ → List ℕ → Type 0
  IsChecked disc bytes =
      (unsigned : String) × (msg : C.Message) × IsExpected C unsigned (program S servers C E H)
        (disc ∷ []) msg
      × (C.serialize_message msg ≡ ok bytes)

  -- Every event but a signature is harmless; a signature is over a checked claim or submit message.
  abbrev pub IsGuarded : Event S → Type 0
  IsGuarded (signed bytes) = IsChecked claim_disc bytes ⊎ IsChecked submit_disc bytes
  IsGuarded _ = Unit

  pub IsExpected-of_checked :
      (unsigned : String) (disc : List ℕ) (msg : C.Message)
      → assert_expected C unsigned (program S servers C E H) (disc ∷ []) ≡ ok tt
      → decode_tx C unsigned ≡ ok msg
      → IsExpected C unsigned (program S servers C E H) (disc ∷ []) msg
  IsExpected-of_checked unsigned disc msg e decoded =
      let (m, h) = (assert_expected_iff C unsigned (program S servers C E H) (disc ∷ [])).0 e in
      let same : m ≡ msg = cc (h.0, decoded) in
      subst (IsExpected C unsigned (program S servers C E H) (disc ∷ [])) same h

  -- A property of the events that every POST has, and every signature of a checked message.
  module _ (P : Event S → Type 0) (posts : (url : String) (body : S.Value) → P (posted url body))
      (claims : (bytes : List ℕ) → IsChecked claim_disc bytes → P (signed bytes))
      (submits : (bytes : List ℕ) → IsChecked submit_disc bytes → P (signed bytes)) where
    sending-All :
        (r : Result String TxError × List (Event S))
        → All P r.1
        → All P (sending S servers C E H r).1
    sending-All (r, h) k = k

    assert_sign_send-Keeps :
        (url unsigned : String) (disc : List ℕ) (key : C.Keypair)
        → ((bytes : List ℕ) → IsChecked disc bytes → P (signed bytes))
        → Keeps P (assert_sign_send S servers C E H url unsigned disc key)
    unfolding assert_sign_send
    assert_sign_send-Keeps url unsigned disc key k = Keeps-bind-lift _ _ λ _ e. record {
      at = λ h x. sending-All (sign_and_send C S servers url unsigned key h) (
          (sign_and_send-Keeps S servers C posts url unsigned key (λ msg bytes decoded serialized.
              k bytes (
                unsigned,
                msg,
                IsExpected-of_checked unsigned disc msg (map_err-eq-ok _ _ e) decoded,
                serialized,
              ))).at
            h x);
    }

    build_claim_tx-Keeps :
        (url task_pda key : String) → Keeps P (build_claim_tx S servers url task_pda key)
    unfolding build_claim_tx
    build_claim_tx-Keeps url task_pda key =
        Keeps-bind _ _ (Keeps-post servers _ _ (posts _ _)) (λ r. Keeps-lift _)

    build_submit_tx-Keeps :
        (url task_pda key hash data_ : String)
        → Keeps P (build_submit_tx S servers url task_pda key hash data_)
    unfolding build_submit_tx
    build_submit_tx-Keeps url task_pda key hash data_ =
        Keeps-bind _ _ (Keeps-post servers _ _ (posts _ _)) (λ r. Keeps-lift _)

    pub worker_roundtrip-Keeps :
        (cfg : WorkerCfg) (key : C.Keypair) (task_pda artifact_sha256 : String) (meta : WorkerMeta)
        → Keeps P (worker_roundtrip S servers C E H cfg key task_pda artifact_sha256 meta)
    unfolding worker_roundtrip
    worker_roundtrip-Keeps cfg key task_pda artifact_sha256 meta =
        Keeps-bind _ _ (build_claim_tx-Keeps _ _ _) λ claim_tx.
          Keeps-bind _ _ (assert_sign_send-Keeps _ claim_tx claim_disc key claims) λ _.
            Keeps-bind _ _ (build_submit_tx-Keeps _ _ _ _ _) λ submit_tx.
              Keeps-bind _ _ (assert_sign_send-Keeps _ submit_tx submit_disc key submits)
                (λ _. Keeps-pure _)

  -- Whatever the sidecar and the RPC answer, the round trip signs only the serialization of messages of
  -- transactions that pass the check with the claim or the submit discriminator; this holds on every path,
  -- the failing ones included.
  pub worker_roundtrip-IsGuarded :
      (cfg : WorkerCfg) (key : C.Keypair) (task_pda artifact_sha256 : String) (meta : WorkerMeta)
      (h : List (Event S))
      → All IsGuarded h
      → All IsGuarded (worker_roundtrip S servers C E H cfg key task_pda artifact_sha256 meta h).1
  worker_roundtrip-IsGuarded cfg key task_pda artifact_sha256 meta =
      (worker_roundtrip-Keeps IsGuarded (λ url body. tt) (λ bytes c. inl c) (λ bytes c. inr c) cfg
        key task_pda artifact_sha256 meta).at
