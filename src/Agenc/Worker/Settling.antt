-- ===== src/Agenc/Worker/Settling.antt =====
-- What a finished round trip of agenc-worker/src/worker.rs has done.
use Prim.Native.String
use mathlib.Core.List.{append_assoc}
use nexus_client.Prelude.{
  ℕ, ◌≡◌, refl, ap, ◌∙◌, List, [], ◌∷◌, ◌++◌, String, Result, ok, err, map_err-eq-ok,
}
use nexus_client.External.Serde.{Serde, json}
use nexus_client.External.Crypto.{Ed25519, Hashing}
use nexus_client.External.Solana.{Solana}
use nexus_client.Agenc.Net.{Event, posted, signed, Servers, post, record_signing}
use nexus_client.Agenc.Net.Ensures.{
  Ensures, Outcome, Ensures-pure, Ensures-lift, Ensures-bind, Ensures-given, Ensures-from,
  ok_of-Outcome,
}
use nexus_client.Agenc.Tx.{
  TxError, decode_tx, assert_expected, sign_and_send, send_json_rpc, assemble_wire_tx,
}
use nexus_client.Agenc.Worker.{
  claim_disc, submit_disc, WorkerCfg, WorkerMeta, WorkerSubmit, build_claim_tx, build_submit_tx,
  post_unsigned_tx, program, sending, assert_sign_send, commitment, worker_roundtrip,
}
use nexus_client.Agenc.Worker.Signing.{IsChecked, IsExpected-of_checked}

module _ (S : Serde) (servers : Servers S) where
  -- The history so far.
  abbrev At : List (Event S) → List (Event S) → Type 0
  At h x = x ≡ h

  post-At :
      {E : Type 0} {R : E → List (Event S) → Type 0} (url : String) (body : S.Value)
      (h : List (Event S))
      → Ensures (At h) (post servers url body) (λ v. At (h ++ posted url body ∷ [])) R
  unfolding post
  post-At url body h = record { at = λ x e. ap (λ y. y ++ posted url body ∷ []) e }

  post_unsigned_tx-At :
      (url path : String) (body : S.Value) (h : List (Event S))
      → Ensures
          (At h)
          (post_unsigned_tx S servers url path body)
          (λ v. At (h ++ posted (String.◌++◌ url path) body ∷ []))
          (λ e x. Unit {0})
  unfolding post_unsigned_tx
  post_unsigned_tx-At url path body h =
      Ensures-bind (λ v. At (h ++ posted (String.◌++◌ url path) body ∷ [])) (post-At _ body h)
        (λ r. Ensures-lift _ (λ v _ x e. e) (λ _ _ x e. tt))

  module _ (C : Solana) where
    -- The body of `sendTransaction` for these bytes: the transaction with the one signature that the key
    -- makes of them, and the bytes behind it.
    abbrev pub sent_body : C.Keypair → List ℕ → S.Value
    sent_body key bytes = json S (
        ("jsonrpc", S.string "2.0")
        ∷ ("id", S.uint 1)
        ∷ ("method", S.string "sendTransaction")
        ∷ (
          "params",
          S.array (
              S.string (C.base64_encode (1 ∷ (C.sign_message key bytes ++ bytes)))
              ∷ json S (("encoding", S.string "base64") ∷ [])
              ∷ []),
        )
        ∷ [])

    -- One signature, of these bytes, and one POST to the RPC node, of the transaction that carries it.
    abbrev pub Sent : String → C.Keypair → List (Event S) → List ℕ → List (Event S) → Type 0
    Sent rpc_url key h bytes h' = h' ≡ h ++ signed bytes ∷ posted rpc_url (sent_body key bytes) ∷ []

    sign_and_send-Sent :
        (rpc_url unsigned : String) (key : C.Keypair) (h : List (Event S))
        → Ensures
            (At h)
            (sign_and_send C S servers rpc_url unsigned key)
            (λ sig h'.
              (msg : C.Message) × (bytes : List ℕ) × (decode_tx C unsigned ≡ ok msg)
              × (C.serialize_message msg ≡ ok bytes)
              × Sent rpc_url key h bytes h')
            (λ e x. Unit {0})
    unfolding sign_and_send send_json_rpc record_signing assemble_wire_tx
    sign_and_send-Sent rpc_url unsigned key h =
        Ensures-bind (λ msg x. (decode_tx C unsigned ≡ ok msg) × At h x)
          (Ensures-lift _ (λ msg e x t. (e, t)) (λ _ _ x _. tt))
          λ msg.
            Ensures-given (λ x p. p)
              λ decoded.
                Ensures-bind (λ bytes x. (C.serialize_message msg ≡ ok bytes) × At h x)
                  (Ensures-lift _ (λ bytes e x t. (map_err-eq-ok _ _ e, t)) (λ _ _ x _. tt))
                  λ bytes.
                    Ensures-given (λ x p. p)
                      λ serialized.
                        Ensures-bind (λ v. At (h ++ signed bytes ∷ []))
                          (record { at = λ x e. ap (λ y. y ++ signed bytes ∷ []) e })
                          λ _.
                            Ensures-bind
                              (λ v. At (
                                (h ++ signed bytes ∷ [])
                                ++ posted rpc_url (sent_body key bytes) ∷ []))
                              (post-At rpc_url (sent_body key bytes) _)
                              (λ r.
                                Ensures-lift _
                                  (λ sig _ x e. (
                                    msg,
                                    bytes,
                                    decoded,
                                    serialized,
                                    e ∙ append_assoc h (signed bytes ∷ []) _,
                                  ))
                                  (λ _ _ x _. tt))

    module _ (E : Ed25519) (H : Hashing) where
      -- The signed bytes passed the check for the discriminator, and were sent.
      abbrev pub CheckedAndSent :
          String → C.Keypair → List ℕ → List (Event S) → List (Event S) → Type 0
      CheckedAndSent rpc_url key disc h h' =
          (bytes : List ℕ) × IsChecked S servers C E H disc bytes × Sent rpc_url key h bytes h'

      sending-Outcome :
          (Q Q' : String → List (Event S) → Type 0) (r : Result String TxError × List (Event S))
          → ((sig : String) (h : List (Event S)) → Q sig h → Q' sig h)
          → Outcome Q (λ e x. Unit {0}) r
          → Outcome Q' (λ e x. Unit {0}) (sending S servers C E H r)
      sending-Outcome Q Q' (ok sig, h) k o = k sig h o
      sending-Outcome Q Q' (err e, h) k o = tt

      assert_sign_send-Sent :
          (rpc_url unsigned : String) (disc : List ℕ) (key : C.Keypair) (h : List (Event S))
          → Ensures
              (At h)
              (assert_sign_send S servers C E H rpc_url unsigned disc key)
              (λ sig h'. CheckedAndSent rpc_url key disc h h')
              (λ e x. Unit {0})
      unfolding assert_sign_send
      assert_sign_send-Sent rpc_url unsigned disc key h =
          Ensures-bind
            (λ v x.
              (assert_expected C unsigned (program S servers C E H) (disc ∷ []) ≡ ok tt) × At h x)
            (Ensures-lift _ (λ v e x t. (map_err-eq-ok _ _ e, t)) (λ _ _ x _. tt))
            λ _.
              Ensures-given (λ x p. p)
                λ passed. record {
                  at = λ x t.
                      sending-Outcome _ _ (sign_and_send C S servers rpc_url unsigned key x)
                        (λ sig h' (msg, bytes, decoded, serialized, sent). (
                          bytes,
                          (
                            unsigned,
                            msg,
                            IsExpected-of_checked S servers C E H unsigned disc msg passed decoded,
                            serialized,
                          ),
                          sent,
                        ))
                        ((sign_and_send-Sent rpc_url unsigned key h).at x t);
                }

      module _ (cfg : WorkerCfg) (key : C.Keypair) (task_pda artifact : String)
          (meta : WorkerMeta) where
        abbrev claim_body : S.Value
        claim_body =
            json S (("taskPda", S.string task_pda) ∷ ("workerPubkey", S.string (C.pubkey key)) ∷ [])

        abbrev submit_body : S.Value
        submit_body = json S (
            ("taskPda", S.string task_pda)
            ∷ ("workerPubkey", S.string (C.pubkey key))
            ∷ ("proofHashHex", S.string (commitment S servers C E H key task_pda artifact meta))
            ∷ ("resultData", S.string (String.◌++◌ "artifact:sha256:" artifact))
            ∷ [])

        -- The claim was fetched, checked, signed and sent, and after it the submission, which carries the
        -- proof's commitment; the result names what was submitted.
        pub record Settled (h : List (Event S)) (submit : WorkerSubmit) (h' : List (Event S))
            : Type 0 where
          pub claimed : List (Event S)
          pub claim :
              CheckedAndSent cfg.rpc_url key claim_disc
                (h ++ posted (String.◌++◌ cfg.build_api_url "/build-claim-tx") claim_body ∷ [])
                claimed
          pub submission :
              CheckedAndSent cfg.rpc_url key submit_disc
                (claimed
                  ++ posted (String.◌++◌ cfg.build_api_url "/build-submit-tx") submit_body ∷ [])
                h'
          pub task : submit.task_pda ≡ task_pda
          pub proof : submit.proof_hash ≡ commitment S servers C E H key task_pda artifact meta
          pub result : submit.artifact_sha256 ≡ artifact

        pub worker_roundtrip-Ensures :
            (h : List (Event S))
            → Ensures
                (At h)
                (worker_roundtrip S servers C E H cfg key task_pda artifact meta)
                (Settled h)
                (λ e x. Unit {0})
        unfolding worker_roundtrip build_claim_tx build_submit_tx
        worker_roundtrip-Ensures h =
            Ensures-bind (λ v. At (h ++ posted _ claim_body ∷ []))
              (post_unsigned_tx-At cfg.build_api_url "/build-claim-tx" claim_body h)
              λ claim_tx.
                Ensures-bind
                  (λ sig x.
                    CheckedAndSent cfg.rpc_url key claim_disc (h ++ posted _ claim_body ∷ []) x)
                  (assert_sign_send-Sent cfg.rpc_url claim_tx claim_disc key _)
                  λ _. Ensures-from λ claimed done.
                    Ensures-bind (λ v. At (claimed ++ posted _ submit_body ∷ []))
                      (post_unsigned_tx-At cfg.build_api_url "/build-submit-tx" submit_body claimed)
                      λ submit_tx.
                        Ensures-bind
                          (λ sig x.
                            CheckedAndSent cfg.rpc_url key submit_disc
                              (claimed ++ posted _ submit_body ∷ []) x)
                          (assert_sign_send-Sent cfg.rpc_url submit_tx submit_disc key _)
                          (λ _. Ensures-pure _ (λ h' sent. record {
                            claimed = claimed;
                            claim = done;
                            submission = sent;
                            task = refl;
                            proof = refl;
                            result = refl;
                          }))

        -- Whatever the sidecar and the RPC answer: a round trip that succeeds has done this and no more. It
        -- fetched a claim, signed a message that passes the claim check and sent the transaction of that
        -- signature and that message; then it fetched a submission with the commitment to its proof and
        -- artifact, and did the same with a message that passes the submit check; and it returns the task, the
        -- commitment and the artifact.
        pub worker_roundtrip-Settled :
            (h : List (Event S)) (submit : WorkerSubmit)
            → (worker_roundtrip S servers C E H cfg key task_pda artifact meta h).0 ≡ ok submit
            → Settled h submit (worker_roundtrip S servers C E H cfg key task_pda artifact meta h).1
        worker_roundtrip-Settled h submit e =
            ok_of-Outcome (Settled h) (λ e x. Unit {0}) _ submit
              ((worker_roundtrip-Ensures h).at h refl) e
