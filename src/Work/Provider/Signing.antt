-- ===== src/Work/Provider/Signing.antt =====
-- What `register` of src/work.rs signs.
use nexus_client.Prelude.{◌≡◌, subst, List, [], ◌∷◌, String, Result, ok, err, All, map_err-eq-ok}
use nexus_client.External.Serde.{Serde}
use nexus_client.External.Solana.{Solana}
use nexus_client.Agenc.Net.{Event, signed, Servers, Keeps-post, Keeps-bind-lift, Keeps-bind}
use nexus_client.Agenc.Tx.{TxError, decode_tx, assert_expected, sign_and_send}
use nexus_client.Agenc.Tx.Sending.{sign_and_send-Keeps}
use nexus_client.Agenc.Tx.Guard.{IsExpected, assert_expected_iff}
use nexus_client.Work.Select.{WorkCfg}
use nexus_client.Work.Provider.{register_disc, expected_program, broadcast, register}

module _ (S : Serde) (servers : Servers S) (C : Solana) where
  -- The signed bytes are the serialization of a message that passed the check.
  abbrev pub IsRegistration : Event S → Type 0
  IsRegistration (signed bytes) =
      (unsigned : String) × (msg : C.Message) × IsExpected C unsigned (expected_program S servers C)
        (register_disc ∷ []) msg
      × (C.serialize_message msg ≡ ok bytes)
  IsRegistration _ = Unit

  broadcast-All :
      (r : Result String TxError × List (Event S))
      → All IsRegistration r.1
      → All IsRegistration (broadcast S servers C r).1
  broadcast-All (ok sig, h) k = k
  broadcast-All (err e, h) k = k

  IsExpected-of_registration :
      (unsigned : String) (msg : C.Message)
      → assert_expected C unsigned (expected_program S servers C) (register_disc ∷ []) ≡ ok tt
      → decode_tx C unsigned ≡ ok msg
      → IsExpected C unsigned (expected_program S servers C) (register_disc ∷ []) msg
  IsExpected-of_registration unsigned msg e decoded =
      let (m, h) =
        (assert_expected_iff C unsigned (expected_program S servers C) (register_disc ∷ [])).0 e in
      let same : m ≡ msg = cc (h.0, decoded) in
      subst (IsExpected C unsigned (expected_program S servers C) (register_disc ∷ [])) same h

  -- Whatever the sidecar and the RPC answer, `register` signs only the serialization of messages of
  -- transactions that pass the check with the `register_agent` discriminator.
  pub register-IsRegistration :
      (cfg : WorkCfg) (wallet : C.Keypair) (h : List (Event S))
      → All IsRegistration h
      → All IsRegistration (register S servers C cfg wallet h).1
  unfolding register
  register-IsRegistration cfg wallet =
      (Keeps-bind _ _ (Keeps-post servers _ _ tt) λ reply. Keeps-bind-lift _ _ λ unsigned _.
        Keeps-bind-lift _ _ λ _ e. record {
          at = λ h x. broadcast-All (sign_and_send C S servers cfg.rpc_url unsigned wallet h) (
              (sign_and_send-Keeps S servers C (λ u b. tt) cfg.rpc_url unsigned wallet
                  (λ msg bytes decoded serialized. (
                    unsigned,
                    msg,
                    IsExpected-of_registration unsigned msg (map_err-eq-ok _ _ e) decoded,
                    serialized,
                  ))).at
                h x);
        }).at
