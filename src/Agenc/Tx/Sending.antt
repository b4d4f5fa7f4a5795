-- ===== src/Agenc/Tx/Sending.antt =====
-- What agenc-worker/src/tx.rs `sign_and_send` does to a property of the events.
use nexus_client.Prelude.{ℕ, ◌≡◌, List, String, ok, map_err-eq-ok}
use nexus_client.External.Serde.{Serde}
use nexus_client.External.Solana.{Solana}
use nexus_client.Agenc.Net.{
  Event, posted, signed, Servers, Keeps, Keeps-lift, Keeps-post, Keeps-record_signing,
  Keeps-bind-lift, Keeps-bind,
}
use nexus_client.Agenc.Tx.{decode_tx, sign_and_send, send_json_rpc}

module _ (S : Serde) (servers : Servers S) (C : Solana) {P : Event S → Type 0}
    (harmless : (url : String) (body : S.Value) → P (posted url body)) where
  send_json_rpc-Keeps : (url tx : String) → Keeps P (send_json_rpc C S servers url tx)
  unfolding send_json_rpc
  send_json_rpc-Keeps url tx =
      Keeps-bind _ _ (Keeps-post servers url _ (harmless url _)) (λ r. Keeps-lift _)

  -- `sign_and_send` signs only the serialization of the message that the text decodes to.
  pub sign_and_send-Keeps :
      (url unsigned : String) (key : C.Keypair)
      → ((msg : C.Message) (bytes : List ℕ)
          → decode_tx C unsigned ≡ ok msg
          → C.serialize_message msg ≡ ok bytes
          → P (signed bytes))
      → Keeps P (sign_and_send C S servers url unsigned key)
  unfolding sign_and_send
  sign_and_send-Keeps url unsigned key k = Keeps-bind-lift (decode_tx C unsigned) _ λ msg decoded.
      Keeps-bind-lift _ _ λ bytes e.
        Keeps-bind _ _ (Keeps-record_signing bytes (k msg bytes decoded (map_err-eq-ok _ _ e)))
          (λ _. send_json_rpc-Keeps url _)
