-- ===== src/Agenc/Tx.antt =====
-- agenc-worker/src/tx.rs: the check before signing, the signature and the broadcast.
pub mod Guard
pub mod Foreign
pub mod Sending
use Prim.Native.String
use nexus_client.Prelude.{
  map_err, ok_and_then, ok_or, and_then, ℕ, ◌<◌, Bool, true, false, Option, none, some, List, [],
  ◌∷◌, ◌++◌, String, Result, ok, err, length, take, get_elem?, ltb, not, bytes_eq, contains_bytes,
  if◌then◌else◌,
}
use nexus_client.Text.{trim}
use nexus_client.External.Serde.{Serde, json}
use nexus_client.External.Http.{Reply, failed, answer}
use nexus_client.External.Solana.{Solana, Instruction}
use nexus_client.Agenc.Net
use nexus_client.Agenc.Net.{Servers, Act, lift, pure, post, record_signing, ◌>>=◌, ◌>>◌}

pub data TxError : Type 0 where
  base64 : String → TxError
  deserialize : String → TxError
  program_absent : TxError
  bad_discriminator : List ℕ → TxError
  short_data : TxError
  http : String → TxError
  rpc : String → TxError

-- What one instruction adds to `saw_agenc`, by its program's key.
check_ix : Option (List ℕ) → List ℕ → List (List ℕ) → List ℕ → Bool → Result Bool TxError
check_ix none program expected data_ saw = err (deserialize "program_id_index out of range")
check_ix (some prog) program expected data_ saw =
    if not (bytes_eq prog program)
    then ok saw
    else if ltb (length data_) 8
    then err short_data
    else if not (contains_bytes expected (take 8 data_))
    then err (bad_discriminator (take 8 data_))
    else ok true

-- The loop over the instructions.
pub check_all :
    List (List ℕ) → List ℕ → List (List ℕ) → List Instruction → Bool → Result Bool TxError
unfolding check_ix
check_all keys program expected [] saw = ok saw
check_all keys program expected (ix ∷ ixs) saw =
    ok_and_then
      (check_ix (get_elem? keys ix.program_id_index) program expected ix.instruction_data saw)
      (check_all keys program expected ixs)

abbrev require_seen : Bool → Result (Unit {0}) TxError
require_seen true = ok tt
require_seen false = err program_absent

module _ (C : Solana) where
  open C use {
    Message, account_keys, instructions, serialize_message, base64_decode, base64_encode, Keypair,
    sign_message,
  }

  -- The base64 and bincode decoding that `assert_expected` and `sign_and_send` both begin with.
  unfoldable pub decode_tx : String → Result Message TxError
  decode_tx unsigned_tx_b64 =
      ok_and_then (map_err base64 (base64_decode (trim unsigned_tx_b64)))
        (λ raw. map_err deserialize (C.deserialize raw))

  unfoldable pub assert_expected : String → List ℕ → List (List ℕ) → Result (Unit {0}) TxError
  unfolding check_all
  assert_expected unsigned_tx_b64 program expected = ok_and_then (decode_tx unsigned_tx_b64) (λ msg.
      ok_and_then (check_all (account_keys msg) program expected (instructions msg) false)
        require_seen)

  unfoldable pub assemble_wire_tx : List ℕ → List ℕ → List ℕ
  assemble_wire_tx sig message_bytes = 1 ∷ (sig ++ message_bytes)

  module _ (S : Serde) (servers : Servers S) where
    open S use {Value, get, as_str, from_str, to_string, string, uint, array}

    -- How the answer of `sendTransaction` is read: any `error` member is an error, a null one too.
    read_rpc : Value → Result String TxError
    read_rpc v = elim (get v "error") [
      | some e ↦ err (rpc (to_string e))
      | none ↦
          ok_or (and_then (get v "result") as_str)
            (rpc (String.◌++◌ "no result in response: " (to_string v)))
    ]

    read_reply : Reply → Result String TxError
    unfolding read_rpc
    read_reply (failed e) = err (http e)
    read_reply (answer status body) =
        ok_and_then (ok_or (from_str body) (http "error decoding response body")) read_rpc

    abbrev pub send_body : String → Value
    send_body signed_tx_b64 = json S (
        ("jsonrpc", string "2.0")
        ∷ ("id", uint 1)
        ∷ ("method", string "sendTransaction")
        ∷ (
          "params",
          array (string signed_tx_b64 ∷ json S (("encoding", string "base64") ∷ []) ∷ []),
        )
        ∷ [])

    unfoldable pub send_json_rpc : String → String → Act S String TxError
    unfolding read_reply
    send_json_rpc rpc_url signed_tx_b64 = do
      reply ← post servers rpc_url (send_body signed_tx_b64)
      lift (read_reply reply)

    -- The signature over the message's bytes is the only one made.
    unfoldable pub sign_and_send : String → String → Keypair → Act S String TxError
    sign_and_send rpc_url unsigned_tx_b64 key = do
      msg ← lift (decode_tx unsigned_tx_b64)
      message_bytes ← lift (map_err deserialize (serialize_message msg))
      record_signing message_bytes
      send_json_rpc rpc_url
          (base64_encode (assemble_wire_tx (sign_message key message_bytes) message_bytes))
