-- ===== src/Work/Provider.antt =====
-- src/work.rs: `register` and `discover`.
pub mod Signing
use Prim.Native.String
use nexus_client.Prelude.{
  ℕ, Option, none, some, List, [], ◌∷◌, ◌++◌, String, Result, ok, err, map_err, ok_or, ok_and_then,
  and_then, unwrap_or, if◌then◌else◌,
}
use nexus_client.Text.{is_empty}
use nexus_client.External.Serde.{Serde, json}
use nexus_client.External.Http.{Reply, failed, answer, is_success}
use nexus_client.External.Solana.{Solana}
use nexus_client.Agenc.Net
use nexus_client.Agenc.Net.{Event, Servers, Act, lift, post, fetch, ◌>>=◌, ◌>>◌}
use nexus_client.Agenc.Tx.{TxError, assert_expected, sign_and_send}
use nexus_client.Agenc.Worker.{agenc_program}
use nexus_client.Work.Select.{WorkCfg}

abbrev pub register_disc : List ℕ
register_disc = 135 ∷ 157 ∷ 66 ∷ 195 ∷ 2 ∷ 113 ∷ 175 ∷ 30 ∷ []

-- The errors, which the source gives as texts with their context.
pub data ProviderError : Type 0 where
  request_failed : String → ProviderError
  bad_status : String → ℕ → String → ProviderError
  invalid_json : String → ProviderError
  missing_tx : String → ProviderError
  failed_check : TxError → ProviderError
  failed_send : TxError → ProviderError

module _ (S : Serde) where
  open S use {Value, get, as_str, as_array, from_str, string}

  -- The JSON of a successful answer.
  unfoldable pub read_json : String → Reply → Result (String × Value) ProviderError
  read_json url (failed e) = err (request_failed url)
  read_json url (answer status text) =
      if is_success status
      then ok_and_then (ok_or (from_str text) (invalid_json text)) (λ v. ok (text, v))
      else err (bad_status url status text)

  abbrev unsigned_of : String × Value → Result String ProviderError
  unsigned_of (text, v) = ok_or (and_then (get v "unsignedTxB64") as_str) (missing_tx text)

  abbrev jobs_of : String × Value → Result (List Value) ProviderError
  jobs_of (text, v) = ok (unwrap_or (and_then (get v "jobs") as_array) [])

  abbrev register_body : WorkCfg → String → Value
  register_body cfg worker_pubkey = json S (
      ("workerPubkey", string worker_pubkey)
      ∷ (if is_empty cfg.endpoint then [] else ("endpoint", string cfg.endpoint) ∷ []))

  module _ (servers : Servers S) where
    unfoldable pub discover : WorkCfg → Act S (List Value) ProviderError
    discover cfg = do
      let url = String.◌++◌ cfg.nexus_origin "/api/agenc/jobs?status=open"
      reply ← fetch servers url
      lift (ok_and_then (read_json url reply) jobs_of)

    module _ (C : Solana) where
      open C use {Keypair, pubkey, pubkey_from_str}

      -- The parsed program id; the source expects the constant to parse.
      unfoldable pub expected_program : List ℕ
      expected_program = unwrap_or (pubkey_from_str agenc_program) []

      -- The signature of the broadcast transaction is dropped.
      abbrev pub broadcast :
          Result String TxError × List (Event S) → Result (Unit {0}) ProviderError × List (Event S)
      broadcast (ok sig, h) = (ok tt, h)
      broadcast (err e, h) = (err (failed_send e), h)

      unfoldable pub register : WorkCfg → Keypair → Act S (Unit {0}) ProviderError
      register cfg wallet = do
        let url = String.◌++◌ cfg.build_api_url "/build-register-agent-tx"
        reply ← post servers url (register_body cfg (pubkey wallet))
        unsigned ← lift (ok_and_then (read_json url reply) unsigned_of)
        _ ← lift (
            map_err failed_check (assert_expected C unsigned expected_program (register_disc ∷ [])))
        λ h. broadcast (sign_and_send C S servers cfg.rpc_url unsigned wallet h)
