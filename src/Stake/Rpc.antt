-- ===== src/Stake/Rpc.antt =====
-- src/solana_stake.rs: the parsers of the responses, and `Rpc`.

use nexus_client.Prelude.{
  ℕ, zero, suc, ◌+◌, ◌*◌, ◌-◌, ◌^◌, ℤ, Bool, true, false, Option, none, some, List, [], ◌∷◌, ◌++◌,
  String, code, Result, ok, err, ltb, leb, eqb, ◌&&◌, ◌==◌, and_then, unwrap_or, ok_or, ok_and_then,
  if◌then◌else◌,
}
use mathlib.Core.Option
use nexus_client.External.Serde.{Serde, json}
use nexus_client.External.Http.{Reply, failed, answer, is_success}
use nexus_client.Protocol.Sse.{first}
use nexus_client.Agenc.Net.{Event, slept, Servers, Act, lift, post, ◌>>=◌}

-- The errors, which the source gives as texts.
pub data StakeError : Type 0 where
  rpc : Option ℤ → String → StakeError
  missing : String → StakeError
  invalid_amount : String → StakeError
  overflow : StakeError
  failed_on_chain : String → StakeError
  request_failed : String → String → StakeError
  bad_status : String → ℕ → String → StakeError
  invalid_json : String → String → StakeError
  still_pending : String → StakeError

-- `str::parse::<u64>`, behind an optional `+`
unfoldable pub parse_digits : ℕ → String → Option ℕ
parse_digits acc String.[] = some acc
parse_digits acc (String.◌∷◌ c s) =
    let acc' = acc * 10 + (code c - b'0') in
    let rest = parse_digits acc' s in
    if leb b'0' (code c) && leb (code c) b'9' && ltb acc' (2 ^ 64) then rest else none

unfoldable pub some_digits : String → Option ℕ
unfolding parse_digits
some_digits String.[] = none
some_digits (String.◌∷◌ c s) = parse_digits 0 (String.◌∷◌ c s)

unfoldable pub parse_u64 : String → Option ℕ
unfolding some_digits
parse_u64 String.[] = none
parse_u64 (String.◌∷◌ c s) =
    if eqb (code c) b'+' then some_digits s else some_digits (String.◌∷◌ c s)

unfoldable pub parse_amount_str : String → Result ℕ StakeError
parse_amount_str s = ok_or (parse_u64 s) (invalid_amount s)

abbrev pub max_attempts : ℕ
max_attempts = 30

module _ (S : Serde) where
  open S use {
    Value, get, as_str, as_i64, as_array, is_null, from_str, to_string, string, uint, bool, array,
  }

  -- `.filter(|e| !e.is_null())`
  abbrev pub not_null : Option Value → Option Value
  not_null none = none
  not_null (some v) = if is_null v then none else some v

  unfoldable pub rpc_error : Value → Option StakeError
  rpc_error v =
      Option.map
        (λ e.
          rpc (and_then (get e "code") as_i64)
            (unwrap_or (and_then (get e "message") as_str) "unknown RPC error"))
        (not_null (get v "error"))

  -- `if let Some(err) = rpc_error(v) { return Err(err) }`
  abbrev pub unless_error :
      {A : Type 0} → Option StakeError → Result A StakeError → Result A StakeError
  unless_error none r = r
  unless_error (some e) r = err e

  abbrev result_value : Value → Option Value
  result_value v = and_then (get v "result") λ r. get r "value"

  unfoldable pub parse_blockhash : Value → Result String StakeError
  parse_blockhash v = unless_error (rpc_error v) (
      ok_or (and_then (result_value v) λ val. and_then (get val "blockhash") as_str)
        (missing "getLatestBlockhash: missing result.value.blockhash"))

  -- one account of `getTokenAccountsByOwner`
  unfoldable pub account_amount : Value → Result ℕ StakeError
  account_amount acct =
      ok_and_then
        (ok_or
          (and_then (get acct "account") λ a. and_then (get a "data") λ d.
            and_then (get d "parsed") λ p.
              and_then (get p "info")
                λ i. and_then (get i "tokenAmount") λ t. and_then (get t "amount") as_str)
          (missing "token balance: missing account.data.parsed.info.tokenAmount.amount"))
        parse_amount_str

  unfoldable pub sum_accounts : List Value → ℕ → Result ℕ StakeError
  sum_accounts [] total = ok total
  sum_accounts (acct ∷ accounts) total = ok_and_then (account_amount acct) λ raw.
      let rest = sum_accounts accounts (total + raw) in
      if ltb (total + raw) (2 ^ 64) then rest else err overflow

  abbrev balance_of_accounts : Option (List Value) → Result ℕ StakeError
  balance_of_accounts none =
      err (missing "token balance: result.value is neither an amount object nor an account array")
  balance_of_accounts (some accounts) = sum_accounts accounts 0

  abbrev balance_of_amount : Option String → Value → Result ℕ StakeError
  balance_of_amount (some amount) value = parse_amount_str amount
  balance_of_amount none value = balance_of_accounts (as_array value)

  unfoldable pub parse_token_balance : Value → Result ℕ StakeError
  parse_token_balance v = unless_error (rpc_error v) (
      ok_and_then (ok_or (result_value v) (missing "token balance: missing result.value"))
        (λ value. balance_of_amount (and_then (get value "amount") as_str) value))

  unfoldable pub parse_send_sig : Value → Result String StakeError
  parse_send_sig v = unless_error (rpc_error v) (
      ok_or (and_then (get v "result") as_str)
        (missing "sendTransaction: result is not a signature string"))

  abbrev pub status_of : Option Value → Value → Result Bool StakeError
  status_of (some e) status = err (failed_on_chain (to_string e))
  status_of none status =
      ok (unwrap_or (and_then (get status "confirmationStatus") as_str) "" == "finalized")

  unfoldable pub parse_signature_finalized : Value → Result Bool StakeError
  parse_signature_finalized v = unless_error (rpc_error v) (
      ok_and_then
        (ok_or (and_then (result_value v) λ val. and_then (as_array val) λ arr. first arr)
          (missing "getSignatureStatuses: missing result.value[0]"))
        (λ status.
          if is_null status then ok false else status_of (not_null (get status "err")) status))

  -- How the answer to a request is read.
  unfoldable pub read_response : String → Reply → Result Value StakeError
  read_response method (failed e) = err (request_failed method e)
  read_response method (answer status text) =
      if is_success status
      then ok_or (from_str text) (invalid_json method text)
      else err (bad_status method status text)

  unfoldable pub request_body : String → Value → Value
  request_body method params = json S (
      ("jsonrpc", string "2.0")
      ∷ ("id", uint 1)
      ∷ ("method", string method)
      ∷ ("params", params)
      ∷ [])

  module _ (servers : Servers S) (url : String) where
    unfoldable pub call : String → Value → Act S Value StakeError
    call method params = do
      reply ← post servers url (request_body method params)
      lift (read_response method reply)

    unfoldable pub get_latest_blockhash : Act S String StakeError
    get_latest_blockhash = do
      v ← call "getLatestBlockhash" (array (json S (("commitment", string "finalized") ∷ []) ∷ []))
      lift (parse_blockhash v)

    unfoldable pub get_gnn_balance : String → String → Act S ℕ StakeError
    get_gnn_balance owner mint = do
      v ← call "getTokenAccountsByOwner" (
          array (
            string owner
            ∷ json S (("mint", string mint) ∷ [])
            ∷ json S (("encoding", string "jsonParsed") ∷ ("commitment", string "confirmed") ∷ [])
            ∷ []))
      lift (parse_token_balance v)

    unfoldable pub send_transaction : String → Act S String StakeError
    send_transaction b64 = do
      v ← call "sendTransaction" (
          array (
            string b64
            ∷ json S (
                ("encoding", string "base64")
                ∷ ("skipPreflight", bool false)
                ∷ ("preflightCommitment", string "confirmed")
                ∷ [])
            ∷ []))
      lift (parse_send_sig v)

    abbrev pub statuses_params : String → Value
    statuses_params sig =
        array (array (string sig ∷ []) ∷ json S (("searchTransactionHistory", bool true) ∷ []) ∷ [])

    -- One round of the wait.
    unfoldable pub poll_status : String → Act S Bool StakeError
    poll_status sig = do
      v ← call "getSignatureStatuses" (statuses_params sig)
      lift (parse_signature_finalized v)

    -- Before the next round, unless it was the last one, the client sleeps.
    abbrev pub next_poll :
        Result Bool StakeError × List (Event S)
        → ℕ
        → Act S (Unit {0}) StakeError
        → Result (Unit {0}) StakeError × List (Event S)
    next_poll (err e, h) left rest = (err e, h)
    next_poll (ok true, h) left rest = (ok tt, h)
    next_poll (ok false, h) zero rest = rest h
    next_poll (ok false, h) (suc left) rest = rest (h ++ slept 2 ∷ [])

    unfoldable pub confirm_from : ℕ → String → Act S (Unit {0}) StakeError
    confirm_from zero sig h = (err (still_pending sig), h)
    confirm_from (suc left) sig h = next_poll (poll_status sig h) left (confirm_from left sig)

    unfoldable pub confirm_finalized : String → Act S (Unit {0}) StakeError
    confirm_finalized sig = confirm_from max_attempts sig
