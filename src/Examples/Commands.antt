-- ===== src/Examples/Commands.antt =====
-- The commands `stake` and `work` and the printed amounts at concrete inputs.
use nexus_client.Prelude.{
  ℕ, ◌≡◌, refl, ℤ, true, false, Option, none, some, List, [], ◌∷◌, ◌++◌, String, ◌==◌, length, ok,
  err, All, eqb, arith, if◌then◌else◌,
}
use nexus_client.External.Serde.{Serde}
use nexus_client.External.Http.{answer}
use nexus_client.External.Spl.{Spl}
use nexus_client.Agenc.Net.{
  Event, Servers, ◌>>=◌, fetch, lift, via, post, post_as, pure, record_signing,
}
use nexus_client.Stake.Rpc.{
  parse_amount_str, parse_u64, parse_digits, some_digits, rpc_error, parse_blockhash,
  account_amount, sum_accounts, parse_token_balance, parse_send_sig, parse_signature_finalized,
  read_response, call, get_latest_blockhash, get_gnn_balance, send_transaction, poll_status,
  confirm_from, confirm_finalized,
}
use nexus_client.Stake.Transfer.{build_signed_stake_tx}
use nexus_client.WalletAuth.{body_of, get_wallet_jwt}
use nexus_client.Cli.Gateway.{gateway_json}
use nexus_client.Cli.Amount.{fmt_gnn, decimal, six_digits}
use nexus_client.Cli.Amount.Reading.{Prints, fmt_gnn-Prints}
use nexus_client.Cli.Stake.{
  chain_of, read_chain, check_balance, send_stake, record_stake, stake_flow,
}
use nexus_client.Cli.Stake.Covered.{IsAllowed, stake_flow-IsAllowed}
use nexus_client.Cli.Stake.Recorded.{Recorded, stake_flow-Recorded}
use nexus_client.Cli.Work.{Round, work_from}
use nexus_client.Cli.Work.Pace.{Rounds, work_from-Paced}
use nexus_client.Work.Provider.{register}
use nexus_client.Examples.Json.{
  sample_serde, Value, object, end, field, string, uint, bool, result_of, two_accounts,
}
use nexus_client.Examples.Parts.{
  sample_nonce, sample_base58, sample_ed25519, sample_hashing, sample_solana, sample_servers,
}
use nexus_client.Examples.Auth.{answers}
use nexus_client.Examples.Work.{cfg}

abbrev texts : String → Option Value
texts txt =
    if txt == "CONFIG"
    then some (object (field "gnn_mint" (string "mint") (field "treasury" (string "treasury") end)))
    else if txt == "BALANCE"
    then some (result_of two_accounts)
    else if txt == "BLOCKHASH"
    then some (result_of (object (field "blockhash" (string "hash") end)))
    else if txt == "STAKED"
    then some (object (field "staked_micros" (uint 5) (field "meets_minimum" (bool true) end)))
    else sample_serde.from_str txt

abbrev serde : Serde
serde = record sample_serde { from_str = texts }

abbrev pub spl : Spl sample_solana
spl = record {
  hash_from_str = λ s. some (1 ∷ []);
  owner_of = λ kp. kp;
  get_associated_token_address = λ owner mint. owner ++ mint;
  TokenInstruction = List ℕ;
  transfer_checked = λ src mint dst owner amount decimals. ok (amount ∷ decimals ∷ dst);
  message_data = λ ix payer blockhash. ix ++ blockhash;
  serialize_transaction = λ sig msg. ok msg;
}

-- The answers to the requests, by the number of events before them.
abbrev script : Servers serde
script h =
    if eqb (length h) 1
    then answer 200 "CONFIG"
    else if eqb (length h) 2
    then answer 200 "BALANCE"
    else if eqb (length h) 3
    then answer 200 "BLOCKHASH"
    else if eqb (length h) 5
    then answer 200 "RESULT"
    else if eqb (length h) 6
    then answer 200 "FINALIZED"
    else answer 200 "STAKED"

stake_flow-IsAllowed_example :
    All
      (IsAllowed serde sample_solana spl sample_base58 answers script "http://gw" "node"
        sample_nonce 5 none [])
      (stake_flow serde sample_solana spl sample_base58 answers script "http://gw" "node"
        sample_nonce 5 none []).1
stake_flow-IsAllowed_example =
    stake_flow-IsAllowed serde sample_solana spl sample_base58 answers script "http://gw" "node"
      sample_nonce 5 none [] tt

abbrev recorded_events : List (Event serde)
recorded_events =
    (stake_flow serde sample_solana spl sample_base58 answers script "http://gw" "node" sample_nonce
      5 none []).1

abbrev staked_value : Value
staked_value = object (field "staked_micros" (uint 5) (field "meets_minimum" (bool true) end))

stake_flow-Recorded_example :
    Recorded serde sample_solana spl sample_base58 answers script "http://gw" "node" sample_nonce 5
      none [] staked_value recorded_events
unfolding stake_flow read_chain gateway_json chain_of check_balance send_stake record_stake
    get_gnn_balance get_latest_blockhash send_transaction confirm_finalized confirm_from poll_status
    call read_response build_signed_stake_tx get_wallet_jwt body_of ◌>>=◌ fetch lift via post
    post_as pure record_signing parse_token_balance rpc_error sum_accounts account_amount
    parse_amount_str parse_u64 parse_digits some_digits parse_blockhash parse_send_sig
    parse_signature_finalized
stake_flow-Recorded_example =
    stake_flow-Recorded serde sample_solana spl sample_base58 answers script "http://gw" "node"
      sample_nonce 5 none [] {v = staked_value} {h' = recorded_events} refl

fmt_gnn-Prints_example : Prints (fmt_gnn (ℤ.negsuc 0)) (ℤ.negsuc 0)
fmt_gnn-Prints_example = fmt_gnn-Prints (ℤ.negsuc 0) (omega arith)

shows_gnn : fmt_gnn (ℤ.pos 12_000_345) ≡ "12.000345"
unfolding fmt_gnn decimal six_digits
shows_gnn = refl

shows_negative : fmt_gnn (ℤ.negsuc 0) ≡ "0.000001"
unfolding fmt_gnn decimal six_digits
shows_negative = refl

abbrev unstarted : Round sample_serde
unstarted = record {
  spawned = err "no such file";
  now = ℤ.pos 7;
  readings = [];
  sample = 3;
  interrupted = false;
}

work_from-Paced_example :
    Rounds sample_serde sample_servers sample_solana sample_base58 sample_ed25519 sample_hashing cfg
      sample_nonce
      (unstarted ∷ unstarted ∷ [])
      0
      (register sample_serde sample_servers sample_solana cfg sample_nonce []).1
      (work_from sample_serde sample_servers sample_solana sample_base58 sample_ed25519
        sample_hashing cfg sample_nonce
        (unstarted ∷ unstarted ∷ [])
        []).delays
      (work_from sample_serde sample_servers sample_solana sample_base58 sample_ed25519
        sample_hashing cfg sample_nonce
        (unstarted ∷ unstarted ∷ [])
        []).interrupted
      (work_from sample_serde sample_servers sample_solana sample_base58 sample_ed25519
        sample_hashing cfg sample_nonce
        (unstarted ∷ unstarted ∷ [])
        []).history
work_from-Paced_example =
    work_from-Paced sample_serde sample_servers sample_solana sample_base58 sample_ed25519
      sample_hashing cfg sample_nonce (unstarted ∷ unstarted ∷ []) []
