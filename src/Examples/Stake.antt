-- ===== src/Examples/Stake.antt =====
-- The stake client at concrete inputs.
use nexus_client.Prelude.{
  ℕ, ◌≡◌, ◌<◌, ◌^◌, ◌↔◌, refl, List, [], ◌∷◌, ok, some, eqb, length, ◌==◌, arith, if◌then◌else◌,
}
use nexus_client.External.Serde.{Serde}
use nexus_client.External.Http.{answer}
use nexus_client.Agenc.Net.{Servers}
use nexus_client.Stake.Rpc.{parse_token_balance, confirm_finalized}
use nexus_client.Stake.Balance.{sum, Amounts, parse_token_balance_iff}
use nexus_client.Stake.Finality.{Waited, confirm_finalized-Waited}
use nexus_client.Stake.Liveness.{confirm_finalized_lem}
use nexus_client.Examples.Json.{
  sample_serde, result_of, account_of, two_accounts, object, end, field, array, cons, nil, null,
}

parse_token_balance_iff_example :
    (parse_token_balance sample_serde (result_of two_accounts) ≡ ok 7) ↔ (
      (ns : List ℕ) × Amounts sample_serde (account_of "3" ∷ account_of "+4" ∷ []) ns
      × (7 ≡ sum ns)
      × (7 < 2 ^ 64))
unfolding nexus_client.Stake.Rpc.rpc_error
parse_token_balance_iff_example =
    parse_token_balance_iff sample_serde (result_of two_accounts)
      (object (field "value" two_accounts end)) two_accounts (account_of "3" ∷ account_of "+4" ∷ [])
      7 refl refl refl refl refl

abbrev finalized_servers : Servers sample_serde
finalized_servers h = answer 200 "FINALIZED"

confirm_finalized-Waited_example :
    Waited sample_serde finalized_servers "http://rpc" "sig" [] 59
      (confirm_finalized sample_serde finalized_servers "http://rpc" "sig" [])
confirm_finalized-Waited_example =
    confirm_finalized-Waited sample_serde finalized_servers "http://rpc" "sig" []

confirms_at_once :
    (confirm_finalized sample_serde finalized_servers "http://rpc" "sig" []).0 ≡ ok tt
unfolding confirm_finalized nexus_client.Stake.Rpc.confirm_from nexus_client.Stake.Rpc.poll_status
    nexus_client.Agenc.Net.◌>>=◌ nexus_client.Stake.Rpc.call nexus_client.Agenc.Net.post
    nexus_client.Agenc.Net.lift nexus_client.Stake.Rpc.read_response
    nexus_client.Stake.Rpc.parse_signature_finalized nexus_client.Stake.Rpc.rpc_error
confirms_at_once = refl

abbrev pending_serde : Serde
pending_serde = record sample_serde {
  from_str = λ txt.
      if txt == "PENDING"
      then some (result_of (array (cons null nil)))
      else sample_serde.from_str txt;
}

-- Pending at first, then finalized.
abbrev slow_servers : Servers pending_serde
slow_servers h = if eqb (length h) 1 then answer 200 "PENDING" else answer 200 "FINALIZED"

confirm_finalized_lem_example :
    (confirm_finalized pending_serde slow_servers "http://rpc" "sig" []).0 ≡ ok tt
unfolding nexus_client.Stake.Rpc.read_response nexus_client.Stake.Rpc.parse_signature_finalized
    nexus_client.Stake.Rpc.rpc_error
confirm_finalized_lem_example =
    confirm_finalized_lem pending_serde slow_servers "http://rpc" "sig" 1 [] (omega arith)
      (refl, refl)
