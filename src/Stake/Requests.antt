-- ===== src/Stake/Requests.antt =====
-- What the JSON-RPC client of src/solana_stake.rs adds to the history: requests and pauses.
use nexus_client.Prelude.{
  ℕ, zero, suc, Bool, true, false, String, Result, ok, err, All, All-append, List,
}
use nexus_client.External.Serde.{Serde}
use nexus_client.Agenc.Net.{
  Event, posted, slept, Servers, Act, Keeps, Keeps-lift, Keeps-bind, Keeps-post,
}
use nexus_client.Stake.Rpc.{StakeError, call, poll_status, next_poll, confirm_from}

module _ {S : Serde} (servers : Servers S) (P : Event S → Type 0)
    (posts : (url : String) (body : S.Value) → P (posted url body))
    (sleeps : (n : ℕ) → P (slept n)) where
  module _ (url : String) where
    pub Keeps-call :
        (method : String) (params : S.Value) → Keeps P (call S servers url method params)
    unfolding call
    Keeps-call method params =
        Keeps-bind _ _ (Keeps-post servers url _ (posts _ _)) λ reply. Keeps-lift _

    next_poll-All :
        (sig : String) (r : Result Bool StakeError × List (Event S)) (left : ℕ)
        (rest : Act S (Unit {0}) StakeError)
        → All P r.1
        → Keeps P rest
        → All P (next_poll S servers url r left rest).1
    next_poll-All sig (err e, h) left rest x k = x
    next_poll-All sig (ok true, h) left rest x k = x
    next_poll-All sig (ok false, h) zero rest x k = k.at h x
    next_poll-All sig (ok false, h) (suc left) rest x k = k.at _ (All-append P h _ x (sleeps 2, tt))

    pub Keeps-confirm_from : (n : ℕ) (sig : String) → Keeps P (confirm_from S servers url n sig)
    unfolding confirm_from poll_status
    Keeps-confirm_from zero sig = record { at = λ h x. x }
    Keeps-confirm_from (suc left) sig = record {
      at = λ h x.
          next_poll-All sig _ left _
            ((Keeps-bind _ _ (Keeps-call "getSignatureStatuses" _) λ v. Keeps-lift _).at h x)
            (Keeps-confirm_from left sig);
    }
