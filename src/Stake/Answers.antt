-- ===== src/Stake/Answers.antt =====
-- What the requests of src/solana_stake.rs `Rpc` that succeed have asked, and what was answered.
use mathlib.Core.List.{append-nil, append_assoc}
use nexus_client.Prelude.{
  ℕ, zero, suc, ◌≡◌, sym, subst, ap, ◌∙◌, Bool, true, false, some, List, [], ◌∷◌, ◌++◌, String,
  Result, ok, err, and_then, ok_or-eq-ok,
}
use nexus_client.External.Serde.{Serde, json}
use nexus_client.External.Http.{Reads}
use nexus_client.Agenc.Net.{Event, posted, slept, Servers, Act, lift, ◌>>=◌}
use nexus_client.Agenc.Net.Inversion.{bind-eq-ok, lift-eq-ok, post-eq-ok}
use nexus_client.Stake.Rpc.{
  StakeError, rpc_error, parse_blockhash, parse_token_balance, parse_send_sig, request_body, call,
  get_latest_blockhash, get_gnn_balance, send_transaction, next_poll, confirm_from,
  confirm_finalized, max_attempts,
}
use nexus_client.Stake.Finalized.{Lacks, unless_error-eq-ok, rpc_error-eq-none, read_response-eq-ok}
use nexus_client.Stake.Finality.{poll_status-eq, asked, answered}

module _ (S : Serde) (servers : Servers S) (url : String) where
  open S use {Value, get, as_str, string, uint, bool, array}

  -- One JSON-RPC 2.0 request was posted, and the answer is a success whose text parses to this value.
  abbrev pub Asked : String → Value → List (Event S) → List (Event S) → Value → Type 0
  Asked method params h h' v =
      (h'
        ≡ h
          ++ posted url (
              json S (
                ("jsonrpc", string "2.0")
                ∷ ("id", uint 1)
                ∷ ("method", string method)
                ∷ ("params", params)
                ∷ []))
            ∷ [])
      × Reads S.from_str (servers h') v

  -- A request whose answer is then parsed.
  call-Asked :
      {A : Type 0} (method : String) (params : Value) (f : Value → Result A StakeError)
      (h : List (Event S)) {a : A} {h' : List (Event S)}
      → (call S servers url method params >>= λ v. lift (f v)) h ≡ (ok a, h')
      → (v : Value) × Asked method params h h' v × (f v ≡ ok a)
  unfolding call request_body
  call-Asked method params f h {h'} e =
      let (v, h1, called, e1) = bind-eq-ok _ _ h e in
      let (parsed, last) = lift-eq-ok _ h1 e1 in
      let (reply, h2, sent, e2) = bind-eq-ok _ _ h called in
      let (read, same) = lift-eq-ok _ h2 e2 in
      let (here, got) = post-eq-ok servers url _ h sent in
      (
        v,
        (
          sym last ∙ sym same ∙ here,
          subst (λ r. Reads S.from_str r v) (sym got ∙ ap servers same ∙ ap servers last)
              (read_response-eq-ok S method reply v read),
        ),
        parsed,
      )

  -- The blockhash that the node named.
  abbrev pub Fresh : List (Event S) → List (Event S) → String → Type 0
  Fresh h h' blockhash =
      (v : Value) × Asked "getLatestBlockhash"
        (array (json S (("commitment", string "finalized") ∷ []) ∷ [])) h h' v
      × Lacks S v "error"
      × ((and_then (and_then (get v "result") λ r. get r "value")
            λ val. and_then (get val "blockhash") as_str)
          ≡ some blockhash)

  pub get_latest_blockhash-Fresh :
      (h : List (Event S)) {b : String} {h' : List (Event S)}
      → get_latest_blockhash S servers url h ≡ (ok b, h')
      → Fresh h h' b
  unfolding get_latest_blockhash parse_blockhash
  get_latest_blockhash-Fresh h e =
      let (v, asks, parsed) = call-Asked _ _ _ h e in
      let (clean, found) = unless_error-eq-ok S (rpc_error S v) _ parsed in
      (v, asks, rpc_error-eq-none S v clean, ok_or-eq-ok _ _ found)

  -- The signature that the node gave the submitted transaction.
  abbrev pub Submitted : String → List (Event S) → List (Event S) → String → Type 0
  Submitted b64 h h' sig =
      (v : Value) × Asked "sendTransaction"
        (array (
          string b64
          ∷ json S (
              ("encoding", string "base64")
              ∷ ("skipPreflight", bool false)
              ∷ ("preflightCommitment", string "confirmed")
              ∷ [])
          ∷ []))
        h h' v
      × Lacks S v "error"
      × (and_then (get v "result") as_str ≡ some sig)

  pub send_transaction-Submitted :
      (b64 : String) (h : List (Event S)) {sig : String} {h' : List (Event S)}
      → send_transaction S servers url b64 h ≡ (ok sig, h')
      → Submitted b64 h h' sig
  unfolding send_transaction parse_send_sig
  send_transaction-Submitted b64 h e =
      let (v, asks, parsed) = call-Asked _ _ _ h e in
      let (clean, found) = unless_error-eq-ok S (rpc_error S v) _ parsed in
      (v, asks, rpc_error-eq-none S v clean, ok_or-eq-ok _ _ found)

  -- The balance that the node answered for the owner's accounts of the mint.
  abbrev pub Balanced : String → String → List (Event S) → List (Event S) → ℕ → Type 0
  Balanced owner mint h h' balance =
      (v : Value) × Asked "getTokenAccountsByOwner"
        (array (
          string owner
          ∷ json S (("mint", string mint) ∷ [])
          ∷ json S (("encoding", string "jsonParsed") ∷ ("commitment", string "confirmed") ∷ [])
          ∷ []))
        h h' v
      × (parse_token_balance S v ≡ ok balance)

  pub get_gnn_balance-Balanced :
      (owner mint : String) (h : List (Event S)) {n : ℕ} {h' : List (Event S)}
      → get_gnn_balance S servers url owner mint h ≡ (ok n, h')
      → Balanced owner mint h h' n
  unfolding get_gnn_balance
  get_gnn_balance-Balanced owner mint h e = call-Asked _ _ _ h e

  -- The wait only adds to the history.
  abbrev Behind : List (Event S) → List (Event S) → Type 0
  Behind h h' = (waited : List (Event S)) × (h' ≡ h ++ waited)

  Behind-trans :
      (h : List (Event S)) (e : Event S) (h' : List (Event S))
      → Behind (h ++ e ∷ []) h'
      → Behind h h'
  Behind-trans h e h' (rest, same) = (e ∷ rest, same ∙ append_assoc h (e ∷ []) rest)

  module _ (sig : String) where
    next_poll-Behind :
        (r : Result Bool StakeError) (h : List (Event S)) (left : ℕ)
        (rest : Act S (Unit {0}) StakeError)
        → ((x : List (Event S)) → Behind x (rest x).1)
        → Behind h (next_poll S servers url (r, h) left rest).1
    next_poll-Behind (err e) h left rest k = ([], sym (append-nil h))
    next_poll-Behind (ok true) h left rest k = ([], sym (append-nil h))
    next_poll-Behind (ok false) h zero rest k = k h
    next_poll-Behind (ok false) h (suc left) rest k = Behind-trans h (slept 2) _ (k _)

    confirm_from-Behind :
        (n : ℕ) (h : List (Event S)) → Behind h (confirm_from S servers url n sig h).1
    unfolding confirm_from
    confirm_from-Behind zero h = ([], sym (append-nil h))
    confirm_from-Behind (suc left) h = rw (poll_status-eq S servers url sig h) (
        Behind-trans h _ _ (
          next_poll-Behind (answered S servers url sig (servers (asked S servers url sig h)))
            (asked S servers url sig h) left _ (confirm_from-Behind left)))

    pub confirm_finalized-Behind :
        (h : List (Event S))
        → (waited : List (Event S)) × ((confirm_finalized S servers url sig h).1 ≡ h ++ waited)
    unfolding confirm_finalized
    confirm_finalized-Behind h = confirm_from-Behind max_attempts h
