-- ===== src/Stake/Finality.antt =====
-- What a confirmed signature means and how long the wait is, src/solana_stake.rs `confirm_finalized`.
use nexus_client.Prelude.{
  ℕ, zero, suc, ◌+◌, ◌*◌, ◌≡◌, ◌≤◌, refl, Bool, true, false, List, [], ◌∷◌, ◌++◌, String, arith,
  length, length-append, Result, ok, err, ok_and_then, sym,
}
use nexus_client.External.Serde.{Serde, json}
use nexus_client.External.Http.{Reply}
use nexus_client.Agenc.Net.{Event, posted, slept, Servers, Act, lift, post, ◌>>=◌, bind-lift}
use nexus_client.Stake.Rpc.{
  StakeError, read_response, parse_signature_finalized, request_body, call, statuses_params,
  poll_status, next_poll, confirm_from, confirm_finalized, max_attempts,
}
use nexus_client.Stake.Finalized.{IsFinalized, IsFinalized-of_answered}

module _ (S : Serde) (servers : Servers S) (url sig : String) where
  -- The history with one more request for the status.
  abbrev pub asked : List (Event S) → List (Event S)
  asked h =
      h
      ++ posted url (request_body S "getSignatureStatuses" (statuses_params S servers url sig)) ∷ []

  length-asked : (h : List (Event S)) → length (asked h) ≡ length h + 1
  length-asked h = length-append h _

  -- What the answer to that request says.
  abbrev pub answered : Reply → Result Bool StakeError
  answered reply =
      ok_and_then (read_response S "getSignatureStatuses" reply) (parse_signature_finalized S)

  pub poll_status-eq :
      (h : List (Event S))
      → poll_status S servers url sig h ≡ (answered (servers (asked h)), asked h)
  unfolding poll_status call ◌>>=◌ post lift
  poll_status-eq h =
      bind-lift (read_response S "getSignatureStatuses" (servers (asked h)))
        (parse_signature_finalized S) (asked h)

  -- The last thing done was a request for the status of this signature, and its answer is `finalized`.
  abbrev pub Confirmed : List (Event S) → Type 0
  Confirmed h' =
      (h : List (Event S)) × (h'
        ≡ h
          ++ posted url (
              json S (
                ("jsonrpc", S.string "2.0")
                ∷ ("id", S.uint 1)
                ∷ ("method", S.string "getSignatureStatuses")
                ∷ (
                  "params",
                  S.array (
                      S.array (S.string sig ∷ [])
                      ∷ json S (("searchTransactionHistory", S.bool true) ∷ [])
                      ∷ []),
                )
                ∷ []))
            ∷ [])
      × IsFinalized S (servers h')

  -- The rounds that are left add at most so many events: a request each, and a pause between two.
  abbrev steps : ℕ → ℕ
  steps zero = 0
  steps (suc left) = 2 * left + 1

  -- A wait that added at most `n` events, and that confirms only what is finalized.
  abbrev pub Waited : List (Event S) → ℕ → Result (Unit {0}) StakeError × List (Event S) → Type 0
  Waited h n r = (length r.1 ≤ length h + n) × (r.0 ≡ ok tt → Confirmed r.1)

  next_poll-Waited :
      (r : Result Bool StakeError) (h : List (Event S)) (left : ℕ)
      (rest : Act S (Unit {0}) StakeError)
      → r ≡ answered (servers (asked h))
      → ((h' : List (Event S)) → Waited h' (steps left) (rest h'))
      → Waited h (steps (suc left)) (next_poll S servers url (r, asked h) left rest)
  unfolding request_body
  next_poll-Waited (err e) h left rest same k = (omega (arith, length-asked h), λ e'. cc)
  next_poll-Waited (ok true) h left rest same k =
      (omega (arith, length-asked h), λ _. (h, refl, IsFinalized-of_answered S _ (sym same)))
  next_poll-Waited (ok false) h zero rest same k =
      (omega (arith, length-asked h, (k (asked h)).0), (k (asked h)).1)
  next_poll-Waited (ok false) h (suc left) rest same k =
      let h' = asked h ++ slept 2 ∷ [] in
      (omega (arith, length-asked h, length-append (asked h) (slept 2 ∷ []), (k h').0), (k h').1)

  confirm_from-Waited :
      (n : ℕ) (h : List (Event S)) → Waited h (steps n) (confirm_from S servers url n sig h)
  unfolding confirm_from
  confirm_from-Waited zero h = (omega arith, λ e. cc)
  confirm_from-Waited (suc left) h =
      rw (poll_status-eq h)
        (next_poll-Waited (answered (servers (asked h))) h left _ refl (confirm_from-Waited left))

  -- Whatever the RPC answers, the wait ends after at most 59 further events (its requests and pauses), and
  -- if it succeeds then its last step was a request for the signature's status, whose answer carries no
  -- error and the confirmation status `finalized`.
  pub confirm_finalized-Waited :
      (h : List (Event S)) → Waited h 59 (confirm_finalized S servers url sig h)
  unfolding confirm_finalized
  confirm_finalized-Waited h = confirm_from-Waited max_attempts h
