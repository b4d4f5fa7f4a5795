-- ===== src/Stake/Finalized.antt =====
-- When src/solana_stake.rs `parse_signature_finalized` reads an answer as final.
use mathlib.Core.Option
use nexus_client.Prelude.{
  ◌≡◌, refl, ap, ◌∙◌, inl, inr, Bool, true, false, Bool-cases, Option, none, some, List, [], ◌∷◌,
  String, Result, ok, ok_and_then, ◌==◌, eq_iff, arith, unwrap_or, and_then, and_then-eq-some,
  ok_and_then-eq-ok, ok_or-eq-ok, if◌then◌else◌,
}
use nexus_client.External.Serde.{Serde}
use nexus_client.External.Http.{Reply, failed, answer, is_success, Reads, is_success_bounds}
use nexus_client.Protocol.Sse.{first}
use nexus_client.Stake.Rpc.{
  StakeError, not_null, unless_error, rpc_error, status_of, read_response,
  parse_signature_finalized,
}

module _ (S : Serde) where
  open S use {Value, get, as_str, as_array, is_null, from_str}

  -- A missing member, or a null one.
  abbrev pub Lacks : Value → String → Type 0
  Lacks v key = (e : Value) → get v key ≡ some e → is_null e ≡ true

  -- A successful answer whose JSON has no error, and whose first status, at `result.value[0]`, is there, has
  -- no error and the confirmation status `finalized`.
  pub record IsFinalized (reply : Reply) : Type 0 where
    pub v : Value
    pub result : Value
    pub value : Value
    pub status : Value
    pub statuses : List Value
    pub confirmation : Value
    pub answered : Reads from_str reply v
    pub no_error : Lacks v "error"
    pub has_result : get v "result" ≡ some result
    pub has_value : get result "value" ≡ some value
    pub has_status : as_array value ≡ some (status ∷ statuses)
    pub known : is_null status ≡ false
    pub no_failure : Lacks status "err"
    pub has_confirmation : get status "confirmationStatus" ≡ some confirmation
    pub finalized : as_str confirmation ≡ some "finalized"

  Lacks-of_not_null :
      (o : Option Value) → not_null S o ≡ none → (e : Value) → o ≡ some e → is_null e ≡ true
  Lacks-of_not_null none h e k = cc
  Lacks-of_not_null (some x) h e k = elim (Bool-cases (is_null x)) [
    | inl null ↦ ground arith
    | inr real ↦ let wrong = rw real at h in cc
  ]

  pub unless_error-eq-ok :
      {A : Type 0} (o : Option StakeError) (r : Result A StakeError) {a : A}
      → unless_error S o r ≡ ok a
      → (o ≡ none) × (r ≡ ok a)
  unless_error-eq-ok none r h = (refl, h)
  unless_error-eq-ok (some x) r h = cc

  map-eq-none : (o : Option Value) (f : Value → StakeError) → Option.map f o ≡ none → o ≡ none
  map-eq-none none f h = refl
  map-eq-none (some x) f h = absurd (ground arith)

  pub rpc_error-eq-none : (v : Value) → rpc_error S v ≡ none → Lacks v "error"
  unfolding rpc_error
  rpc_error-eq-none v h =
      Lacks-of_not_null (get v "error") (map-eq-none (not_null S (get v "error")) _ h)

  first-eq-some :
      (xs : List Value) {x : Value} → first xs ≡ some x → (r : List Value) × (xs ≡ x ∷ r)
  first-eq-some [] h = cc
  first-eq-some (y ∷ ys) h = (ys, cc)

  -- The text of the confirmation status.
  confirmation_lem :
      (o : Option String) → (unwrap_or o "" == "finalized") ≡ true → o ≡ some "finalized"
  confirmation_lem none h = absurd (ground (arith, eq_iff "" "finalized"))
  confirmation_lem (some t) h = ap some ((eq_iff t "finalized").0 h)

  status_of-eq-true :
      (o : Option Value) (status : Value)
      → status_of S o status ≡ ok true
      → (o ≡ none) × (and_then (get status "confirmationStatus") as_str ≡ some "finalized")
  status_of-eq-true none status h = (refl, confirmation_lem _ (cc))
  status_of-eq-true (some e) status h = cc

  pub read_response-eq-ok :
      (method : String) (reply : Reply) (v : Value)
      → read_response S method reply ≡ ok v
      → Reads from_str reply v
  unfolding read_response
  read_response-eq-ok method (failed e) v h = cc
  read_response-eq-ok method (answer status text) v h = elim (Bool-cases (is_success status)) [
    | inl good ↦
        let h' = rw good at h in
        let (low, high) = is_success_bounds status good in
        (text, (status, refl, low, high), ok_or-eq-ok _ _ h')
    | inr bad ↦ let wrong = rw bad at h in cc
  ]

  abbrev known_status : Value → Bool → Result Bool StakeError
  known_status status null =
      if null then ok false else status_of S (not_null S (get status "err")) status

  known_status-eq-true :
      (status : Value) (null : Bool)
      → known_status status null ≡ ok true
      → (null ≡ false)
        × Lacks status "err"
        × (and_then (get status "confirmationStatus") as_str ≡ some "finalized")
  known_status-eq-true status true h = cc
  known_status-eq-true status false h =
      let (clean, said) = status_of-eq-true _ status h in
      (refl, Lacks-of_not_null (get status "err") clean, said)

  -- Only an answer that is finalized is read as true.
  pub IsFinalized-of_answered :
      (reply : Reply)
      → ok_and_then (read_response S "getSignatureStatuses" reply) (parse_signature_finalized S)
        ≡ ok true
      → IsFinalized reply
  unfolding parse_signature_finalized
  IsFinalized-of_answered reply h =
      let (v, read, h1) = ok_and_then-eq-ok _ _ h in
      let (clean, h2) = unless_error-eq-ok (rpc_error S v) _ h1 in
      let (status, found, h3) = ok_and_then-eq-ok _ _ h2 in
      let (value, at, listed) = and_then-eq-some _ _ (ok_or-eq-ok _ _ found) in
      let (result, at', held) = and_then-eq-some _ _ at in
      let (statuses, array, head) = and_then-eq-some _ _ listed in
      let (rest, shape) = first-eq-some statuses head in
      let (known, no_failure, said) = known_status-eq-true status (is_null status) h3 in
      let (confirmation, has, text) = and_then-eq-some _ _ said in
      record {
        v = v;
        result = result;
        value = value;
        status = status;
        statuses = rest;
        confirmation = confirmation;
        answered = read_response-eq-ok _ reply v read;
        no_error = rpc_error-eq-none v clean;
        has_result = at';
        has_value = held;
        has_status = array ∙ ap some shape;
        known = known;
        no_failure = no_failure;
        has_confirmation = has;
        finalized = text;
      }
