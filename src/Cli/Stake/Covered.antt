-- ===== src/Cli/Stake/Covered.antt =====
-- What `stake` of src/main.rs signs, and after which answers.
use nexus_client.Prelude.{
  ℕ, Bool-cases, ◌≡◌, ◌≤◌, some, refl, ltb, ltb→le, Option, List, [], ◌∷◌, ◌++◌, String, Result, ok,
  err, ok_and_then, All, All-append, ◌⊎◌, inl, inr, map_err-eq-ok, ok_or-eq-ok, if◌then◌else◌,
}
use nexus_client.Utf8.{as_bytes}
use nexus_client.External.Serde.{Serde, json}
use nexus_client.External.Crypto.{Base58}
use nexus_client.External.Solana.{Solana}
use nexus_client.External.Spl.{Spl}
use nexus_client.Agenc.Net.{
  Event, posted, fetched, signed, Servers, Act, Keeps, Keeps-pure, Keeps-lift, Keeps-bind,
  Keeps-bind-lift, Keeps-post, Keeps-post_as, Keeps-record_signing, Keeps-via, then_with,
  with_error, via, fetch, post, lift, bind-lift, ◌>>=◌,
}
use nexus_client.Stake.Rpc.{
  StakeError, request_body, read_response, parse_token_balance, call, get_gnn_balance,
  get_latest_blockhash, send_transaction, confirm_finalized,
}
use nexus_client.Stake.Requests.{Keeps-call, Keeps-confirm_from}
use nexus_client.Stake.Transfer.{build_signed_stake_tx}
use nexus_client.WalletAuth.{Challenge, Answers, build_siws_message, get_wallet_jwt}
use nexus_client.WalletAuth.Trace.{sign_in_text}
use nexus_client.Cli.Stake.{
  StakeCmdError, rpc_failed, insufficient, Chain, chain_of, gateway_value, config_url, read_chain,
  rpc_url_of, check_balance, send_stake, record_stake, stake_flow,
}

module _ (S : Serde) (C : Solana) (K : Spl C) (B : Base58) (J : Answers) (servers : Servers S)
    (origin node_pubkey : String) (wallet : C.Keypair) (amount : ℕ) (rpc : Option String) where
  abbrev chain_asked : List (Event S) → List (Event S)
  chain_asked h = h ++ fetched (config_url S C K B J servers origin) ∷ []

  abbrev balance_request : Chain → S.Value
  balance_request c = request_body S "getTokenAccountsByOwner" (
      S.array (
        S.string (C.pubkey wallet)
        ∷ json S (("mint", S.string c.gnn_mint) ∷ [])
        ∷ json S (("encoding", S.string "jsonParsed") ∷ ("commitment", S.string "confirmed") ∷ [])
        ∷ []))

  abbrev rpc_of : Chain → String
  rpc_of c = rpc_url_of S C K B J servers rpc c

  abbrev pub balance_asked : List (Event S) → Chain → List (Event S)
  balance_asked h c = chain_asked h ++ posted (rpc_of c) (balance_request c) ∷ []

  abbrev chain_at : List (Event S) → Result Chain StakeCmdError
  chain_at h =
      ok_and_then
        (gateway_value S C K B J servers (config_url S C K B J servers origin)
          (servers (chain_asked h)))
        (chain_of S C K B J servers)

  abbrev balance_at : List (Event S) → Chain → Result ℕ StakeError
  balance_at h c =
      ok_and_then (read_response S "getTokenAccountsByOwner" (servers (balance_asked h c)))
        (parse_token_balance S)

  -- The gateway named the chain, and the RPC then answered with a balance that covers the amount.
  pub record Covered (h : List (Event S)) (c : Chain) : Type 0 where
    pub balance : ℕ
    pub named : chain_at h ≡ ok c
    pub answered : balance_at h c ≡ ok balance
    pub enough : amount ≤ balance

  -- The message of the transfer of the amount from the wallet's account to the treasury's, both of the
  -- gateway's mint, against some blockhash.
  pub record IsTransfer (c : Chain) (bytes : List ℕ) : Type 0 where
    pub mint_pk : List ℕ
    pub treasury_pk : List ℕ
    pub blockhash : List ℕ
    pub ix : K.TokenInstruction
    pub mint_read : C.pubkey_from_str c.gnn_mint ≡ some mint_pk
    pub treasury_read : C.pubkey_from_str c.treasury ≡ some treasury_pk
    pub built :
        K.transfer_checked
          (K.get_associated_token_address (K.owner_of wallet) mint_pk)
          mint_pk
          (K.get_associated_token_address treasury_pk mint_pk)
          (K.owner_of wallet)
          amount
          6
        ≡ ok ix
    pub message : bytes ≡ K.message_data ix (K.owner_of wallet) blockhash

  -- A sign-in message for the wallet's own address.
  abbrev pub IsSignIn : List ℕ → Type 0
  IsSignIn bytes = (c : Challenge) × (bytes ≡ as_bytes (sign_in_text (C.pubkey wallet) c))

  abbrev pub IsAllowed : List (Event S) → Event S → Type 0
  IsAllowed h (signed bytes) = (c : Chain) × Covered h c × (IsTransfer c bytes ⊎ IsSignIn bytes)
  IsAllowed h _ = Unit

  module _ (h : List (Event S)) (c : Chain) (covered : Covered h c) where
    Keeps-build :
        (blockhash : String)
        → Keeps
            (IsAllowed h)
            (build_signed_stake_tx S C K wallet c.gnn_mint c.treasury amount blockhash)
    unfolding build_signed_stake_tx
    Keeps-build blockhash = Keeps-bind-lift _ _ λ mint_pk m. Keeps-bind-lift _ _ λ treasury_pk t.
        Keeps-bind-lift _ _ λ bh _. Keeps-bind-lift _ _ λ ix i.
          Keeps-bind _ _
            (Keeps-record_signing _ (
              c,
              covered,
              inl (record {
                mint_pk = mint_pk;
                treasury_pk = treasury_pk;
                blockhash = bh;
                ix = ix;
                mint_read = ok_or-eq-ok _ _ m;
                treasury_read = ok_or-eq-ok _ _ t;
                built = map_err-eq-ok _ _ i;
                message = refl;
              }),
            ))
            λ _. Keeps-bind _ _ (Keeps-lift _) λ bytes. Keeps-pure _

    Keeps-asks :
        (rpc_url method : String) (params : S.Value)
        → Keeps (IsAllowed h) (call S servers rpc_url method params)
    Keeps-asks rpc_url method params =
        Keeps-call servers (IsAllowed h) (λ u b. tt) (λ n. tt) rpc_url method params

    Keeps-send_stake :
        (rpc_url : String)
        → Keeps (IsAllowed h) (send_stake S C K B J servers wallet amount rpc_url c)
    unfolding send_stake get_latest_blockhash send_transaction confirm_finalized
    Keeps-send_stake rpc_url =
        Keeps-bind _ _ (Keeps-via _ (Keeps-bind _ _ (Keeps-asks rpc_url _ _) λ v. Keeps-lift _))
          λ blockhash. Keeps-bind _ _ (Keeps-via _ (Keeps-build blockhash)) λ b64.
            Keeps-bind _ _ (Keeps-via _ (Keeps-bind _ _ (Keeps-asks rpc_url _ _) λ v. Keeps-lift _))
              λ sig.
                Keeps-bind _ _
                  (Keeps-via _
                    (Keeps-confirm_from servers (IsAllowed h) (λ u b. tt) (λ n. tt) rpc_url 30 sig))
                  λ _. Keeps-pure _

    Keeps-record_stake :
        (sig : String)
        → Keeps (IsAllowed h) (record_stake S C K B J servers origin node_pubkey wallet amount sig)
    unfolding record_stake get_wallet_jwt build_siws_message
    Keeps-record_stake sig =
        Keeps-bind _ _
          (Keeps-via _ (
            Keeps-bind _ _ (Keeps-post servers _ _ tt) λ reply. Keeps-bind-lift _ _ λ ch _.
              Keeps-bind _ _ (Keeps-record_signing _ (c, covered, inr (ch, refl)))
                λ _. Keeps-bind _ _ (Keeps-post servers _ _ tt) λ reply'. Keeps-lift _))
          λ jwt. Keeps-bind _ _ (Keeps-post_as servers jwt _ _ tt) λ reply. Keeps-lift _

  module _ (h : List (Event S)) where
    get_gnn_balance-eq :
        (c : Chain)
        → get_gnn_balance S servers (rpc_of c) (C.pubkey wallet) c.gnn_mint (chain_asked h)
          ≡ (balance_at h c, balance_asked h c)
    unfolding get_gnn_balance call ◌>>=◌ post lift
    get_gnn_balance-eq c =
        bind-lift (read_response S "getTokenAccountsByOwner" (servers (balance_asked h c)))
          (parse_token_balance S) (balance_asked h c)

    Keeps-rest :
        (c : Chain)
        → Covered h c
        → Keeps (IsAllowed h) (
            send_stake S C K B J servers wallet amount (rpc_of c) c
            >>= record_stake S C K B J servers origin node_pubkey wallet amount)
    Keeps-rest c covered =
        Keeps-bind _ _ (Keeps-send_stake h c covered (rpc_of c)) (Keeps-record_stake h c covered)

    gate-All :
        (c : Chain) (r : Result ℕ StakeError) (rest : Act S S.Value StakeCmdError)
        → balance_at h c ≡ r
        → (Covered h c → Keeps (IsAllowed h) rest)
        → chain_at h ≡ ok c
        → All (IsAllowed h) (balance_asked h c)
        → All
            (IsAllowed h)
            (then_with
              (then_with (with_error rpc_failed (r, balance_asked h c)) (λ b.
                lift
                  (if ltb b amount then err (insufficient b amount (C.pubkey wallet)) else ok tt)))
              λ _. rest).1
    unfolding lift
    gate-All c (err e) rest at k named x = x
    gate-All c (ok b) rest at k named x = elim (Bool-cases (ltb b amount)) [
      | inl short ↦ rw short x
      | inr enough ↦ rw enough (
          (k (record {
            balance = b;
            named = named;
            answered = at;
            enough = ltb→le b amount enough;
          })).at
            _ x)
    ]

    check-All :
        (c : Chain)
        → chain_at h ≡ ok c
        → All (IsAllowed h) (chain_asked h)
        → All
            (IsAllowed h)
            (then_with
              (check_balance S C K B J servers wallet amount (rpc_of c) c (chain_asked h))
              λ _.
                send_stake S C K B J servers wallet amount (rpc_of c) c
                >>= record_stake S C K B J servers origin node_pubkey wallet amount).1
    unfolding check_balance via ◌>>=◌
    check-All c named x = rw (get_gnn_balance-eq c) (
        gate-All c (balance_at h c) _ refl (Keeps-rest c) named
          (All-append (IsAllowed h) (chain_asked h) _ x (tt, tt)))

    flow-All :
        (r : Result Chain StakeCmdError)
        → chain_at h ≡ r
        → All (IsAllowed h) (chain_asked h)
        → All
            (IsAllowed h)
            (then_with
              (r, chain_asked h)
              λ c. check_balance S C K B J servers wallet amount (rpc_of c) c >>= λ _.
                send_stake S C K B J servers wallet amount (rpc_of c) c
                >>= record_stake S C K B J servers origin node_pubkey wallet amount).1
    unfolding ◌>>=◌
    flow-All (err e) named x = x
    flow-All (ok c) named x = check-All c named x

    -- Whatever the gateway and the RPC answer and however it ends, `stake` signs only the transfer of the
    -- amount, from the wallet's account to that of the treasury that the gateway names, and sign-in messages for
    -- the wallet's own address; and it signs either only after the RPC answered with a balance of at least the amount.
    pub stake_flow-IsAllowed :
        All (IsAllowed h) h
        → All (IsAllowed h) (stake_flow S C K B J servers origin node_pubkey wallet amount rpc h).1
    unfolding stake_flow read_chain fetch lift ◌>>=◌
    stake_flow-IsAllowed x = flow-All (chain_at h) refl (All-append (IsAllowed h) h _ x (tt, tt))
