-- ===== src/Cli/Stake/Recorded.antt =====
-- What `stake` of src/main.rs has done when it succeeds.
use Prim.Native.String
use nexus_client.Prelude.{
  ℕ, ◌≡◌, sym, subst, ap, ◌∙◌, Option, List, [], ◌∷◌, ◌++◌, String, ℤ, ok, map_err-eq-ok,
}
use nexus_client.External.Serde.{Serde, json}
use nexus_client.External.Crypto.{Base58}
use nexus_client.External.Solana.{Solana}
use nexus_client.External.Spl.{Spl}
use nexus_client.External.Http.{Reads}
use nexus_client.Agenc.Net.{Event, posted, bearing, Servers}
use nexus_client.Agenc.Net.Inversion.{bind-eq-ok, lift-eq-ok, via-eq-ok, pure-eq-ok, post_as-eq-ok}
use nexus_client.Stake.Rpc.{confirm_finalized}
use nexus_client.Stake.Answers.{
  Fresh, Submitted, get_latest_blockhash-Fresh, send_transaction-Submitted,
  confirm_finalized-Behind,
}
use nexus_client.Stake.Finality.{Confirmed, confirm_finalized-Waited}
use nexus_client.WalletAuth.{Answers}
use nexus_client.WalletAuth.Trace.{SignIn, get_wallet_jwt-SignIn}
use nexus_client.Cli.Stake.Steps.{
  Named, Covers, Transfers, rpc_of, gateway_json-Reads, read_chain-Named, check_balance-Covers,
  build-Transfers,
}
use nexus_client.Cli.Stake.{Chain, send_stake, record_stake, stake_flow}

module _ (S : Serde) (C : Solana) (K : Spl C) (B : Base58) (J : Answers) (servers : Servers S)
    (origin node_pubkey : String) (wallet : C.Keypair) (amount : ℕ) (rpc : Option String) where
  -- The transfer was built on a fresh blockhash and submitted, and then its signature was reported as finalized.
  pub record Sent (c : Chain) (h : List (Event S)) (tx_signature : String) (h' : List (Event S))
      : Type 0 where
    pub blockhash : String
    pub b64 : String
    pub hashed_at : List (Event S)
    pub signed_at : List (Event S)
    pub submitted_at : List (Event S)
    pub waited : List (Event S)
    pub fresh :
        Fresh S servers (rpc_of S C K B J servers origin wallet amount rpc c) h hashed_at blockhash
    pub built :
        Transfers S C K B J servers origin wallet amount rpc c blockhash hashed_at b64 signed_at
    pub submitted :
        Submitted S servers
          (rpc_of S C K B J servers origin wallet amount rpc c)
          b64
          signed_at
          submitted_at
          tx_signature
    pub behind : h' ≡ submitted_at ++ waited
    pub confirmed :
        Confirmed S servers (rpc_of S C K B J servers origin wallet amount rpc c) tx_signature h'

  -- The wallet signed in, and the last request posts the signature and the amount with the token.
  pub record Posted (tx_signature : String) (h : List (Event S)) (v : S.Value) (h' : List (Event S))
      : Type 0 where
    pub jwt : String
    pub signed_in_at : List (Event S)
    pub signed_in : SignIn S C B J servers origin wallet h (ok jwt, signed_in_at)
    pub posts :
        h'
        ≡ signed_in_at
          ++ bearing jwt (
              posted (String.◌++◌ origin "/api/compute/stake") (
                json S (
                  ("node_pubkey", S.string node_pubkey)
                  ∷ ("tx_signature", S.string tx_signature)
                  ∷ ("amount_micros", S.int (ℤ.pos amount))
                  ∷ [])))
            ∷ []
    pub answered : Reads S.from_str (servers h') v

  pub record Recorded (h : List (Event S)) (v : S.Value) (h' : List (Event S)) : Type 0 where
    pub chain : Chain
    pub tx_signature : String
    pub named_at : List (Event S)
    pub gated_at : List (Event S)
    pub confirmed_at : List (Event S)
    pub named : Named S C K B J servers origin wallet amount rpc h chain named_at
    pub covered : Covers S C K B J servers origin wallet amount rpc chain named_at gated_at
    pub sent : Sent chain gated_at tx_signature confirmed_at
    pub posted_last : Posted tx_signature confirmed_at v h'

  confirmed_lem :
      (rpc_url sig : String) (h1 h2 : List (Event S))
      → confirm_finalized S servers rpc_url sig h1 ≡ (ok tt, h2)
      → Confirmed S servers rpc_url sig h2 × ((waited : List (Event S)) × (h2 ≡ h1 ++ waited))
  confirmed_lem rpc_url sig h1 h2 e =
      let (waited, here) = confirm_finalized-Behind S servers rpc_url sig h1 in
      (
        subst (Confirmed S servers rpc_url sig) (ap (λ r. r.1) e)
            ((confirm_finalized-Waited S servers rpc_url sig h1).1 (ap (λ r. r.0) e)),
        (waited, sym (ap (λ r. r.1) e) ∙ here),
      )

  send_stake-Sent :
      (c : Chain) (h : List (Event S)) (sig : String) (h' : List (Event S))
      → send_stake S C K B J servers wallet amount
          (rpc_of S C K B J servers origin wallet amount rpc c)
          c
          h
        ≡ (ok sig, h')
      → Sent c h sig h'
  unfolding send_stake
  send_stake-Sent c h sig h' e =
      let (bh, h1, fresh, e1) = bind-eq-ok _ _ h e in
      let (b64, h2, built, e2) = bind-eq-ok _ _ h1 e1 in
      let (sig', h3, sent, e3) = bind-eq-ok _ _ h2 e2 in
      let (_, h4, waiting, e4) = bind-eq-ok _ _ h3 e3 in
      let (same, here) = pure-eq-ok sig' h4 e4 in
      let (confirmed, (waited, behind)) =
        confirmed_lem (rpc_of S C K B J servers origin wallet amount rpc c) sig' h3 h4
          (via-eq-ok _ _ _ waiting) in
      record {
        blockhash = bh;
        b64 = b64;
        hashed_at = h1;
        signed_at = h2;
        submitted_at = h3;
        waited = waited;
        fresh =
            get_latest_blockhash-Fresh S servers
              (rpc_of S C K B J servers origin wallet amount rpc c) h (via-eq-ok _ _ _ fresh);
        built =
            build-Transfers S C K B J servers origin wallet amount rpc c bh h1
              (via-eq-ok _ _ _ built);
        submitted =
            subst
              (Submitted S servers (rpc_of S C K B J servers origin wallet amount rpc c) b64 h2 h3)
              same
              (send_transaction-Submitted S servers
                (rpc_of S C K B J servers origin wallet amount rpc c) b64 h2
                (via-eq-ok _ _ _ sent));
        behind = sym here ∙ behind;
        confirmed =
            subst
              (λ s. Confirmed S servers (rpc_of S C K B J servers origin wallet amount rpc c) s h')
              same
              (subst
                (Confirmed S servers (rpc_of S C K B J servers origin wallet amount rpc c) sig')
                here confirmed);
      }

  record_stake-Posted :
      (sig : String) (h : List (Event S)) (v : S.Value) (h' : List (Event S))
      → record_stake S C K B J servers origin node_pubkey wallet amount sig h ≡ (ok v, h')
      → Posted sig h v h'
  unfolding record_stake
  record_stake-Posted sig h v h' e =
      let (jwt, h1, auth, e1) = bind-eq-ok _ _ h e in
      let (reply, h2, post, e2) = bind-eq-ok _ _ h1 e1 in
      let (read, last) = lift-eq-ok _ h2 e2 in
      let (posts, got) = post_as-eq-ok servers jwt _ _ h1 post in
      record {
        jwt = jwt;
        signed_in_at = h1;
        signed_in =
            subst (SignIn S C B J servers origin wallet h) (via-eq-ok _ _ _ auth)
              (get_wallet_jwt-SignIn S C B J servers origin wallet h);
        posts = sym last ∙ posts;
        answered =
            subst (λ r. Reads S.from_str r v) (sym got ∙ ap servers last)
              (gateway_json-Reads S _ reply v (map_err-eq-ok _ _ read));
      }

  -- When `stake` succeeds, it has done this, in this order. It fetched the gateway's configuration, whose
  -- answer names the mint, the treasury and the network; it asked the RPC node for the wallet's balance, and the
  -- answer covers the amount; it asked for a blockhash; it signed, against that blockhash, the transfer of the
  -- amount from the wallet's account to the treasury's, and submitted the transaction with that signature; it
  -- waited until the id that the node gave the transaction was reported as finalized; and it signed in. Its last request
  -- posts that id and the amount with the sign-in's token, and was answered with the value.
  pub stake_flow-Recorded :
      (h : List (Event S)) {v : S.Value} {h' : List (Event S)}
      → stake_flow S C K B J servers origin node_pubkey wallet amount rpc h ≡ (ok v, h')
      → Recorded h v h'
  unfolding stake_flow
  stake_flow-Recorded h {v} {h'} e =
      let (chain, h1, named, e1) = bind-eq-ok _ _ h e in
      let (_, h2, covered, e2) = bind-eq-ok _ _ h1 e1 in
      let (sig, h3, sending, e3) = bind-eq-ok _ _ h2 e2 in
      record {
        chain = chain;
        tx_signature = sig;
        named_at = h1;
        gated_at = h2;
        confirmed_at = h3;
        named = read_chain-Named S C K B J servers origin wallet amount rpc h named;
        covered =
            check_balance-Covers S C K B J servers origin wallet amount rpc chain h1 h2 covered;
        sent = send_stake-Sent chain h2 sig h3 sending;
        posted_last = record_stake-Posted sig h3 v h' e3;
      }
