-- ===== src/Cli/Stake/Steps.antt =====
-- What the parts of `stake` of src/main.rs have done when they succeed: the gateway's configuration, the
-- balance and the signed transfer.
use Prim.Native.String
use nexus_client.Prelude.{
  ℕ, ◌≡◌, ◌≤◌, refl, sym, subst, ap, ◌∙◌, inl, inr, Bool-cases, ltb, ltb→le, Option, some,
  unwrap_or, List, [], ◌∷◌, ◌++◌, String, ok, map_err-eq-ok, ok_or-eq-ok, ok_and_then-eq-ok,
}
use nexus_client.External.Serde.{Serde}
use nexus_client.External.Crypto.{Base58}
use nexus_client.External.Solana.{Solana}
use nexus_client.External.Spl.{Spl}
use nexus_client.External.Http.{Reply, failed, answer, is_success, Reads, is_success_bounds}
use nexus_client.Agenc.Net.{Event, fetched, signed, Servers}
use nexus_client.Agenc.Net.Inversion.{
  bind-eq-ok, lift-eq-ok, via-eq-ok, pure-eq-ok, fetch-eq-ok, record_signing-eq-ok,
}
use nexus_client.Stake.Answers.{Balanced, get_gnn_balance-Balanced}
use nexus_client.Stake.Transfer.{build_signed_stake_tx}
use nexus_client.WalletAuth.{Answers}
use nexus_client.Cli.{default_rpc_for}
use nexus_client.Cli.Gateway.{text_at, gateway_json}
use nexus_client.Cli.Stake.{Chain, chain_of, read_chain, check_balance}

module _ (S : Serde) where
  -- An answer that the gateway's reader takes is a success whose text parses to the value.
  pub gateway_json-Reads :
      (url : String) (reply : Reply) (v : S.Value)
      → gateway_json S url reply ≡ ok v
      → Reads S.from_str reply v
  unfolding gateway_json
  gateway_json-Reads url (failed e) v h = cc
  gateway_json-Reads url (answer status text) v h = elim (Bool-cases (is_success status)) [
    | inl good ↦
        let h' = rw good at h in
        let (low, high) = is_success_bounds status good in
        (text, (status, refl, low, high), ok_or-eq-ok _ _ h')
    | inr bad ↦ let wrong = rw bad at h in cc
  ]

module _ (S : Serde) (C : Solana) (K : Spl C) (B : Base58) (J : Answers) (servers : Servers S)
    (origin : String) (wallet : C.Keypair) (amount : ℕ) (rpc : Option String) where
  -- The override, or the public node of the gateway's network.
  abbrev pub rpc_of : Chain → String
  rpc_of c = unwrap_or rpc (default_rpc_for c.network)

  -- The first request was for the gateway's configuration, and the answer names the chain's addresses.
  pub record Named (h : List (Event S)) (c : Chain) (h' : List (Event S)) : Type 0 where
    pub v : S.Value
    pub asked : h' ≡ h ++ fetched (String.◌++◌ origin "/api/compute/config") ∷ []
    pub answered : Reads S.from_str (servers h') v
    pub mint : text_at S v "gnn_mint" ≡ some c.gnn_mint
    pub treasury : text_at S v "treasury" ≡ some c.treasury
    pub network : c.network ≡ unwrap_or (text_at S v "network") "mainnet"

  -- The node answered with a balance of the wallet that covers the amount.
  pub record Covers (c : Chain) (h h' : List (Event S)) : Type 0 where
    pub balance : ℕ
    pub answered : Balanced S servers (rpc_of c) (C.pubkey wallet) c.gnn_mint h h' balance
    pub enough : amount ≤ balance

  -- One signature: of the transfer of the amount from the wallet's account to the treasury's, against the
  -- blockhash; and the transaction with this signature.
  pub record Transfers (c : Chain) (blockhash : String) (h : List (Event S)) (b64 : String)
      (h' : List (Event S)) : Type 0 where
    pub mint_pk : List ℕ
    pub treasury_pk : List ℕ
    pub hash : List ℕ
    pub ix : K.TokenInstruction
    pub bytes : List ℕ
    pub mint_read : C.pubkey_from_str c.gnn_mint ≡ some mint_pk
    pub treasury_read : C.pubkey_from_str c.treasury ≡ some treasury_pk
    pub hash_read : K.hash_from_str blockhash ≡ some hash
    pub built :
        K.transfer_checked
          (K.get_associated_token_address (K.owner_of wallet) mint_pk)
          mint_pk
          (K.get_associated_token_address treasury_pk mint_pk)
          (K.owner_of wallet)
          amount
          6
        ≡ ok ix
    pub signs : h' ≡ h ++ signed (K.message_data ix (K.owner_of wallet) hash) ∷ []
    pub serialized :
        K.serialize_transaction
          (C.sign_message wallet (K.message_data ix (K.owner_of wallet) hash))
          (K.message_data ix (K.owner_of wallet) hash)
        ≡ ok bytes
    pub encoded : b64 ≡ C.base64_encode bytes

  pub read_chain-Named :
      (h : List (Event S)) {c : Chain} {h' : List (Event S)}
      → read_chain S C K B J servers origin h ≡ (ok c, h')
      → Named h c h'
  unfolding read_chain chain_of
  read_chain-Named h {c} {h'} e =
      let (reply, h1, asking, e1) = bind-eq-ok _ _ h e in
      let (read, same) = lift-eq-ok _ h1 e1 in
      let (here, got) = fetch-eq-ok servers _ h asking in
      let (v, taken, named) = ok_and_then-eq-ok _ _ read in
      let (mint, m, named') = ok_and_then-eq-ok _ _ named in
      let (treasury, t, whole) = ok_and_then-eq-ok _ _ named' in
      let is : record {
        gnn_mint = mint;
        treasury = treasury;
        network = unwrap_or (text_at S v "network") "mainnet";
      }
          ≡ c =
        cc in
      record {
        v = v;
        asked = sym same ∙ here;
        answered =
            subst (λ r. Reads S.from_str r v) (sym got ∙ ap servers same)
              (gateway_json-Reads S _ reply v (map_err-eq-ok _ _ taken));
        mint = ok_or-eq-ok _ _ m ∙ ap some (ap (λ x. x.gnn_mint) is);
        treasury = ok_or-eq-ok _ _ t ∙ ap some (ap (λ x. x.treasury) is);
        network = sym (ap (λ x. x.network) is);
      }

  pub check_balance-Covers :
      (c : Chain) (h h' : List (Event S))
      → check_balance S C K B J servers wallet amount (rpc_of c) c h ≡ (ok tt, h')
      → Covers c h h'
  unfolding check_balance
  check_balance-Covers c h h' e =
      let (balance, h1, asking, e1) = bind-eq-ok _ _ h e in
      let (gate, same) = lift-eq-ok _ h1 e1 in
      record {
        balance = balance;
        answered =
            subst (λ x. Balanced S servers (rpc_of c) (C.pubkey wallet) c.gnn_mint h x balance) same
              (get_gnn_balance-Balanced S servers (rpc_of c) _ _ h (via-eq-ok _ _ _ asking));
        enough = elim (Bool-cases (ltb balance amount)) [
          | inl short ↦ let wrong = rw short at gate in cc
          | inr enough ↦ ltb→le balance amount enough
        ];
      }

  pub build-Transfers :
      (c : Chain) (blockhash : String) (h : List (Event S)) {b64 : String} {h' : List (Event S)}
      → build_signed_stake_tx S C K wallet c.gnn_mint c.treasury amount blockhash h ≡ (ok b64, h')
      → Transfers c blockhash h b64 h'
  unfolding build_signed_stake_tx
  build-Transfers c blockhash h {b64} {h'} e =
      let (mint_pk, h1, m, e1) = bind-eq-ok _ _ h e in
      let (mint, s1) = lift-eq-ok _ h m in
      let (treasury_pk, h2, t, e2) = bind-eq-ok _ _ h1 e1 in
      let (treasury, s2) = lift-eq-ok _ h1 t in
      let (hash, h3, b, e3) = bind-eq-ok _ _ h2 e2 in
      let (hashed, s3) = lift-eq-ok _ h2 b in
      let (ix, h4, i, e4) = bind-eq-ok _ _ h3 e3 in
      let (built, s4) = lift-eq-ok _ h3 i in
      let (_, h5, s, e5) = bind-eq-ok _ _ h4 e4 in
      let signs = record_signing-eq-ok _ h4 s in
      let (bytes, h6, r, e6) = bind-eq-ok _ _ h5 e5 in
      let (serialized, s6) = lift-eq-ok _ h5 r in
      let (encoded, s7) = pure-eq-ok _ h6 e6 in
      record {
        mint_pk = mint_pk;
        treasury_pk = treasury_pk;
        hash = hash;
        ix = ix;
        bytes = bytes;
        mint_read = ok_or-eq-ok _ _ mint;
        treasury_read = ok_or-eq-ok _ _ treasury;
        hash_read = ok_or-eq-ok _ _ hashed;
        built = map_err-eq-ok _ _ built;
        signs =
            sym (s6 ∙ s7)
            ∙ signs
            ∙ ap (λ x. x ++ signed (K.message_data ix (K.owner_of wallet) hash) ∷ [])
                (sym (s1 ∙ s2 ∙ s3 ∙ s4));
        serialized = map_err-eq-ok _ _ serialized;
        encoded = sym encoded;
      }
