-- ===== src/Cli/Earnings/Confined.antt =====
-- What `earnings` of src/main.rs asks of its HTTP client, and signs.
use Prim.Native.String
use nexus_client.Prelude.{◌≡◌, refl, ◌⊎◌, inl, inr, List, [], String, Result, ok, err, All}
use nexus_client.Utf8.{as_bytes}
use nexus_client.External.Serde.{Serde}
use nexus_client.External.Crypto.{Base58, Ed25519}
use nexus_client.External.Solana.{Solana}
use nexus_client.External.Keypairs.{Keypairs}
use nexus_client.External.Toml.{Toml}
use nexus_client.Disk
use nexus_client.Disk.{Disk, Host}
use nexus_client.Keys.{node_key_exists}
use nexus_client.Agenc.Net.{
  Event, posted, fetched, signed, bearing, Servers, Keeps, Keeps-pure, Keeps-lift, Keeps-bind,
  Keeps-bind-lift, Keeps-post, Keeps-fetch_as, Keeps-record_signing, Keeps-via,
}
use nexus_client.WalletAuth.{Challenge, Answers, build_siws_message, get_wallet_jwt}
use nexus_client.WalletAuth.Trace.{at_gateway, sign_in_text}
use nexus_client.Cli.Gateway.{LoadError}
use nexus_client.Cli.Earnings.{earnings_flow, load_earnings, cmd_earnings}

module _ (S : Serde) (C : Solana) (B : Base58) (J : Answers) (servers : Servers S) where
  -- A POST to one of the two sign-in URLs, a signature of a sign-in message for the wallet's own address, or
  -- the GET of the node's earnings with a token; nothing else.
  abbrev pub IsConfined : String → String → C.Keypair → Event S → Type 0
  IsConfined origin node wallet (posted url body) =
      (url ≡ at_gateway origin "/api/auth/challenge") ⊎ (url ≡ at_gateway origin "/api/auth/verify")
  IsConfined origin node wallet (signed bytes) =
      (c : Challenge) × (bytes ≡ as_bytes (sign_in_text (C.pubkey wallet) c))
  IsConfined origin node wallet (bearing token (fetched url)) =
      url ≡ String.◌++◌ origin (String.◌++◌ "/api/compute/nodes/" (String.◌++◌ node "/earnings"))
  IsConfined origin node wallet _ = ⊥

  -- What a command may have done after this loading.
  abbrev pub Confined : Result (String × String × C.Keypair) LoadError → List (Event S) → Type 0
  Confined (err e) h = h ≡ []
  Confined (ok (origin, node, wallet)) h = All (IsConfined origin node wallet) h

  pub Keeps-earnings_flow :
      (origin node : String) (wallet : C.Keypair)
      → Keeps (IsConfined origin node wallet) (earnings_flow S C B J servers origin node wallet)
  unfolding earnings_flow get_wallet_jwt build_siws_message
  Keeps-earnings_flow origin node wallet =
      Keeps-bind _ _
        (Keeps-via _ (
          Keeps-bind _ _ (Keeps-post servers _ _ (inl refl)) λ reply. Keeps-bind-lift _ _ λ c _.
            Keeps-bind _ _ (Keeps-record_signing _ (c, refl))
              λ _. Keeps-bind _ _ (Keeps-post servers _ _ (inr refl)) λ reply'. Keeps-lift _))
        λ jwt. Keeps-bind _ _ (Keeps-fetch_as servers jwt _ refl) λ reply. Keeps-lift _

  module _ (W : Keypairs C) (E : Ed25519) (T : Toml) (host : Host) (dir : String) (d : Disk) where
    -- What the command loads.
    abbrev pub loaded : Result (String × String × C.Keypair) LoadError
    loaded =
        (Disk.◌>>=◌ (node_key_exists host dir) (λ b. load_earnings S C B J servers W E T host b dir)
          d).0

    abbrev pub events : List (Event S)
    events = (cmd_earnings S C B J servers W E T host dir d []).1

    case_loaded :
        (r : Result (String × String × C.Keypair) LoadError) → loaded ≡ r → Confined r events
    unfolding cmd_earnings nexus_client.Agenc.Net.lift nexus_client.Agenc.Net.◌>>=◌
    case_loaded (err e) h = rw (h, events) refl
    case_loaded (ok (origin, node, wallet)) h =
        rw (h, events)
          ((Keeps-bind _ _ (Keeps-earnings_flow origin node wallet) λ v. Keeps-pure _).at [] tt)

    -- Whatever the answers are and however it ends, `earnings` hands its HTTP client only POSTs to the two
    -- sign-in URLs of the stored gateway and the GET of the stored node's earnings there, and a bearer token only
    -- with this GET; and it signs only sign-in messages for the stored wallet's own address; when the directory
    -- cannot be loaded, it does nothing. What the HTTP client sends in following redirects is not among these
    -- requests.
    pub cmd_earnings-Confined : Confined loaded events
    cmd_earnings-Confined = case_loaded loaded refl
