-- ===== src/Examples/Auth.antt =====
-- The sign-in at concrete inputs.
use nexus_client.Prelude.{◌≡◌, refl, some, [], ok}
use nexus_client.Agenc.Net.{lift, post, record_signing, ◌>>=◌}
use nexus_client.WalletAuth.{Challenge, Answers, build_siws_message, body_of, get_wallet_jwt}
use nexus_client.WalletAuth.Trace.{SignIn, get_wallet_jwt-SignIn}
use nexus_client.Examples.Json.{sample_serde}
use nexus_client.Examples.Parts.{sample_nonce, sample_base58, sample_solana, sample_servers}

abbrev pub challenge : Challenge
challenge = record {
  domain = "gw";
  nonce = "n";
  issued_at = "now";
  chain_id = "mainnet";
  statement = "Sign in";
}

abbrev pub answers : Answers
answers = record { challenge_from_str = λ s. some challenge; token_from_str = λ s. some "jwt" }

message_text :
    build_siws_message "gw" "worker" "Sign in" "n" "now" "mainnet"
    ≡ "gw wants you to sign in with your Solana account:\nworker\n\nSign in\n\nURI: https://gw\nVersion: 1\nChain ID: mainnet\nNonce: n\nIssued At: now"
unfolding build_siws_message
message_text = refl

signs_in :
    (get_wallet_jwt sample_serde sample_solana sample_base58 answers sample_servers "http://gw/"
      sample_nonce []).0
    ≡ ok "jwt"
unfolding get_wallet_jwt body_of lift post record_signing ◌>>=◌
signs_in = refl

get_wallet_jwt-SignIn_example :
    SignIn sample_serde sample_solana sample_base58 answers sample_servers "http://gw/" sample_nonce
      []
      (get_wallet_jwt sample_serde sample_solana sample_base58 answers sample_servers "http://gw/"
        sample_nonce [])
get_wallet_jwt-SignIn_example =
    get_wallet_jwt-SignIn sample_serde sample_solana sample_base58 answers sample_servers
      "http://gw/" sample_nonce []
