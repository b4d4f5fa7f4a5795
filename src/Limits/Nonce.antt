-- ===== src/Limits/Nonce.antt =====
-- src/limits.rs: the bounds, `auth_message`, `NonceError` and `validate_nonce`.

use nexus_client.Prelude.{
  ℕ, ◌*◌, List, [], ◌∷◌, ◌++◌, String, len, code, length, ltb, eqb, not, Result, ok, err, ok_or,
  ◌>>=◌, if◌then◌else◌,
}
use nexus_client.External.Crypto.{Base58}

abbrev pub max_ws_message_bytes : ℕ
max_ws_message_bytes = 1024 * 1024

abbrev pub max_ws_frame_bytes : ℕ
max_ws_frame_bytes = 256 * 1024

abbrev pub max_nonce_chars : ℕ
max_nonce_chars = 64

abbrev pub nonce_bytes : ℕ
nonce_bytes = 32

-- The bytes of an ASCII text.
abbrev ascii : String → List ℕ
ascii String.[] = []
ascii (String.◌∷◌ c s) = code c ∷ ascii s

abbrev pub auth_domain_tag : List ℕ
auth_domain_tag = ascii "nexus-compute-node-auth:v1\n"

unfoldable pub auth_message : List ℕ → List ℕ
auth_message nonce = auth_domain_tag ++ nonce

pub data NonceError : Type 0 where
  too_long : ℕ → NonceError
  undecodable : NonceError
  wrong_length : ℕ → NonceError

unfoldable pub validate_nonce : Base58 → String → Result (List ℕ) NonceError
validate_nonce b b58 = if ltb max_nonce_chars (len b58) then err (too_long (len b58)) else do
  bytes ← ok_or (b.decode b58) undecodable
  if not (eqb (length bytes) nonce_bytes) then err (wrong_length (length bytes)) else ok bytes
