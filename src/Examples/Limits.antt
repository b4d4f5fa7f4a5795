-- ===== src/Examples/Limits.antt =====
-- The limits at concrete inputs.
use nexus_client.Prelude.{◌≡◌, ◌≤◌, ◌↔◌, some, ok, len, length}
use nexus_client.Limits.Nonce.{max_nonce_chars, nonce_bytes, validate_nonce}
use nexus_client.Limits.Body.{sanitize_job_body}
use nexus_client.Limits.Laws.{validate_nonce_iff, get-sanitize_job_body}
use nexus_client.Examples.Json.{sample_serde, Value, object, field, end, uint, string, get}
use nexus_client.Examples.Parts.{sample_base58, sample_nonce}

-- A body that asks for another model, too many tokens and an unlisted key.
abbrev greedy : Value
greedy = object (
    field "model" (string "huge") (field "max_tokens" (uint 100_000_000) (field "n" (uint 50) end)))

validate_nonce_iff_example : (validate_nonce sample_base58 "n" ≡ ok sample_nonce) ↔ (
    (len "n" ≤ max_nonce_chars)
    × (sample_base58.decode "n" ≡ some sample_nonce)
    × (length sample_nonce ≡ nonce_bytes))
validate_nonce_iff_example = validate_nonce_iff sample_base58 "n" sample_nonce

get-sanitize_job_body_example :
    get (sanitize_job_body sample_serde greedy "hermes-3") "max_tokens" ≡ some (uint 8192)
get-sanitize_job_body_example = get-sanitize_job_body sample_serde greedy "hermes-3" "max_tokens"
