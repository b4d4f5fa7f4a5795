-- ===== src/Limits/Body.antt =====
-- src/limits.rs: the ceilings on a job's stream, the permitted keys and `sanitize_job_body`.
use nexus_client.Prelude.{
  ℕ, ◌*◌, min, List, [], ◌∷◌, Option, none, some, String, true, contains, and_then, unwrap_or,
  if◌then◌else◌,
}
use mathlib.Core.Option
use nexus_client.External.Serde.{Serde}

abbrev pub job_timeout_secs : ℕ
job_timeout_secs = 300

abbrev pub max_job_output_bytes : ℕ
max_job_output_bytes = 8 * 1024 * 1024

abbrev pub max_sse_buffer_bytes : ℕ
max_sse_buffer_bytes = 1024 * 1024

abbrev pub max_output_tokens : ℕ
max_output_tokens = 8192

abbrev pub allowed_body_keys : List String
allowed_body_keys =
    "messages" ∷ "max_tokens" ∷ "temperature" ∷ "top_p" ∷ "top_k" ∷ "stop" ∷ "presence_penalty"
    ∷ "frequency_penalty" ∷ "seed" ∷ "response_format" ∷ "tools" ∷ "tool_choice" ∷ []

module _ (S : Serde) where
  open S use {
    Value, Map, map_new, map_insert, map_get, entries, object, as_object, as_u64, uint, string,
    bool,
  }

  -- the loop over the entries of the gateway's object
  unfoldable pub keep_allowed : Map → List (String × Value) → Map
  keep_allowed out [] = out
  keep_allowed out ((k, v) ∷ rest) =
      keep_allowed (if contains allowed_body_keys k then map_insert out k v else out) rest

  abbrev pub kept : Option Map → Map
  kept none = map_new
  kept (some map) = keep_allowed map_new (entries map)

  abbrev pub clamp : Option Value → ℕ
  clamp requested =
      unwrap_or (Option.map (λ n. min n max_output_tokens) (and_then requested as_u64))
        max_output_tokens

  unfoldable pub sanitize_job_body : Value → String → Value
  sanitize_job_body raw model =
      let out = kept (as_object raw) in
      let clamped = clamp (map_get out "max_tokens") in
      let out' = map_insert out "max_tokens" (uint clamped) in
      let out'' = map_insert out' "model" (string model) in
      object (map_insert out'' "stream" (bool true))
