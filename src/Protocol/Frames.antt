-- ===== src/Protocol/Frames.antt =====
-- src/protocol.rs: `AuthFrame`, `ServerFrame` and the client's frames.
use nexus_client.Prelude.{
  ℤ, [], ◌∷◌, Option, none, some, String, ◌==◌, and_then, unwrap_or, if◌then◌else◌,
}
use mathlib.Core.Option
use nexus_client.External.Serde.{Serde, json}

pub record AuthFrame : Type 0 where
  pub node_pubkey : String
  pub wallet_pubkey : String
  pub model : String
  pub context_len : Option ℤ
  pub signature : String

module _ (S : Serde) where
  open S use {Value, get, as_str, from_str, to_string, string, int, null}

  pub data ServerFrame : Type 0 where
    challenge : String → ServerFrame
    ready : ServerFrame
    rejected : String → ServerFrame
    job : String → Value → ServerFrame

  -- `v.get(key)?.as_str()?`
  abbrev str_field : Value → String → Option String
  str_field v key = and_then (get v key) as_str

  abbrev opt_int : Option ℤ → Value
  opt_int none = null
  opt_int (some n) = int n

  -- `AuthFrame::to_text`: the derived fields, then the `kind`
  unfoldable pub auth_text : AuthFrame → String
  auth_text f = to_string (
      json S (
        ("node_pubkey", string f.node_pubkey)
        ∷ ("wallet_pubkey", string f.wallet_pubkey)
        ∷ ("model", string f.model)
        ∷ ("context_len", opt_int f.context_len)
        ∷ ("signature", string f.signature)
        ∷ ("kind", string "auth")
        ∷ []))

  frame_of : Value → String → Option ServerFrame
  frame_of v kind =
      if kind == "challenge"
      then Option.map challenge (str_field v "nonce")
      else if kind == "ready"
      then some ready
      else if kind == "rejected"
      then some (rejected (unwrap_or (str_field v "reason") "unknown"))
      else if kind == "job"
      then Option.map (λ job_id. job job_id (unwrap_or (get v "body") null)) (str_field v "job_id")
      else none

  unfoldable pub parse : String → Option ServerFrame
  unfolding frame_of
  parse txt = and_then (from_str txt) (λ v. and_then (str_field v "kind") (frame_of v))

  unfoldable pub chunk_frame : String → String → String
  chunk_frame job_id delta =
      to_string (
        json S
          (("kind", string "chunk") ∷ ("job_id", string job_id) ∷ ("delta", string delta) ∷ []))

  unfoldable pub done_frame : String → Value → String
  done_frame job_id usage =
      to_string
        (json S (("kind", string "done") ∷ ("job_id", string job_id) ∷ ("usage", usage) ∷ []))

  unfoldable pub job_error_frame : String → String → String
  job_error_frame job_id error = to_string (
      json S
        (("kind", string "job_error") ∷ ("job_id", string job_id) ∷ ("error", string error) ∷ []))
