-- ===== src/Protocol/Sse.antt =====
-- src/protocol.rs: `SseEvent` and `parse_sse_line`.
pub mod Reads
use nexus_client.Prelude.{List, [], ◌∷◌, Option, none, some, String, ◌==◌, and_then, if◌then◌else◌}
use nexus_client.External.Serde.{Serde}
use nexus_client.Text.{strip_prefix, trim_start}

-- `slice::first`
abbrev pub first {ℓ} : {A : Type ℓ} → List A → Option A
first [] = none
first (x ∷ xs) = some x

module _ (S : Serde) where
  open S use {Value, get, as_str, as_array, is_null, from_str}

  pub data SseEvent : Type 0 where
    delta : String → SseEvent
    usage : Value → SseEvent
    done : SseEvent
    other : SseEvent

  abbrev content : Value → Option String
  content v = and_then (get v "choices") λ choices.
      and_then (as_array choices)
        λ a. and_then (first a) λ c. and_then (get c "delta") λ d. and_then (get d "content") as_str

  -- what a payload without content is
  abbrev usage_or_other : Option Value → SseEvent
  usage_or_other none = other
  usage_or_other (some u) = if is_null u then other else usage u

  classify : Value → SseEvent
  classify v = elim (content v) [ some text ↦ delta text | none ↦ usage_or_other (get v "usage") ]

  payload_event : String → Option SseEvent
  unfolding classify
  payload_event payload =
      if payload == "[DONE]" then some done else and_then (from_str payload) λ v. some (classify v)

  unfoldable pub parse_sse_line : String → Option SseEvent
  unfolding payload_event
  parse_sse_line line = and_then (strip_prefix "data:" line) λ rest. payload_event (trim_start rest)
