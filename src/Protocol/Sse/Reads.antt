-- ===== src/Protocol/Sse/Reads.antt =====
-- What `parse_sse_line` of src/protocol.rs makes of every line.

use Prim.Native.String
use nexus_client.Prelude.{
  ◌≡◌, ◌≢◌, inl, inr, true, false, Bool-cases, Option, some, none, Option-cases, String, subst,
  ◌==◌, eq_iff, arith, and_then,
}
use nexus_client.Text.{is_whitespace, strip_prefix, trim_start}
use nexus_client.Text.Affixes.{
  IsCut, trim_start_matches-IsCut, strip_prefix-some, strip_prefix-none,
}
use nexus_client.External.Serde.{Serde}
use nexus_client.Protocol.Sse.{
  first, SseEvent, delta, usage, done, other, classify, payload_event, parse_sse_line,
}

-- A `data:` line: white space, and a payload that does not start with any.
abbrev pub Carries : String → String → Type 0
Carries line payload =
    (rest front : String) × (line ≡ String.◌++◌ "data:" rest)
    × IsCut is_whitespace rest front payload

not_equal : (s t : String) → (s == t) ≡ false → s ≢ t
not_equal s t h = ground (arith, eq_iff s t)

module _ (S : Serde) where
  open S use {Value, get, as_str, as_array, is_null, from_str}

  -- The text at `choices[0].delta.content`.
  abbrev pub first_content : Value → Option String
  first_content v = and_then (get v "choices") λ choices.
      and_then (as_array choices)
        λ a. and_then (first a) λ c. and_then (get c "delta") λ d. and_then (get d "content") as_str

  -- The event of a JSON payload.
  pub data Event (v : Value) : SseEvent S → Type 0 where
    text : {t : String} → first_content v ≡ some t → Event v (delta t)
    counts :
        {u : Value}
        → first_content v ≡ none
        → get v "usage" ≡ some u
        → is_null u ≡ false
        → Event v (usage u)
    no_usage : first_content v ≡ none → get v "usage" ≡ none → Event v other
    null_usage :
        {u : Value}
        → first_content v ≡ none
        → get v "usage" ≡ some u
        → is_null u ≡ true
        → Event v other

  -- What a line is read as.
  pub data Reads (line : String) : Option (SseEvent S) → Type 0 where
    no_data : ((rest : String) → line ≢ String.◌++◌ "data:" rest) → Reads line none
    sentinel : Carries line "[DONE]" → Reads line (some done)
    malformed :
        {payload : String}
        → Carries line payload
        → payload ≢ "[DONE]"
        → from_str payload ≡ none
        → Reads line none
    event :
        {payload : String} {v : Value} {e : SseEvent S}
        → Carries line payload
        → payload ≢ "[DONE]"
        → from_str payload ≡ some v
        → Event v e
        → Reads line (some e)

  classify-Event : (v : Value) → Event v (classify S v)
  unfolding classify
  classify-Event v = elim (Option-cases (first_content v)) [
    | inr (t, said) ↦ rw (classify, said) (text said)
    | inl silent ↦
        rw (classify, silent)
          (elim (Option-cases (get v "usage")) [
            | inl absent ↦ rw absent (no_usage silent absent)
            | inr (u, there) ↦ rw there (elim (Bool-cases (is_null u)) [
              | inl null ↦ rw null (null_usage silent there null)
              | inr counted ↦ rw counted (counts silent there counted)
            ])
          ])
  ]

  payload_event-Reads :
      (line payload : String) → Carries line payload → Reads line (payload_event S payload)
  unfolding payload_event
  payload_event-Reads line payload c = elim (Bool-cases (payload == "[DONE]")) [
    | inl last ↦ rw last (sentinel (subst (Carries line) ((eq_iff payload "[DONE]").0 last) c))
    | inr not_last ↦ rw not_last (elim (Option-cases (from_str payload)) [
      | inl bad ↦ rw bad (malformed c (not_equal _ _ not_last) bad)
      | inr (v, good) ↦ rw good (event c (not_equal _ _ not_last) good (classify-Event v))
    ])
  ]

  -- Every line is read as its form says: a line without `data:` as nothing; a `data:` line, by its payload
  -- behind the white space, as the end for the sentinel, as nothing where the payload is no JSON, and otherwise
  -- as the text of its first choice where there is one, else as its usage where that is not null, else as
  -- an event without meaning.
  pub parse_sse_line-Reads : (line : String) → Reads line (parse_sse_line S line)
  unfolding parse_sse_line trim_start
  parse_sse_line-Reads line = elim (Option-cases (strip_prefix "data:" line)) [
    | inl absent ↦ rw absent (no_data (strip_prefix-none "data:" line absent))
    | inr (rest, there) ↦
        let (front, cut) = trim_start_matches-IsCut is_whitespace rest in
        rw there
          (payload_event-Reads line _ (rest, front, strip_prefix-some "data:" line there, cut))
  ]
