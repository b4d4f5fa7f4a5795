-- ===== src/Agenc/Mcp/Payload.antt =====
-- When `McpClient::call_tool` of agenc-worker/src/builder.rs gives a payload.
use nexus_client.Prelude.{
  ◌≡◌, ◌↔◌, refl, subst, ap, ◌∙◌, true, Bool-cases, Option, none, some, inl, inr, ◌++◌, ◌∷◌, [],
  String, ok, ok_and_then, ok_or-eq-ok, ok_and_then-eq-ok, ◌+◌, arith,
}
use nexus_client.Text.{trim}
use nexus_client.External.Serde.{Serde}
use nexus_client.Agenc.Mcp.{
  Turn, unwritten, unflushed, unread, closed, line, Child, McpClient, request_line, read_turn,
  unless_rpc_error, unless_tool_error, inner_text, unwrap, request, call_params, call_tool,
}

module _ (S : Serde) where
  open S use {Value, get, is_null, from_str}

  -- The answer is a line with a JSON value that carries no error, or a null one; the value holds a text at
  -- `result.content[0].text`, and the text is JSON whose value has no `error`.
  pub record Carries (turn : Turn) (v : Value) : Type 0 where
    pub text : String
    pub resp : Value
    pub inner : String
    pub said : turn ≡ line text
    pub parsed : from_str (trim text) ≡ some resp
    pub no_error : (e : Value) → get resp "error" ≡ some e → is_null e ≡ true
    pub held : inner_text S resp ≡ some inner
    pub payload : from_str inner ≡ some v
    pub sound : get v "error" ≡ none

  unless_rpc_error-eq-ok :
      (method : String) (o : Option Value) (resp : Value) {v : Value}
      → unless_rpc_error S method o resp ≡ ok v
      → (resp ≡ v) × ((e : Value) → o ≡ some e → is_null e ≡ true)
  unless_rpc_error-eq-ok method none resp h = (cc, λ e k. cc)
  unless_rpc_error-eq-ok method (some x) resp h = elim (Bool-cases (is_null x)) [
    | inl null ↦ (ground arith, λ e k. cc)
    | inr real ↦ let wrong = rw real at h in cc
  ]

  unless_tool_error-eq-ok :
      (name : String) (o : Option Value) (inner : Value) {v : Value}
      → unless_tool_error S name o inner ≡ ok v
      → (inner ≡ v) × (o ≡ none)
  unless_tool_error-eq-ok name none inner h = (cc, refl)
  unless_tool_error-eq-ok name (some x) inner h = cc

  unwrap-eq-ok :
      (name : String) (resp v : Value)
      → unwrap S name resp ≡ ok v
      → (inner : String) × (inner_text S resp ≡ some inner)
        × (from_str inner ≡ some v)
        × (get v "error" ≡ none)
  unfolding unwrap
  unwrap-eq-ok name resp v h =
      let (inner, held, h1) = ok_and_then-eq-ok _ _ h in
      let (value, parsed, h2) = ok_and_then-eq-ok _ _ h1 in
      let (same, sound) = unless_tool_error-eq-ok name (get value "error") value h2 in
      (
        inner,
        ok_or-eq-ok _ _ held,
        subst (λ x. from_str inner ≡ some x) same (ok_or-eq-ok _ _ parsed),
        subst (λ x. get x "error" ≡ none) same sound,
      )

  Carries-of :
      (method name : String) (turn : Turn) (v : Value)
      → ok_and_then (read_turn S method turn) (unwrap S name) ≡ ok v
      → Carries turn v
  unfolding read_turn
  Carries-of method name (unwritten e) v h = cc
  Carries-of method name (unflushed e) v h = cc
  Carries-of method name (unread e) v h = cc
  Carries-of method name closed v h = cc
  Carries-of method name (line l) v h =
      let (resp, read, h1) = ok_and_then-eq-ok _ _ h in
      let (raw, parsed, h2) = ok_and_then-eq-ok _ _ read in
      let (same, no_error) = unless_rpc_error-eq-ok method (get raw "error") raw h2 in
      let (inner, held, payload, sound) = unwrap-eq-ok name resp v h1 in
      record {
        text = l;
        resp = raw;
        inner = inner;
        said = refl;
        parsed = ok_or-eq-ok _ _ parsed;
        no_error = no_error;
        held = ap (inner_text S) same ∙ held;
        payload = payload;
        sound = sound;
      }

  unless_rpc_error_lem :
      (method : String) (o : Option Value) (resp : Value)
      → ((e : Value) → o ≡ some e → is_null e ≡ true)
      → unless_rpc_error S method o resp ≡ ok resp
  unless_rpc_error_lem method none resp h = refl
  unless_rpc_error_lem method (some e) resp h = rw (h e refl) refl

  of-Carries :
      (method name : String) (turn : Turn) (v : Value)
      → Carries turn v
      → ok_and_then (read_turn S method turn) (unwrap S name) ≡ ok v
  unfolding read_turn unwrap
  of-Carries method name turn v c =
      rw
        (
          c.said,
          c.parsed,
          unless_rpc_error_lem method (get c.resp "error") c.resp c.no_error,
          c.held,
          c.payload,
          c.sound,
        )
        refl

  -- A tool's call gives a value exactly when the child answers the request's line by a line whose JSON carries
  -- no error but a null one and holds, as its first content's text, the JSON of that value, which has no
  -- `error` itself.
  pub call_tool_iff :
      (child : Child) (name : String) (args : Value) (c : McpClient) (v : Value)
      → ((call_tool S child name args c).0 ≡ ok v)
        ↔ Carries
            (child (c.next_id + 1) (
              c.lines
              ++ request_line S (c.next_id + 1) "tools/call" (call_params S child name args) ∷ []))
            v
  unfolding call_tool request
  call_tool_iff child name args c v =
      (λ h. Carries-of "tools/call" name _ v h, λ k. of-Carries "tools/call" name _ v k)
