-- ===== src/Agenc/Mcp.antt =====
-- agenc-worker/src/builder.rs: `McpClient`, which speaks JSON-RPC with a child process, one line each
-- way. The child is a function of the number of the request and of the lines that it has been sent, this
-- request's line as the last one. A line whose write fails is not among those of later requests; a part of it
-- that may have reached the child is not kept.
pub mod Log
pub mod Payload
use Prim.Native.String
use nexus_client.Prelude.{
  ℕ, ◌+◌, ℤ, Bool, Option, none, some, List, [], ◌∷◌, ◌++◌, String, Result, ok, err, ok_or,
  ok_and_then, and_then, if◌then◌else◌,
}
use nexus_client.Text.{trim}
use nexus_client.External.Serde.{Serde, json}
use nexus_client.Protocol.Sse.{first}

-- What became of one exchange: a failing pipe, the end of the child's output, or a line.
pub data Turn : Type 0 where
  unwritten : String → Turn
  unflushed : String → Turn
  unread : String → Turn
  closed : Turn
  line : String → Turn

abbrev pub Child : Type 0
Child = ℕ → List String → Turn

-- `next_id`, and the lines that were written whole.
pub record McpClient : Type 0 where
  pub next_id : ℕ
  pub lines : List String

module _ (S : Serde) where
  open S use {Value, get, is_null, as_array, as_str, from_str, to_string, string, int}

  -- The errors, which the source gives as texts with their context; the first field is the method or tool.
  pub data McpError : Type 0 where
    not_written : String → String → McpError
    not_flushed : String → String → McpError
    not_read : String → String → McpError
    child_exited : String → McpError
    unparsed : String → McpError
    json_rpc_error : String → Value → McpError
    missing_text : String → Value → McpError
    bad_payload : String → String → McpError
    tool_error : String → Value → McpError
    not_spawned : String → McpError
    handshake_failed : McpError → McpError

  unfoldable pub request_line : ℕ → String → Value → String
  request_line id method params =
      String.◌++◌
        (to_string (
          json S (
            ("jsonrpc", string "2.0")
            ∷ ("id", int (ℤ.pos id))
            ∷ ("method", string method)
            ∷ ("params", params)
            ∷ [])))
        "\n"

  -- A null `error` is none.
  abbrev unless_rpc_error : String → Option Value → Value → Result Value McpError
  unless_rpc_error method none resp = ok resp
  unless_rpc_error method (some e) resp =
      if is_null e then ok resp else err (json_rpc_error method e)

  unfoldable pub read_turn : String → Turn → Result Value McpError
  read_turn method (unwritten e) = err (not_written method e)
  read_turn method (unflushed e) = err (not_flushed method e)
  read_turn method (unread e) = err (not_read method e)
  read_turn method closed = err (child_exited method)
  read_turn method (line l) =
      ok_and_then (ok_or (from_str (trim l)) (unparsed (trim l)))
        λ resp. unless_rpc_error method (get resp "error") resp

  abbrev unless_tool_error : String → Option Value → Value → Result Value McpError
  unless_tool_error name none inner = ok inner
  unless_tool_error name (some e) inner = err (tool_error name e)

  -- `result.content[0].text`
  abbrev pub inner_text : Value → Option String
  inner_text resp = and_then (get resp "result") λ r. and_then (get r "content") λ c.
      and_then (as_array c)
        λ items. and_then (first items) λ item. and_then (get item "text") as_str

  unfoldable pub unwrap : String → Value → Result Value McpError
  unwrap name resp = ok_and_then (ok_or (inner_text resp) (missing_text name resp)) λ text.
      ok_and_then (ok_or (from_str text) (bad_payload name text))
        λ inner. unless_tool_error name (get inner "error") inner

  -- The lines with one more, unless its write failed.
  abbrev pub lines_after : Turn → List String → String → List String
  lines_after (unwritten e) lines text = lines
  lines_after _ lines text = lines ++ text ∷ []

  module _ (child : Child) where
    unfoldable pub request : String → Value → McpClient → Result Value McpError × McpClient
    request method params c =
        let id = c.next_id + 1 in
        let text = request_line id method params in
        let turn = child id (c.lines ++ text ∷ []) in
        (read_turn method turn, record { next_id = id; lines = lines_after turn c.lines text })

    abbrev pub call_params : String → Value → Value
    call_params name args = json S (("name", string name) ∷ ("arguments", args) ∷ [])

    unfoldable pub call_tool : String → Value → McpClient → Result Value McpError × McpClient
    call_tool name args c =
        let (r, c') = request "tools/call" (call_params name args) c in
        (ok_and_then r (unwrap name), c')

  abbrev initialized : Result Value McpError × McpClient → Result McpClient McpError
  initialized (ok resp, c) = ok c
  initialized (err e, c) = err (handshake_failed e)

  -- The started process, or why it did not start.
  unfoldable pub spawn : Result Child String → Result McpClient McpError
  spawn (err e) = err (not_spawned e)
  spawn (ok child) =
      initialized (request child "initialize" (json S []) (record { next_id = 0; lines = [] }))
