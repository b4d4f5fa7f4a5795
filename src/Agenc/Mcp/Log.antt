-- ===== src/Agenc/Mcp/Log.antt =====
-- The lines that `McpClient` of agenc-worker/src/builder.rs writes.
use Prim.Native.String
use mathlib.Core.List.{append-nil, append_assoc}
use nexus_client.Prelude.{
  ℕ, ℤ, ◌+◌, ◌≡◌, ◌≢◌, refl, sym, subst, List, [], ◌∷◌, ◌++◌, String, Result, ok, err,
}
use nexus_client.External.Serde.{Serde, json}
use nexus_client.Agenc.Mcp.{
  Turn, unwritten, unflushed, unread, closed, line, Child, McpClient, McpError, lines_after,
  request_line, request, call_params, call_tool, read_turn, spawn,
}

module _ (S : Serde) (child : Child) where
  -- The line of a JSON-RPC 2.0 request.
  abbrev pub rpc_line : ℕ → String → S.Value → String
  rpc_line id method params =
      String.◌++◌
        (S.to_string (
          json S (
            ("jsonrpc", S.string "2.0")
            ∷ ("id", S.int (ℤ.pos id))
            ∷ ("method", S.string method)
            ∷ ("params", params)
            ∷ [])))
        "\n"

  -- The line of a tool's call.
  abbrev pub tool_line : ℕ → String → S.Value → String
  tool_line id name args =
      rpc_line id "tools/call" (json S (("name", S.string name) ∷ ("arguments", args) ∷ []))

  -- The client after these calls: its lines are the `initialize` request, numbered 1, and the calls whose
  -- line was written, in their order; every call takes the next number, and one whose write fails adds no line.
  pub data Log : List (String × S.Value) → McpClient → Type 0 where
    opened : Log [] (record { next_id = 1; lines = rpc_line 1 "initialize" (json S []) ∷ [] })
    called :
        (calls : List (String × S.Value)) (id : ℕ) (lines : List String) (name : String)
        (args : S.Value)
        → Log calls (record { next_id = id; lines = lines })
        → ((e : String) → child (id + 1) (lines ++ tool_line (id + 1) name args ∷ []) ≢ unwritten e)
        → Log
            (calls ++ (name, args) ∷ [])
            (record { next_id = id + 1; lines = lines ++ tool_line (id + 1) name args ∷ [] })
    failed :
        (calls : List (String × S.Value)) (id : ℕ) (lines : List String) (name : String)
        (args : S.Value) (e : String)
        → Log calls (record { next_id = id; lines = lines })
        → child (id + 1) (lines ++ tool_line (id + 1) name args ∷ []) ≡ unwritten e
        → Log (calls ++ (name, args) ∷ []) (record { next_id = id + 1; lines = lines })

  after_turn-Log :
      (calls : List (String × S.Value)) (c : McpClient) (name : String) (args : S.Value) (t : Turn)
      → Log calls c
      → child (c.next_id + 1) (c.lines ++ tool_line (c.next_id + 1) name args ∷ []) ≡ t
      → Log (calls ++ (name, args) ∷ []) (record {
        next_id = c.next_id + 1;
        lines = lines_after S t c.lines (tool_line (c.next_id + 1) name args);
      })
  after_turn-Log calls c name args (unwritten e) l h =
      failed calls c.next_id c.lines name args e l h
  after_turn-Log calls c name args (unflushed e) l h =
      called calls c.next_id c.lines name args l (λ x k. cc)
  after_turn-Log calls c name args (unread e) l h =
      called calls c.next_id c.lines name args l (λ x k. cc)
  after_turn-Log calls c name args closed l h =
      called calls c.next_id c.lines name args l (λ x k. cc)
  after_turn-Log calls c name args (line t) l h =
      called calls c.next_id c.lines name args l (λ x k. cc)

  call_tool-Log :
      (calls : List (String × S.Value)) (c : McpClient) (name : String) (args : S.Value)
      → Log calls c
      → Log (calls ++ (name, args) ∷ []) (call_tool S child name args c).1
  unfolding call_tool request request_line
  call_tool-Log calls c name args l = after_turn-Log calls c name args _ l refl

  initialized_lem :
      (r : Result S.Value (McpError S)) (c c' : McpClient)
      → Log [] c
      → nexus_client.Agenc.Mcp.initialized S (r, c) ≡ ok c'
      → Log [] c'
  initialized_lem (ok v) c c' l e = let same : c ≡ c' = cc in subst (Log []) same l
  initialized_lem (err x) c c' l e = cc

  -- The calls of a session, made one after the other.
  abbrev pub call_all : List (String × S.Value) → McpClient → McpClient
  call_all [] c = c
  call_all ((name, args) ∷ rest) c = call_all rest (call_tool S child name args c).1

  call_all-Log :
      (done rest : List (String × S.Value)) (c : McpClient)
      → Log done c
      → Log (done ++ rest) (call_all rest c)
  call_all-Log done [] c l = subst (λ x. Log x c) (sym (append-nil done)) l
  call_all-Log done ((name, args) ∷ rest) c l =
      subst (λ x. Log x (call_all rest (call_tool S child name args c).1))
        (append_assoc done ((name, args) ∷ []) rest)
        (call_all-Log (done ++ (name, args) ∷ []) rest _ (call_tool-Log done c name args l))

  -- The handshake's line, where the handshake succeeds.
  handshake-Log :
      (t : Turn) (c : McpClient)
      → nexus_client.Agenc.Mcp.initialized S (
        read_turn S "initialize" t,
        record { next_id = 1; lines = lines_after S t [] (rpc_line 1 "initialize" (json S [])) },
      )
        ≡ ok c
      → Log [] c
  unfolding read_turn
  handshake-Log (line t) c e = initialized_lem (read_turn S "initialize" (line t)) _ c opened e
  handshake-Log (unwritten x) c e = cc
  handshake-Log (unflushed x) c e = cc
  handshake-Log (unread x) c e = cc
  handshake-Log closed c e = cc

  -- Whatever the child answers and whichever pipe fails: after a handshake that succeeded, the lines that a
  -- session has written are the handshake's JSON-RPC request, numbered 1, and one request for each call of a
  -- tool whose write did not fail, in the order of the calls, where every call, written or not, takes the
  -- next number.
  pub session-Log :
      (calls : List (String × S.Value)) (c : McpClient)
      → spawn S (ok child) ≡ ok c
      → Log calls (call_all calls c)
  unfolding spawn request request_line
  session-Log calls c e = call_all-Log [] calls c (handshake-Log _ c e)
