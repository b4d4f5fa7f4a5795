-- ===== src/Examples/Mcp.antt =====
-- The tools' client at concrete inputs.
use nexus_client.Prelude.{
  ◌+◌, ◌≡◌, ◌↔◌, refl, List, [], ◌∷◌, ◌++◌, String, ok, some, Option, ◌==◌, if◌then◌else◌,
}
use nexus_client.External.Serde.{Serde}
use nexus_client.Text.{trim}
use nexus_client.Agenc.Mcp.{
  line, Child, McpClient, request_line, read_turn, unwrap, request, call_params, call_tool, spawn,
}
use nexus_client.Agenc.Mcp.Log.{Log, call_all, session-Log}
use nexus_client.Agenc.Mcp.Payload.{Carries, call_tool_iff}
use nexus_client.Examples.Json.{
  sample_serde, Value, object, end, field, string, null, array, cons, nil,
}

abbrev texts : String → Option Value
texts txt =
    if txt == "ANSWER"
    then some (
        object (
          field "result"
            (object
              (field "content" (array (cons (object (field "text" (string "INNER") end)) nil)) end))
            (field "error" null end)))
    else some (string "payload")

abbrev serde : Serde
serde = record sample_serde { from_str = texts }

abbrev child : Child
child id lines = line "ANSWER\n"

abbrev opened : McpClient
opened = record {
  next_id = 1;
  lines = request_line serde 1 "initialize" (nexus_client.External.Serde.json serde []) ∷ [];
}

call_tool_iff_example :
    ((call_tool serde child "nexus_builder_status" (string "s") opened).0 ≡ ok (string "payload"))
    ↔ Carries serde
        (child (opened.next_id + 1) (
          opened.lines
          ++ request_line serde
              (opened.next_id + 1)
              "tools/call"
              (call_params serde child "nexus_builder_status" (string "s"))
            ∷ []))
        (string "payload")
call_tool_iff_example =
    call_tool_iff serde child "nexus_builder_status" (string "s") opened (string "payload")

gives_payload :
    (call_tool serde child "nexus_builder_status" (string "s") opened).0 ≡ ok (string "payload")
unfolding call_tool request read_turn unwrap trim
gives_payload = refl

abbrev calls : List (String × Value)
calls = ("nexus_auth_challenge", string "a") ∷ ("nexus_builder_create", string "b") ∷ []

session-Log_example : Log serde child calls (call_all serde child calls opened)
unfolding spawn request request_line read_turn trim
session-Log_example = session-Log serde child calls opened refl
