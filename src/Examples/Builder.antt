-- ===== src/Examples/Builder.antt =====
-- The builder's session and the provider's iteration at concrete inputs.
use nexus_client.Prelude.{◌≢◌, [], ◌∷◌, ok, err, inl, inr, arith}
use nexus_client.Agenc.Net.{Event, posted, fetched, called, Mcp, Servers}
use nexus_client.Agenc.Builder.{drive_builder, unfinished}
use nexus_client.Agenc.Builder.Termination.{drive_builder-ne-unfinished}
use nexus_client.Examples.Json.{sample_serde, Value, object, field, end, string}
use nexus_client.Examples.Parts.{sample_base58, sample_ed25519, sample_hashing, sample_nonce}

-- Every tool answers with a challenge, a session and the files of a finished one.
abbrev finished_session : Value
finished_session = object (
    field "message" (string "sign me") (
      field "session_id" (string "s1") (
        field "status" (string "done")
          (field "files" (object (field "index.html" (string "<p>") end)) end))))

abbrev pub sample_mcp : Mcp sample_serde
sample_mcp h = ok finished_session

-- Every tool answers that the session runs, or waits for the plan's approval.
abbrev planning : Value
planning = object (
    field "message" (string "sign me") (
      field "session_id" (string "s1")
        (field "phase" (string "plan") (field "status" (string "waiting_approval") end))))

abbrev planning_mcp : Mcp sample_serde
planning_mcp h = ok planning

drive_builder-ne-unfinished_example :
    (drive_builder sample_serde planning_mcp sample_base58 sample_ed25519 sample_hashing
      sample_nonce "worker" "parcel" "brief" 900
      (0 ∷ 5 ∷ 901 ∷ [])
      []).0
    ≢ err unfinished
drive_builder-ne-unfinished_example =
    drive_builder-ne-unfinished sample_serde planning_mcp sample_base58 sample_ed25519
      sample_hashing sample_nonce "worker" "parcel" "brief" 900 (0 ∷ 5 ∷ 901 ∷ []) []
      (inr (inr (inl (omega arith))))
