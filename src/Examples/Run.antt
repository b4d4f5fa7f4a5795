-- ===== src/Examples/Run.antt =====
-- The pull loop at concrete inputs.
use nexus_client.Prelude.{
  ℕ, ◌≡◌, ◌+◌, some, none, Option, refl, List, [], ◌∷◌, ◌++◌, String, arith, length, eqb, true,
  if◌then◌else◌,
}
use nexus_client.Run.Reconnect.{SessionOutcome, rejected, reconnect_loop}
use nexus_client.Run.Reconnect.Schedule.{Scheduled, reconnect_loop-Scheduled}
use nexus_client.Utf8.{as_bytes}
use nexus_client.Run.Link.{chunk, broken, streaming, frame, Peer}
use nexus_client.Protocol.Frames.{chunk_frame, done_frame, job_error_frame}
use nexus_client.Run.Job.{post, on_upstream, handle_job}
use nexus_client.Run.Job.Chunking.{chunks_of, on_upstream_rechunked}
use nexus_client.Run.Job.Transcript.{Transcript, Finishes}
use nexus_client.Run.Job.Streaming.{handle_job-Transcript}
use nexus_client.Run.Serve.{text, Wake, message, signal, serve}
use nexus_client.Run.Serve.Security.{Session, serve-Session}
use nexus_client.Run.Serve.Outcomes.{Explained, serve-Explained}
use nexus_client.Limits.Body.{sanitize_job_body}
use nexus_client.Examples.Json.{sample_serde, null}
use nexus_client.Examples.Parts.{
  sample_peer, fresh, sample_config, sample_base58, sample_ed25519, sample_nonce,
}

-- A whole session: challenge, ready, a job, ctrl-c.
abbrev script : List Wake
script = message (text "CHALLENGE") ∷ message (text "READY") ∷ message (text "JOB") ∷ signal ∷ []

serve-Session_example :
    Session sample_serde sample_peer sample_config sample_base58 sample_ed25519 sample_nonce
      "wallet" fresh
      (serve sample_serde sample_peer sample_config sample_base58 sample_ed25519 sample_nonce
        "wallet" script fresh).1
serve-Session_example =
    serve-Session sample_serde sample_peer sample_config sample_base58 sample_ed25519 sample_nonce
      "wallet" script fresh

serve-Explained_example :
    Explained sample_serde
      (serve sample_serde sample_peer sample_config sample_base58 sample_ed25519 sample_nonce
        "wallet" script fresh).0
      script
serve-Explained_example =
    serve-Explained sample_serde sample_peer sample_config sample_base58 sample_ed25519 sample_nonce
      "wallet" script fresh

-- The deadline comes when `done` is queued behind one chunk.
abbrev stalling_peer : Peer sample_serde
stalling_peer = record sample_peer {
  stalls = λ sent. if eqb (length sent) 1 then some true else none;
}

handle_job-Transcript_example :
    Transcript sample_serde "j1"
      (post sample_serde stalling_peer "j1" "http://up"
        (sanitize_job_body sample_serde null "hermes-3")
        fresh)
      (handle_job sample_serde stalling_peer "j1" "http://up" "hermes-3" null fresh).1
      0
      (Finishes sample_serde "j1" stalling_peer
        (handle_job sample_serde stalling_peer "j1" "http://up" "hermes-3" null fresh).0)
handle_job-Transcript_example =
    handle_job-Transcript sample_serde stalling_peer "j1" "http://up" "hermes-3" null fresh

-- Then the gateway gets two terminal frames.
done_and_job_error :
    (handle_job sample_serde stalling_peer "j1" "http://up" "hermes-3" null fresh).1.sent
    ≡ frame (chunk_frame sample_serde "j1" "hi")
      ∷ frame (done_frame sample_serde "j1" (nexus_client.External.Serde.json sample_serde []))
      ∷ frame (job_error_frame sample_serde "j1" "job exceeded time limit")
      ∷ []
unfolding handle_job nexus_client.Run.Job.stream_job nexus_client.Run.Link.send_in_time
    nexus_client.Run.Link.send_text nexus_client.Run.Job.drain_lines
    nexus_client.Utf8.from_utf8_lossy nexus_client.Utf8.from_u32
    nexus_client.Text.trim_start_matches nexus_client.Text.is_whitespace
    nexus_client.Protocol.Sse.parse_sse_line nexus_client.Text.trim_end_matches
    nexus_client.Text.trim_start nexus_client.Text.strip_prefix nexus_client.Utf8.as_bytes
    nexus_client.Text.is_empty
done_and_job_error = refl

-- The end of the stream, cut in the middle of its line.
on_upstream_rechunked_example :
    on_upstream sample_serde sample_peer "j1"
      (streaming (chunks_of ("data: [DO" ∷ "NE]\n\n" ∷ []) ++ (broken "reset" ∷ [])))
      fresh
    ≡ on_upstream sample_serde sample_peer "j1"
        (streaming (chunk (as_bytes "data: [DONE]\n\n") ∷ broken "reset" ∷ []))
        fresh
on_upstream_rechunked_example =
    on_upstream_rechunked sample_serde sample_peer "j1" "data: [DO" ("NE]\n\n" ∷ [])
      (broken "reset" ∷ []) fresh (omega arith)

-- Sessions of a gateway that disconnects the node, and after the dial failed rejects it.
abbrev session : String → ℕ → SessionOutcome × ℕ
session reason n = (rejected reason, n + 1)

abbrev dials : List (Option String × ℕ)
dials = (none, 5) ∷ (some "banned", 6) ∷ []

reconnect_loop-Scheduled_example : Scheduled session dials 0 0 [] (reconnect_loop session dials 0)
reconnect_loop-Scheduled_example = reconnect_loop-Scheduled session dials 0
