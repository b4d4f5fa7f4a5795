-- ===== src/Run/Job.antt =====
-- src/run.rs: `handle_job` and `stream_job`, one job against the local inference server.
pub mod Transcript
pub mod Lines
pub mod Streaming
pub mod Chunking
use Prim.Native.String
use nexus_client.Prelude.{
  ℕ, ◌+◌, ◌-◌, ◌^◌, min, Bool, true, false, Option, none, some, List, [], ◌∷◌, ◌++◌, String, Char,
  code, len, ltb, eqb, ◌||◌, unwrap_or, if◌then◌else◌,
}
use nexus_client.Text.{is_empty, trim_end_matches, take_chars}
use nexus_client.Utf8.{from_utf8_lossy}
use nexus_client.External.Serde.{Serde, json}
use nexus_client.Limits.Body.{max_sse_buffer_bytes, max_job_output_bytes, sanitize_job_body}
use nexus_client.Protocol.Frames.{chunk_frame, done_frame, job_error_frame}
use nexus_client.Protocol.Sse.{SseEvent, parse_sse_line}
use nexus_client.Run.Link.{
  Piece, chunk, broken, elapsed, Upstream, unreachable, http_error, streaming, no_answer, Peer,
  Link, send_text, send_in_time,
}

-- A character in front of what a buffer splits into.
abbrev before : Char → List String × String → List String × String
before c ([], rest) = ([], String.◌∷◌ c rest)
before c (line ∷ lines, rest) = (String.◌∷◌ c line ∷ lines, rest)

abbrev ended : Char → List String × String → List String × String
ended c (lines, rest) = (String.◌∷◌ c "" ∷ lines, rest)

-- All that `while let Some(nl) = buf.find('\n')` drains, each line with its newline, and what is left.
unfoldable pub drain_lines : String → List String × String
drain_lines String.[] = ([], "")
drain_lines (String.◌∷◌ c s) =
    if eqb (code c) b'\n' then ended c (drain_lines s) else before c (drain_lines s)

abbrev is_line_end : ℕ → Bool
is_line_end c = eqb c b'\r' || eqb c b'\n'

-- `usize::saturating_add`
abbrev saturating_add : ℕ → ℕ → ℕ
saturating_add a b = min (a + b) (2 ^ 64 - 1)

module _ (S : Serde) where
  open S use {Value}

  pub record JobState : Type 0 where
    pub total_out : ℕ
    pub final_usage : Option Value

  -- After a line: the job is over, `none` by its deadline, or goes on.
  pub data Flow : Type 0 where
    finished : Option Bool → Flow
    more : JobState → Flow

  module _ (peer : Peer S) (job_id : String) where
    abbrev fail : String → Link S → Option Bool × Link S
    fail msg l = send_in_time S peer (job_error_frame S job_id msg) l

    abbrev return : Option Bool × Link S → Flow × Link S
    return (r, l) = (finished r, l)

    abbrev after_chunk : Option Bool × Link S → JobState → Flow × Link S
    after_chunk (some true, l) st = (more st, l)
    after_chunk (some false, l) st = (finished (some false), l)
    after_chunk (none, l) st = (finished none, l)

    on_delta : String → JobState → Link S → Flow × Link S
    on_delta delta st l =
        let total = saturating_add st.total_out (len delta) in
        if is_empty delta
        then (more st, l)
        else if ltb max_job_output_bytes total
        then return (fail "job exceeded output size limit" l)
        else after_chunk (send_in_time S peer (chunk_frame S job_id delta) l)
            (record st { total_out = total })

    on_event : Option (SseEvent S) → JobState → Link S → Flow × Link S
    unfolding on_delta
    on_event (some (SseEvent.delta delta)) st l = on_delta delta st l
    on_event (some (SseEvent.usage u)) st l = (more (record st { final_usage = some u }), l)
    on_event (some SseEvent.done) st l =
        return (send_in_time S peer (done_frame S job_id (unwrap_or st.final_usage (json S []))) l)
    on_event (some SseEvent.other) st l = (more st, l)
    on_event none st l = (more st, l)

    on_line : String → JobState → Link S → Flow × Link S
    unfolding on_event
    on_line line st l =
        let trimmed = trim_end_matches is_line_end line in
        if is_empty trimmed then (more st, l) else on_event (parse_sse_line S trimmed) st l

    abbrev next_line : Flow × Link S → (JobState → Link S → Flow × Link S) → Flow × Link S
    next_line (finished r, l) rest = (finished r, l)
    next_line (more st, l) rest = rest st l

    pub lines_loop : List String → JobState → Link S → Flow × Link S
    unfolding on_line
    lines_loop [] st l = (more st, l)
    lines_loop (line ∷ lines) st l = next_line (on_line line st l) (lines_loop lines)

    abbrev resume :
        Flow × Link S → (JobState → Link S → Option Bool × Link S) → Option Bool × Link S
    resume (finished r, l) rest = (r, l)
    resume (more st, l) rest = rest st l

    on_chunk :
        String
        → JobState
        → Link S
        → (String → JobState → Link S → Option Bool × Link S)
        → Option Bool × Link S
    unfolding lines_loop
    on_chunk buf st l rest =
        if ltb max_sse_buffer_bytes (len buf)
        then fail "upstream produced an oversized line" l
        else let (lines, buf') = drain_lines buf in resume (lines_loop lines st l) (rest buf')

    -- The loop over the response's stream; `none` is the deadline.
    pieces_loop : List Piece → String → JobState → Link S → Option Bool × Link S
    unfolding on_chunk
    pieces_loop [] buf st l =
        send_in_time S peer (done_frame S job_id (unwrap_or st.final_usage (json S []))) l
    pieces_loop (elapsed ∷ pieces) buf st l = (none, l)
    pieces_loop (broken e ∷ pieces) buf st l = fail (String.◌++◌ "upstream stream error: " e) l
    pieces_loop (chunk bytes ∷ pieces) buf st l =
        on_chunk (String.◌++◌ buf (from_utf8_lossy bytes)) st l (pieces_loop pieces)

    pub on_upstream : Upstream → Link S → Option Bool × Link S
    unfolding pieces_loop
    on_upstream (unreachable e) l = fail (String.◌++◌ "upstream request failed: " e) l
    on_upstream (http_error status detail) l =
        fail
          (String.◌++◌ "upstream HTTP "
            (String.◌++◌ status (String.◌++◌ ": " (take_chars 200 detail))))
          l
    on_upstream (streaming pieces) l =
        pieces_loop pieces "" (record { total_out = 0; final_usage = none }) l
    on_upstream no_answer l = (none, l)

    abbrev pub post : String → Value → Link S → Link S
    post url body l = record l { posted = l.posted ++ (url, body) ∷ [] }

    unfoldable pub stream_job : String → Value → Link S → Option Bool × Link S
    unfolding on_upstream
    stream_job upstream_url body l =
        let l' = post upstream_url body l in on_upstream (peer.upstream l'.posted) l'

    abbrev within_timeout : Option Bool × Link S → Bool × Link S
    within_timeout (some alive, l) = (alive, l)
    within_timeout (none, l) =
        send_text S peer (job_error_frame S job_id "job exceeded time limit") l

    unfoldable pub handle_job : String → String → Value → Link S → Bool × Link S
    unfolding stream_job
    handle_job upstream_url model body l =
        within_timeout (stream_job upstream_url (sanitize_job_body S body model) l)
