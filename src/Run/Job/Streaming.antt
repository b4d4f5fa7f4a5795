-- ===== src/Run/Job/Streaming.antt =====
-- The transcript of `stream_job` and `handle_job`, for every gateway and every upstream.

use mathlib.Core.List.{append_assoc}
use nexus_client.Prelude.{
  ℕ, ◌≤◌, refl, ap, ◌∙◌, inl, inr, true, false, Bool, Bool-cases, Option, none, some, List, [], ◌∷◌,
  String, len, ltb, arith, ◌++◌,
}
use nexus_client.External.Serde.{Serde}
use nexus_client.Limits.Body.{max_sse_buffer_bytes, max_job_output_bytes, sanitize_job_body}
use nexus_client.Run.Link.{
  Piece, chunk, broken, elapsed, Upstream, unreachable, http_error, streaming, no_answer, Peer,
  Link, send_text,
}
use nexus_client.Run.Job.{
  JobState, Flow, finished, more, resume, drain_lines, lines_loop, on_chunk, pieces_loop,
  on_upstream, post, within_timeout, stream_job, handle_job,
}
use nexus_client.Run.Job.Lines.{
  After, send_in_time-Transcript, unchanged-Transcript, lines_loop-After,
}
use nexus_client.Run.Job.Transcript.{
  Transcript, Closes, Finishes, time_limit, chunks, Chunks-Transcript,
}

module _ (S : Serde) (peer : Peer S) (job_id : String) where
  -- A whole result, with the deadline as `none`.
  abbrev Ended : Link S → ℕ → Option Bool × Link S → Type 0
  Ended l used (r, l') = Transcript S job_id l l' used (Closes S job_id peer r)

  resume-Ended :
      (r : Flow S × Link S) (rest : JobState S → Link S → Option Bool × Link S) (l : Link S)
      (used : ℕ)
      → After S peer job_id l used r
      → ((st : JobState S) (l' : Link S)
          → st.total_out ≤ max_job_output_bytes
          → Ended l' st.total_out (rest st l'))
      → Ended l used (resume S peer job_id r rest)
  resume-Ended (finished r, l') rest l used a k = a
  resume-Ended (more st, l') rest l used a k = Chunks-Transcript S job_id a (k st l' a.bounded)

  on_chunk-Ended :
      (buf : String) (st : JobState S) (l : Link S)
      (rest : String → JobState S → Link S → Option Bool × Link S)
      → st.total_out ≤ max_job_output_bytes
      → ((buf' : String) (st' : JobState S) (l' : Link S)
          → st'.total_out ≤ max_job_output_bytes
          → Ended l' st'.total_out (rest buf' st' l'))
      → Ended l st.total_out (on_chunk S peer job_id buf st l rest)
  unfolding on_chunk
  on_chunk-Ended buf st l rest h k = elim (Bool-cases (ltb max_sse_buffer_bytes (len buf))) [
    | inl over ↦ rw over (send_in_time-Transcript S peer job_id _ l st.total_out h (inr (_, refl)))
    | inr fits ↦ rw fits (
        let (lines, buf') = drain_lines buf in
        resume-Ended (lines_loop S peer job_id lines st l) (rest buf') l st.total_out
          (lines_loop-After S peer job_id lines st l h) (k buf'))
  ]

  -- The deadline, with no write pending.
  elapsed-Ended : (l : Link S) (used : ℕ) → used ≤ max_job_output_bytes → Ended l used (none, l)
  elapsed-Ended l used h = unchanged-Transcript S peer job_id l used h (inl refl)

  pieces_loop-Ended :
      (pieces : List Piece) (buf : String) (st : JobState S) (l : Link S)
      → st.total_out ≤ max_job_output_bytes
      → Ended l st.total_out (pieces_loop S peer job_id pieces buf st l)
  unfolding pieces_loop
  pieces_loop-Ended [] buf st l h =
      send_in_time-Transcript S peer job_id _ l st.total_out h (inl (_, refl))
  pieces_loop-Ended (elapsed ∷ pieces) buf st l h = elapsed-Ended l st.total_out h
  pieces_loop-Ended (broken e ∷ pieces) buf st l h =
      send_in_time-Transcript S peer job_id _ l st.total_out h (inr (_, refl))
  pieces_loop-Ended (chunk bytes ∷ pieces) buf st l h =
      on_chunk-Ended _ st l _ h (λ buf' st' l' h'. pieces_loop-Ended pieces buf' st' l' h')

  on_upstream-Ended :
      (answer : Upstream) (l : Link S) → Ended l 0 (on_upstream S peer job_id answer l)
  unfolding on_upstream
  on_upstream-Ended (unreachable e) l =
      send_in_time-Transcript S peer job_id _ l 0 (omega arith) (inr (_, refl))
  on_upstream-Ended (http_error status detail) l =
      send_in_time-Transcript S peer job_id _ l 0 (omega arith) (inr (_, refl))
  on_upstream-Ended (streaming pieces) l = pieces_loop-Ended pieces "" _ l (omega arith)
  on_upstream-Ended no_answer l = elapsed-Ended l 0 (omega arith)

  -- `stream_job` makes one POST of the body and writes some non-empty chunks of at most 8 MiB of text
  -- in all; then comes one `done` or `job_error` where it returns with the socket alive, nothing where a
  -- write failed, and nothing or a stalled one of these where the deadline came. It signs nothing.
  pub stream_job-Transcript :
      (url : String) (body : S.Value) (l : Link S)
      → Transcript S job_id
          (post S peer job_id url body l)
          (stream_job S peer job_id url body l).1
          0
          (Closes S job_id peer (stream_job S peer job_id url body l).0)
  unfolding stream_job
  stream_job-Transcript url body l =
      on_upstream-Ended (peer.upstream (post S peer job_id url body l).posted)
        (post S peer job_id url body l)

  -- The `job_error` of the time limit is tried behind what was written before the deadline.
  time_limit-Transcript :
      (l l' : Link S)
      → Ended l 0 (none, l')
      → Transcript S job_id l
          (within_timeout S peer job_id (none, l')).1
          0
          (Finishes S job_id peer (within_timeout S peer job_id (none, l')).0)
  unfolding send_text
  time_limit-Transcript l l' t = elim (Bool-cases (peer.accepts l'.sent)) [
    | inl alive ↦ rw alive (record {
      deltas = t.deltas;
      tail = t.tail ++ time_limit S job_id peer ∷ [];
      sent =
          ap (λ xs. xs ++ time_limit S job_id peer ∷ []) t.sent
          ∙ append_assoc l.sent _ _
          ∙ ap (λ xs. l.sent ++ xs) (append_assoc (chunks S job_id t.deltas) t.tail _);
      posted = t.posted;
      signed = t.signed;
      nonempty = t.nonempty;
      bounded = t.bounded;
      ends = elim t.ends [
        | inl e ↦ inl (_, ap (λ xs. xs ++ time_limit S job_id peer ∷ []) e, inr (_, refl))
        | inr (f, e, terminal, stalled) ↦
            inr (f, ap (λ xs. xs ++ time_limit S job_id peer ∷ []) e, terminal, stalled)
      ];
    })
    | inr dead ↦ rw dead (record {
      deltas = t.deltas;
      tail = t.tail;
      sent = t.sent;
      posted = t.posted;
      signed = t.signed;
      nonempty = t.nonempty;
      bounded = t.bounded;
      ends = t.ends;
    })
  ]

  within_timeout-Transcript :
      (l : Link S) (r : Option Bool × Link S)
      → Ended l 0 r
      → Transcript S job_id l
          (within_timeout S peer job_id r).1
          0
          (Finishes S job_id peer (within_timeout S peer job_id r).0)
  within_timeout-Transcript l (some true, l') t = record {
    deltas = t.deltas;
    tail = t.tail;
    sent = t.sent;
    posted = t.posted;
    signed = t.signed;
    nonempty = t.nonempty;
    bounded = t.bounded;
    ends = inl t.ends;
  }
  within_timeout-Transcript l (some false, l') t = record {
    deltas = t.deltas;
    tail = t.tail;
    sent = t.sent;
    posted = t.posted;
    signed = t.signed;
    nonempty = t.nonempty;
    bounded = t.bounded;
    ends = inl t.ends;
  }
  within_timeout-Transcript l (none, l') t = time_limit-Transcript l l' t

  -- A job, whatever the gateway asked for and however the upstream answers: one POST, of the sanitized
  -- body, and no signature; then some non-empty chunks of at most 8 MiB of text in all. If `handle_job`
  -- returns true, exactly one `done` or `job_error` frame follows, but where the deadline comes while the
  -- socket has queued that frame and its write is pending, a `job_error` for the time limit follows it.
  -- If it returns false, nothing follows but a frame that was queued in this way.
  pub handle_job-Transcript :
      (url model : String) (body : S.Value) (l : Link S)
      → Transcript S job_id
          (post S peer job_id url (sanitize_job_body S body model) l)
          (handle_job S peer job_id url model body l).1
          0
          (Finishes S job_id peer (handle_job S peer job_id url model body l).0)
  unfolding handle_job
  handle_job-Transcript url model body l =
      within_timeout-Transcript (post S peer job_id url (sanitize_job_body S body model) l)
        (stream_job S peer job_id url (sanitize_job_body S body model) l)
        (stream_job-Transcript url (sanitize_job_body S body model) l)
