-- ===== src/Run/Job/Lines.antt =====
-- The chunks and the terminal frame that one line, and a run of lines, of the upstream make src/run.rs
-- write.

use mathlib.Core.List.{append-nil}
use nexus_client.Prelude.{
  ℕ, ◌≤◌, ◌≡◌, refl, sym, ap, ◌∙◌, ◌++◌, inl, inr, true, false, Bool, Bool-cases, Option, none,
  some, List, [], ◌∷◌, String, len, ltb, arith, eq_iff, ltb→le,
}
use nexus_client.Text.{is_empty, trim_end_matches}
use nexus_client.External.Serde.{Serde}
use nexus_client.Limits.Body.{max_job_output_bytes}
use nexus_client.Protocol.Frames.{chunk_frame}
use nexus_client.Protocol.Sse.{SseEvent, parse_sse_line}
use nexus_client.Run.Link.{Outbound, frame, Peer, Link, send_text, send_before, send_in_time}
use nexus_client.Run.Job.{
  JobState, Flow, finished, more, saturating_add, after_chunk, next_line, is_line_end, on_delta,
  on_event, on_line, lines_loop,
}
use nexus_client.Run.Job.Transcript.{
  Ending, Transcript, Chunks, IsTerminal, Closes, Chunks-Transcript, Chunks-trans,
}

module _ (S : Serde) (peer : Peer S) (job_id : String) where
  -- Nothing written yet.
  pub Chunks-refl :
      (l : Link S) (used : ℕ) → used ≤ max_job_output_bytes → Chunks S job_id l l used used
  Chunks-refl l used h = record {
    deltas = [];
    sent = sym (append-nil l.sent);
    posted = refl;
    signed = refl;
    nonempty = tt;
    total = omega arith;
    bounded = h;
  }

  -- Nothing but these last frames.
  pub ended-Transcript :
      {Ends : Ending S job_id} (l l' : Link S) (used : ℕ) (tail : List Outbound)
      → used ≤ max_job_output_bytes
      → l'.sent ≡ l.sent ++ tail
      → l'.posted ≡ l.posted
      → l'.signed ≡ l.signed
      → Ends (l.sent ++ []) tail
      → Transcript S job_id l l' used Ends
  ended-Transcript l l' used tail h sent posted signed ends = record {
    deltas = [];
    tail = tail;
    sent = sent;
    posted = posted;
    signed = signed;
    nonempty = tt;
    bounded = omega arith;
    ends = ends;
  }

  pub unchanged-Transcript :
      {Ends : Ending S job_id} (l : Link S) (used : ℕ)
      → used ≤ max_job_output_bytes
      → Ends (l.sent ++ []) []
      → Transcript S job_id l l used Ends
  unchanged-Transcript l used h ends =
      ended-Transcript l l used [] h (sym (append-nil l.sent)) refl refl ends

  before-Transcript :
      (stalled : Option Bool) (t : String) (l : Link S) (used : ℕ)
      → peer.stalls l.sent ≡ stalled
      → used ≤ max_job_output_bytes
      → IsTerminal S job_id t
      → Transcript S job_id l
          (send_before S stalled peer t l).1
          used
          (Closes S job_id peer (send_before S stalled peer t l).0)
  unfolding send_text
  before-Transcript none t l used e h terminal = elim (Bool-cases (peer.accepts l.sent)) [
    | inl alive ↦
        rw alive (ended-Transcript l _ used (frame t ∷ []) h refl refl refl (t, refl, terminal))
    | inr dead ↦ rw dead (unchanged-Transcript l used h refl)
  ]
  before-Transcript (some true) t l used e h terminal =
      ended-Transcript l _ used (frame t ∷ []) h refl refl refl
        (inr (t, refl, terminal, ap peer.stalls (append-nil l.sent) ∙ e))
  before-Transcript (some false) t l used e h terminal = unchanged-Transcript l used h (inl refl)

  -- One terminal frame is tried.
  pub send_in_time-Transcript :
      (t : String) (l : Link S) (used : ℕ)
      → used ≤ max_job_output_bytes
      → IsTerminal S job_id t
      → Transcript S job_id l
          (send_in_time S peer t l).1
          used
          (Closes S job_id peer (send_in_time S peer t l).0)
  unfolding send_in_time
  send_in_time-Transcript t l used h terminal =
      before-Transcript (peer.stalls l.sent) t l used refl h terminal

  -- What has been written when a line, or a run of lines, is done.
  abbrev pub After : Link S → ℕ → Flow S × Link S → Type 0
  After l used (finished r, l') = Transcript S job_id l l' used (Closes S job_id peer r)
  After l used (more st, l') = Chunks S job_id l l' used st.total_out

  -- One chunk more, in the state that counts it.
  sent_chunk : String → JobState S → JobState S
  sent_chunk delta st = record st { total_out = saturating_add st.total_out (len delta) }

  module _ (delta : String) (st : JobState S) (l : Link S) (text : is_empty delta ≡ false)
      (fits : ltb max_job_output_bytes (saturating_add st.total_out (len delta)) ≡ false) where
    chunk-Chunks :
        Chunks S job_id l
          (record l { sent = l.sent ++ frame (chunk_frame S job_id delta) ∷ [] })
          st.total_out
          (sent_chunk delta st).total_out
    unfolding sent_chunk
    chunk-Chunks = record {
      deltas = delta ∷ [];
      sent = refl;
      posted = refl;
      signed = refl;
      nonempty = (ground (arith, eq_iff delta ""), tt);
      total = ground arith;
      bounded = ltb→le _ _ fits;
    }

    after_chunk-After :
        (stalled : Option Bool)
        → After l st.total_out (
            after_chunk S peer job_id
              (send_before S stalled peer (chunk_frame S job_id delta) l)
              (sent_chunk delta st))
    unfolding send_text sent_chunk
    after_chunk-After none = elim (Bool-cases (peer.accepts l.sent)) [
      | inl alive ↦ rw alive chunk-Chunks
      | inr dead ↦ rw dead (unchanged-Transcript l st.total_out (ground arith) refl)
    ]
    after_chunk-After (some true) =
        Chunks-Transcript S job_id chunk-Chunks
          (unchanged-Transcript _ _ (ltb→le _ _ fits) (inl refl))
    after_chunk-After (some false) = unchanged-Transcript l st.total_out (ground arith) (inl refl)

  on_delta-After :
      (delta : String) (st : JobState S) (l : Link S)
      → st.total_out ≤ max_job_output_bytes
      → After l st.total_out (on_delta S peer job_id delta st l)
  unfolding on_delta send_in_time sent_chunk
  on_delta-After delta st l h = elim (Bool-cases (is_empty delta)) [
    | inl blank ↦ rw blank (Chunks-refl l st.total_out h)
    | inr text ↦
        elim (Bool-cases (ltb max_job_output_bytes (saturating_add st.total_out (len delta)))) [
          | inl over ↦ rw (text, over) (send_in_time-Transcript _ l st.total_out h (inr (_, refl)))
          | inr fits ↦ rw (text, fits) (after_chunk-After delta st l text fits (peer.stalls l.sent))
        ]
  ]

  on_event-After :
      (event : Option (SseEvent S)) (st : JobState S) (l : Link S)
      → st.total_out ≤ max_job_output_bytes
      → After l st.total_out (on_event S peer job_id event st l)
  unfolding on_event
  on_event-After (some (SseEvent.delta delta)) st l h = on_delta-After delta st l h
  on_event-After (some (SseEvent.usage u)) st l h = Chunks-refl l st.total_out h
  on_event-After (some SseEvent.done) st l h =
      send_in_time-Transcript _ l st.total_out h (inl (_, refl))
  on_event-After (some SseEvent.other) st l h = Chunks-refl l st.total_out h
  on_event-After none st l h = Chunks-refl l st.total_out h

  on_line-After :
      (line : String) (st : JobState S) (l : Link S)
      → st.total_out ≤ max_job_output_bytes
      → After l st.total_out (on_line S peer job_id line st l)
  unfolding on_line
  on_line-After line st l h = elim (Bool-cases (is_empty (trim_end_matches is_line_end line))) [
    | inl blank ↦ rw blank (Chunks-refl l st.total_out h)
    | inr text ↦
        rw text (on_event-After (parse_sse_line S (trim_end_matches is_line_end line)) st l h)
  ]

  -- What follows lines that only wrote chunks.
  After-trans :
      (l l' : Link S) (used used' : ℕ) (r : Flow S × Link S)
      → Chunks S job_id l l' used used'
      → After l' used' r
      → After l used r
  After-trans l l' used used' (finished r, l'') c t = Chunks-Transcript S job_id c t
  After-trans l l' used used' (more st, l'') c t = Chunks-trans S job_id c t

  next_line-After :
      (r : Flow S × Link S) (rest : JobState S → Link S → Flow S × Link S) (l : Link S) (used : ℕ)
      → After l used r
      → ((st : JobState S) (l' : Link S)
          → st.total_out ≤ max_job_output_bytes
          → After l' st.total_out (rest st l'))
      → After l used (next_line S peer job_id r rest)
  next_line-After (finished r, l') rest l used a k = a
  next_line-After (more st, l') rest l used a k =
      After-trans l l' used st.total_out (rest st l') a (k st l' a.bounded)

  pub lines_loop-After :
      (lines : List String) (st : JobState S) (l : Link S)
      → st.total_out ≤ max_job_output_bytes
      → After l st.total_out (lines_loop S peer job_id lines st l)
  unfolding lines_loop
  lines_loop-After [] st l h = Chunks-refl l st.total_out h
  lines_loop-After (line ∷ lines) st l h =
      next_line-After (on_line S peer job_id line st l) _ l st.total_out (on_line-After line st l h)
        (λ st' l' h'. lines_loop-After lines st' l' h')
