-- ===== src/Run/Job/Chunking.antt =====
-- src/run.rs: how the upstream's text is cut into network chunks does not matter to `stream_job`.

use Prim.Native.String
use Prim.Native.Char.{len_utf8}
use text.Mathlib.TextLemmas.{append_assoc, append-nil, cons-append}
use text.Mathlib.TextPositions.{len-append}
use nexus_client.Prelude.{
  ◌≤◌, ◌≡◌, refl, sym, ap, ◌∙◌, inl, inr, false, Bool, Bool-cases, Option, List, [], ◌∷◌, ◌++◌,
  String, Char, len, map, ◌+◌, if◌then◌else◌, eqb, code, ltb, arith,
}
use nexus_client.Utf8.{as_bytes}
use nexus_client.Utf8.RoundTrip.{from_utf8_lossy-as_bytes}
use nexus_client.External.Serde.{Serde}
use nexus_client.Limits.Body.{max_sse_buffer_bytes}
use nexus_client.Run.Link.{Piece, chunk, streaming, Peer, Link}
use nexus_client.Run.Job.{
  JobState, Flow, finished, more, before, ended, drain_lines, next_line, lines_loop, resume,
  on_line, on_chunk, pieces_loop, on_upstream,
}

abbrev prepend : List String → List String × String → List String × String
prepend xs (ys, rest) = (xs ++ ys, rest)

-- More text behind a drained buffer.
abbrev drain_on : List String × String → String → List String × String
drain_on (xs, rest) t = prepend xs (drain_lines (String.◌++◌ rest t))

-- A character in front of a drained text.
abbrev drained : Char → List String × String → List String × String
drained c d = if eqb (code c) b'\n' then ended c d else before c d

ended-drain_on :
    (c : Char) (d : List String × String) (t : String)
    → ended c (drain_on d t) ≡ drain_on (ended c d) t
ended-drain_on c (xs, rest) t = refl

before-drain_on :
    (c : Char) (d : List String × String) (t : String)
    → eqb (code c) b'\n' ≡ false
    → before c (drain_on d t) ≡ drain_on (before c d) t
unfolding drain_lines
before-drain_on c ([], rest) t h = rw (cons-append c rest t, h) refl
before-drain_on c (x ∷ xs, rest) t h = refl

drained-drain_on :
    (c : Char) (d : List String × String) (t : String)
    → drained c (drain_on d t) ≡ drain_on (drained c d) t
drained-drain_on c d t = elim (Bool-cases (eqb (code c) b'\n')) [
  | inl newline ↦ rw newline (ended-drain_on c d t)
  | inr other ↦ rw other (before-drain_on c d t other)
]

drain_lines-cons :
    (c : Char) (s : String) → drain_lines (String.◌∷◌ c s) ≡ drained c (drain_lines s)
unfolding drain_lines
drain_lines-cons c s = refl

-- A buffer that has been drained before is drained on.
drain_lines-append : (s t : String) → drain_lines (String.◌++◌ s t) ≡ drain_on (drain_lines s) t
unfolding drain_lines
drain_lines-append String.[] t = refl
drain_lines-append (String.◌∷◌ c s) t =
    ap drain_lines (cons-append c s t)
    ∙ drain_lines-cons c (String.◌++◌ s t)
    ∙ ap (drained c) (drain_lines-append s t)
    ∙ drained-drain_on c (drain_lines s) t

len-cons : (c : Char) (s : String) → len (String.◌∷◌ c s) ≡ len_utf8 c + len s
len-cons c s = String.len.cons c s

len-drained :
    (c : Char) (d : List String × String) (s : String)
    → len d.1 ≤ len s
    → len (drained c d).1 ≤ len (String.◌∷◌ c s)
len-drained c ([], rest) s h = ground (arith, len-cons c s, len-cons c rest)
len-drained c (x ∷ xs, rest) s h = ground (arith, len-cons c s)

-- What is left of a buffer is no longer than the buffer.
len-drain_lines : (s : String) → len (drain_lines s).1 ≤ len s
unfolding drain_lines
len-drain_lines String.[] = omega arith
len-drain_lines (String.◌∷◌ c s) = len-drained c (drain_lines s) s (len-drain_lines s)

abbrev pub concat : List String → String
concat [] = ""
concat (s ∷ ss) = String.◌++◌ s (concat ss)

abbrev pub chunks_of : List String → List Piece
chunks_of ss = map (λ s. chunk (as_bytes s)) ss

module _ (S : Serde) (peer : Peer S) (job_id : String) where
  next_line_two :
      (r : Flow S × Link S) (f g h : JobState S → Link S → Flow S × Link S)
      → ((st : JobState S) (l : Link S) → h st l ≡ next_line S peer job_id (f st l) g)
      → next_line S peer job_id r h ≡ next_line S peer job_id (next_line S peer job_id r f) g
  next_line_two (finished r, l) f g h e = refl
  next_line_two (more st, l) f g h e = e st l

  lines_loop-append :
      (xs ys : List String) (st : JobState S) (l : Link S)
      → lines_loop S peer job_id (xs ++ ys) st l
        ≡ next_line S peer job_id (lines_loop S peer job_id xs st l) (lines_loop S peer job_id ys)
  unfolding lines_loop
  lines_loop-append [] ys st l = refl
  lines_loop-append (x ∷ xs) ys st l =
      next_line_two (on_line S peer job_id x st l) (lines_loop S peer job_id xs)
        (lines_loop S peer job_id ys) (lines_loop S peer job_id (xs ++ ys))
        (lines_loop-append xs ys)

  -- A run of lines in two parts.
  resume-append :
      (r : Flow S × Link S) (ys : List String) (rest : JobState S → Link S → Option Bool × Link S)
      (rest' : JobState S → Link S → Option Bool × Link S)
      → ((st : JobState S) (l : Link S)
          → rest' st l ≡ resume S peer job_id (lines_loop S peer job_id ys st l) rest)
      → resume S peer job_id r rest'
        ≡ resume S peer job_id (next_line S peer job_id r (lines_loop S peer job_id ys)) rest
  resume-append (finished r, l) ys rest rest' h = refl
  resume-append (more st, l) ys rest rest' h = h st l

  -- A buffer within the limit.
  on_chunk_fits :
      (buf : String) (st : JobState S) (l : Link S)
      (rest : String → JobState S → Link S → Option Bool × Link S)
      → len buf ≤ max_sse_buffer_bytes
      → on_chunk S peer job_id buf st l rest
        ≡ resume S peer job_id
            (lines_loop S peer job_id (drain_lines buf).0 st l)
            (rest (drain_lines buf).1)
  unfolding on_chunk
  on_chunk_fits buf st l rest h =
      let fits : ltb max_sse_buffer_bytes (len buf) ≡ false = ground arith in rw fits refl

  -- A buffer in two parts, within the limit, is the whole buffer.
  on_chunk-append :
      (x t : String) (st : JobState S) (l : Link S)
      (rest : String → JobState S → Link S → Option Bool × Link S)
      → len x + len t ≤ max_sse_buffer_bytes
      → on_chunk S peer job_id x st l
          (λ buf st' l'. on_chunk S peer job_id (String.◌++◌ buf t) st' l' rest)
        ≡ on_chunk S peer job_id (String.◌++◌ x t) st l rest
  on_chunk-append x t st l rest h =
      let (xs, y) = drain_lines x in
      let (ys, z) = drain_lines (String.◌++◌ y t) in
      on_chunk_fits x st l _ (omega arith)
      ∙ resume-append (lines_loop S peer job_id xs st l) ys (rest z) _ (λ st' l'.
        on_chunk_fits (String.◌++◌ y t) st' l' rest
          (omega (arith, len-append y t, len-drain_lines x)))
      ∙ ap (λ r. resume S peer job_id r (rest z)) (sym (lines_loop-append xs ys st l))
      ∙ ap (λ d. resume S peer job_id (lines_loop S peer job_id d.0 st l) (rest d.1))
          (sym (drain_lines-append x t))
      ∙ sym (on_chunk_fits (String.◌++◌ x t) st l rest (omega (arith, len-append x t)))

  -- Two chunks in one.
  pieces_loop_two :
      (s t buf : String) (pieces : List Piece) (st : JobState S) (l : Link S)
      → len buf + len s + len t ≤ max_sse_buffer_bytes
      → pieces_loop S peer job_id (chunk (as_bytes s) ∷ chunk (as_bytes t) ∷ pieces) buf st l
        ≡ pieces_loop S peer job_id (chunk (as_bytes (String.◌++◌ s t)) ∷ pieces) buf st l
  unfolding pieces_loop
  pieces_loop_two s t buf pieces st l h =
      rw
        (
          from_utf8_lossy-as_bytes s,
          from_utf8_lossy-as_bytes t,
          from_utf8_lossy-as_bytes (String.◌++◌ s t),
        )
        (on_chunk-append (String.◌++◌ buf s) t st l (pieces_loop S peer job_id pieces)
            (omega (arith, len-append buf s))
          ∙ ap (λ x. on_chunk S peer job_id x st l (pieces_loop S peer job_id pieces))
              (append_assoc buf s t))

  pieces_loop_merged :
      (s : String) (ss : List String) (pieces : List Piece) (st : JobState S) (l : Link S)
      → len s + len (concat ss) ≤ max_sse_buffer_bytes
      → pieces_loop S peer job_id (chunk (as_bytes s) ∷ (chunks_of ss ++ pieces)) "" st l
        ≡ pieces_loop S peer job_id (chunk (as_bytes (String.◌++◌ s (concat ss))) ∷ pieces) "" st l
  pieces_loop_merged s [] pieces st l h =
      ap (λ x. pieces_loop S peer job_id (chunk (as_bytes x) ∷ pieces) "" st l) (sym (append-nil s))
  pieces_loop_merged s (t ∷ ss) pieces st l h =
      pieces_loop_two s t "" (chunks_of ss ++ pieces) st l (omega (arith, len-append t (concat ss)))
      ∙ pieces_loop_merged (String.◌++◌ s t) ss pieces st l
          (omega (arith, len-append s t, len-append t (concat ss)))
      ∙ ap (λ x. pieces_loop S peer job_id (chunk (as_bytes x) ∷ pieces) "" st l)
          (append_assoc s t (concat ss))

  -- A text of at most 1 MiB, sent by the upstream in chunks that are cut between characters, has the
  -- effect and the result of the text in one chunk, whatever the upstream does behind it.
  pub on_upstream_rechunked :
      (s : String) (ss : List String) (pieces : List Piece) (l : Link S)
      → len s + len (concat ss) ≤ max_sse_buffer_bytes
      → on_upstream S peer job_id (streaming (chunks_of (s ∷ ss) ++ pieces)) l
        ≡ on_upstream S peer job_id
            (streaming (chunk (as_bytes (String.◌++◌ s (concat ss))) ∷ pieces))
            l
  unfolding on_upstream
  on_upstream_rechunked s ss pieces l h = pieces_loop_merged s ss pieces _ l h
