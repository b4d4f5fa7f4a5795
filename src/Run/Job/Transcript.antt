-- ===== src/Run/Job/Transcript.antt =====
-- What a job of src/run.rs writes to the gateway: some chunks, and how the writing ends.
use mathlib.Core.List.{map-append, append_assoc}
use nexus_client.Prelude.{
  ℕ, ◌+◌, ◌≤◌, ◌≡◌, ◌≢◌, ◌⊎◌, ◌∙◌, ap, sym, subst, Bool, true, false, Option, none, some, List, [],
  ◌∷◌, ◌++◌, map, String, len, All, All-append, arith,
}
use nexus_client.External.Serde.{Serde}
use nexus_client.Limits.Body.{max_job_output_bytes}
use nexus_client.Protocol.Frames.{chunk_frame, done_frame, job_error_frame}
use nexus_client.Run.Link.{Outbound, frame, Peer, Link}

abbrev pub total_len : List String → ℕ
total_len [] = 0
total_len (d ∷ ds) = len d + total_len ds

total_len-append : (ds es : List String) → total_len (ds ++ es) ≡ total_len ds + total_len es
total_len-append [] es = omega arith
total_len-append (d ∷ ds) es = omega (arith, total_len-append ds es)

module _ (S : Serde) (job_id : String) where
  abbrev pub chunks : List String → List Outbound
  chunks ds = map (λ d. frame (chunk_frame S job_id d)) ds

  -- `done` with some usage, or `job_error` with some text
  abbrev pub IsTerminal : String → Type 0
  IsTerminal t =
      ((u : S.Value) × (t ≡ done_frame S job_id u))
      ⊎ ((e : String) × (t ≡ job_error_frame S job_id e))

  -- The frames behind the chunks, from what was written before them.
  abbrev pub Ending : Type 1
  Ending = List Outbound → List Outbound → Type 0

  -- From `l` to `l'` only chunks were written, `used` bytes of text having grown to `used'`.
  pub record Chunks (l l' : Link S) (used used' : ℕ) : Type 0 where
    pub deltas : List String
    pub sent : l'.sent ≡ l.sent ++ chunks deltas
    pub posted : l'.posted ≡ l.posted
    pub signed : l'.signed ≡ l.signed
    pub nonempty : All (λ d. d ≢ "") deltas
    pub total : used' ≡ used + total_len deltas
    pub bounded : used' ≤ max_job_output_bytes

  pub record Transcript (l l' : Link S) (used : ℕ) (Ends : Ending) : Type 0 where
    pub deltas : List String
    pub tail : List Outbound
    pub sent : l'.sent ≡ l.sent ++ (chunks deltas ++ tail)
    pub posted : l'.posted ≡ l.posted
    pub signed : l'.signed ≡ l.signed
    pub nonempty : All (λ d. d ≢ "") deltas
    pub bounded : used + total_len deltas ≤ max_job_output_bytes
    pub ends : Ends (l.sent ++ chunks deltas) tail

  regroup :
      (xs : List Outbound) (ds es : List String) (tail : List Outbound)
      → (xs ++ chunks ds) ++ (chunks es ++ tail) ≡ xs ++ (chunks (ds ++ es) ++ tail)
  regroup xs ds es tail = simp (map-append, append_assoc)

  chunks_trans :
      (xs : List Outbound) {ys : List Outbound} (ds es : List String)
      → ys ≡ xs ++ chunks ds
      → ys ++ chunks es ≡ xs ++ chunks (ds ++ es)
  chunks_trans xs ds es e =
      ap (λ zs. zs ++ chunks es) e
      ∙ append_assoc xs (chunks ds) (chunks es)
      ∙ ap (λ zs. xs ++ zs) (sym (map-append _ ds es))

  pub Chunks-Transcript :
      {l l' l'' : Link S} {a b : ℕ} {Ends : Ending}
      → Chunks l l' a b
      → Transcript l' l'' b Ends
      → Transcript l l'' a Ends
  Chunks-Transcript {l} {Ends} c t = record {
    deltas = c.deltas ++ t.deltas;
    tail = t.tail;
    sent =
        t.sent
        ∙ ap (λ xs. xs ++ (chunks t.deltas ++ t.tail)) c.sent
        ∙ regroup l.sent c.deltas t.deltas t.tail;
    posted = t.posted ∙ c.posted;
    signed = t.signed ∙ c.signed;
    nonempty = All-append _ c.deltas t.deltas c.nonempty t.nonempty;
    bounded = omega (arith, total_len-append c.deltas t.deltas);
    ends = subst (λ xs. Ends xs t.tail) (chunks_trans l.sent c.deltas t.deltas c.sent) t.ends;
  }

  pub Chunks-trans :
      {l l' l'' : Link S} {a b c : ℕ} → Chunks l l' a b → Chunks l' l'' b c → Chunks l l'' a c
  Chunks-trans {l} p q = record {
    deltas = p.deltas ++ q.deltas;
    sent = q.sent ∙ chunks_trans l.sent p.deltas q.deltas p.sent;
    posted = q.posted ∙ p.posted;
    signed = q.signed ∙ p.signed;
    nonempty = All-append _ p.deltas q.deltas p.nonempty q.nonempty;
    total = omega (arith, total_len-append p.deltas q.deltas);
    bounded = q.bounded;
  }

  module _ (peer : Peer S) where
    -- A terminal frame that the socket queued before the deadline stopped its write.
    abbrev pub Stalled : Ending
    Stalled before tail =
        (t : String) × (tail ≡ frame t ∷ []) × IsTerminal t × (peer.stalls before ≡ some true)

    -- The frames of `stream_job`: one terminal frame where it returned with the socket alive, none where a
    -- write failed, and none or a stalled one where the deadline came.
    abbrev pub Closes : Option Bool → Ending
    Closes (some true) before tail = (t : String) × (tail ≡ frame t ∷ []) × IsTerminal t
    Closes (some false) before tail = tail ≡ []
    Closes none before tail = (tail ≡ []) ⊎ Stalled before tail

    abbrev pub time_limit : Outbound
    time_limit = frame (job_error_frame S job_id "job exceeded time limit")

    -- The frames of `handle_job`: the same, with the `job_error` of the time limit behind a stalled frame.
    abbrev pub Finishes : Bool → Ending
    Finishes true before tail =
        ((t : String) × (tail ≡ frame t ∷ []) × IsTerminal t)
        ⊎ ((t : String) × (tail ≡ frame t ∷ time_limit ∷ [])
            × IsTerminal t
            × (peer.stalls before ≡ some true))
    Finishes false before tail = (tail ≡ []) ⊎ Stalled before tail
