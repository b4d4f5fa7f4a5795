-- ===== src/Cli/Work/Pace.antt =====
-- The rounds of the provider loop of src/main.rs: what each one does, and its pause.
use mathlib.Core.List.{append-nil, append_assoc}
use nexus_client.Prelude.{
  ℕ, suc, ◌≡◌, ◌⊎◌, refl, sym, subst, ap, ◌∙◌, inl, inr, Bool, true, false, Option, none, some,
  List, [], ◌∷◌, ◌++◌, String, Result, ok, err,
}
use nexus_client.External.Serde.{Serde}
use nexus_client.External.Crypto.{Base58, Ed25519, Hashing}
use nexus_client.External.Solana.{Solana}
use nexus_client.Agenc.Net.{Event, Servers, Mcp}
use nexus_client.Agenc.Worker.{WorkerSubmit}
use nexus_client.Run.Backoff.{jittered}
use nexus_client.Run.Reconnect.Schedule.{planned, after, next_backoff-after}
use nexus_client.Work.Select.{WorkCfg}
use nexus_client.Work.Provider.{register}
use nexus_client.Work.Once.{WorkError, work_once}
use nexus_client.Cli.Work.{
  Round, Iteration, submitted, idle, failed, pace, Worked, ended, iterate_with, iterate, paused,
  stepped, work_loop, work_from,
}

-- The number of iterations in a row that submitted nothing.
abbrev run_after : Iteration → ℕ → ℕ
run_after submitted k = 0
run_after idle k = suc k
run_after failed k = suc k

abbrev pause : Iteration → ℕ → ℕ → ℕ
pause submitted k sample = 0
pause idle k sample = jittered (planned k) sample
pause failed k sample = jittered (planned k) sample

pace-after :
    (it : Iteration) (k sample : ℕ)
    → pace it (after k) sample ≡ (after (run_after it k), pause it k sample)
unfolding pace
pace-after submitted k sample = refl
pace-after idle k sample = rw (next_backoff-after k) refl
pace-after failed k sample = rw (next_backoff-after k) refl

module _ (S : Serde) (servers : Servers S) (C : Solana) (B : Base58) (E : Ed25519) (H : Hashing)
    (cfg : WorkCfg) (wallet : C.Keypair) where
  -- `work_once` of the round with these tools.
  abbrev once :
      Round S → Mcp S → List (Event S) → Result (Option WorkerSubmit) WorkError × List (Event S)
  once round mcp h = work_once S servers mcp C B E H cfg wallet round.now round.readings h

  -- The tools' process started, and the iteration submitted a result.
  abbrev pub Submits : Round S → List (Event S) → List (Event S) → Type 0
  Submits round h h' =
      (mcp : Mcp S) × (submit : WorkerSubmit) × (round.spawned ≡ ok mcp)
      × (once round mcp h ≡ (ok (some submit), h'))

  -- The process did not start, or the iteration found no job or failed.
  abbrev pub Misses : Round S → List (Event S) → List (Event S) → Type 0
  Misses round h h' =
      ((e : String) × (round.spawned ≡ err e) × (h' ≡ h))
      ⊎ ((mcp : Mcp S) × (round.spawned ≡ ok mcp)
          × ((once round mcp h ≡ (ok none, h'))
              ⊎ ((e : WorkError) × (once round mcp h ≡ (err e, h')))))

  -- The iteration of a round, with the count of misses in a row before and after it, and the pause.
  abbrev pub Iterated : Round S → ℕ → List (Event S) → ℕ → ℕ → List (Event S) → Type 0
  Iterated round k h k' delay h' =
      (Submits round h h' × (k' ≡ 0) × (delay ≡ 0))
      ⊎ (Misses round h h' × (k' ≡ suc k) × (delay ≡ jittered (planned k) round.sample))

  -- The rounds from a history on, after `k` misses in a row: the pauses that were begun, whether ctrl-c came in the
  -- last one, and the history that is left. The next round starts where the one before ended.
  pub data Rounds
      : List (Round S) → ℕ → List (Event S) → List ℕ → Bool → List (Event S) → Type 0 where
    used_up : (k : ℕ) (h : List (Event S)) → Rounds [] k h [] false h
    stopped :
        (round : Round S) (rounds : List (Round S)) (k k' delay : ℕ) (h h' : List (Event S))
        → Iterated round k h k' delay h'
        → round.interrupted ≡ true
        → Rounds (round ∷ rounds) k h (delay ∷ []) true h'
    continued :
        (round : Round S) (rounds : List (Round S)) (k k' delay : ℕ) (h h' h'' : List (Event S))
        (delays : List ℕ) (stop : Bool)
        → Iterated round k h k' delay h'
        → round.interrupted ≡ false
        → Rounds rounds k' h' delays stop h''
        → Rounds (round ∷ rounds) k h (delay ∷ delays) stop h''

  -- The same, from where the loop stands.
  record Paced (k : ℕ) (rounds : List (Round S)) (w r : Worked S) : Type 0 where
    delays : List ℕ
    waited : r.delays ≡ w.delays ++ delays
    ran : Rounds rounds k w.history delays r.interrupted r.history

  once-Iterated :
      (round : Round S) (k : ℕ) (h : List (Event S)) (mcp : Mcp S)
      (r : Result (Option WorkerSubmit) WorkError × List (Event S))
      → round.spawned ≡ ok mcp
      → once round mcp h ≡ r
      → Iterated round k h
          (run_after (ended S servers C B E H r).0 k)
          (pause (ended S servers C B E H r).0 k round.sample)
          (ended S servers C B E H r).1
  once-Iterated round k h mcp (ok (some submit), h') s e = inl ((mcp, submit, s, e), refl, refl)
  once-Iterated round k h mcp (ok none, h') s e = inr (inr (mcp, s, inl e), refl, refl)
  once-Iterated round k h mcp (err x, h') s e = inr (inr (mcp, s, inr (x, e)), refl, refl)

  iterate-Iterated :
      (round : Round S) (k : ℕ) (h : List (Event S)) (spawned : Result (Mcp S) String)
      → round.spawned ≡ spawned
      → Iterated round k h
          (run_after
            (iterate_with S servers C B E H cfg wallet round.now round.readings spawned h).0
            k)
          (pause
            (iterate_with S servers C B E H cfg wallet round.now round.readings spawned h).0
            k
            round.sample)
          (iterate_with S servers C B E H cfg wallet round.now round.readings spawned h).1
  iterate-Iterated round k h (ok mcp) s = once-Iterated round k h mcp (once round mcp h) s refl
  iterate-Iterated round k h (err e) s = inr (inl (e, s, refl), refl, refl)

  module _ (k : ℕ) (round : Round S) (rounds : List (Round S)) (w : Worked S)
      (i : Iteration × List (Event S)) (p : Option ℕ × ℕ)
      (iterated : Iterated round k w.history (run_after i.0 k) (pause i.0 k round.sample) i.1)
      (paced : p.1 ≡ pause i.0 k round.sample) where
    step-Paced :
        (b : Bool) (r : Worked S)
        → round.interrupted ≡ b
        → Paced (run_after i.0 k) rounds (stepped S servers C B E H cfg wallet w i p) r
        → Paced k
            (round ∷ rounds)
            w
            (paused S servers C B E H cfg wallet b (stepped S servers C B E H cfg wallet w i p) r)
    step-Paced true r e rest = record {
      delays = pause i.0 k round.sample ∷ [];
      waited = ap (λ x. w.delays ++ x ∷ []) paced;
      ran = stopped round rounds k _ _ w.history i.1 iterated e;
    }
    step-Paced false r e rest = record {
      delays = pause i.0 k round.sample ∷ rest.delays;
      waited =
          rest.waited
          ∙ append_assoc w.delays (p.1 ∷ []) rest.delays
          ∙ ap (λ x. w.delays ++ x ∷ rest.delays) paced;
      ran = continued round rounds k _ _ w.history i.1 _ rest.delays _ iterated e rest.ran;
    }

  loop-Paced :
      (rounds : List (Round S)) (k : ℕ) (w : Worked S)
      → w.backoff ≡ after k
      → w.interrupted ≡ false
      → Paced k rounds w (work_loop S servers C B E H cfg wallet rounds w)
  unfolding work_loop iterate
  loop-Paced [] k w h e = record {
    delays = [];
    waited = sym (append-nil w.delays);
    ran = subst (λ b. Rounds [] k w.history [] b w.history) (sym e) (used_up k w.history);
  }
  loop-Paced (round ∷ rounds) k w h e =
      let i = iterate S servers C B E H cfg wallet round w.history in
      let paced : pace i.0 w.backoff round.sample
          ≡ (after (run_after i.0 k), pause i.0 k round.sample) =
        ap (λ b. pace i.0 b round.sample) h ∙ pace-after i.0 k round.sample in
      step-Paced k round rounds w i (pace i.0 w.backoff round.sample)
        (iterate-Iterated round k w.history round.spawned refl) (ap (λ q. q.1) paced)
        round.interrupted _ refl (loop-Paced rounds (run_after i.0 k) _ (ap (λ q. q.0) paced) refl)

  -- However the registration and the rounds end, the provider loop goes through the rounds in order, each from
  -- where the one before ended. The pause after a round is none if its `work_once` submitted a result; if the
  -- tools did not start, or `work_once` found no job or failed, with i such rounds in a row before it, the pause is
  -- min(1s * 2^i, 30s), jittered. The loop ends in the first pause that ctrl-c interrupts, and else goes on to the
  -- next round.
  pub work_from-Paced :
      (rounds : List (Round S)) (h : List (Event S))
      → Rounds rounds 0
          (register S servers C cfg wallet h).1
          (work_from S servers C B E H cfg wallet rounds h).delays
          (work_from S servers C B E H cfg wallet rounds h).interrupted
          (work_from S servers C B E H cfg wallet rounds h).history
  unfolding work_from
  work_from-Paced rounds h =
      let p : Paced 0 rounds
          (record {
            interrupted = false;
            backoff = none;
            iterations = [];
            delays = [];
            history = (register S servers C cfg wallet h).1;
          })
          (work_from S servers C B E H cfg wallet rounds h) =
        loop-Paced rounds 0 _ refl refl in
      subst
        (λ ds.
          Rounds rounds 0 (register S servers C cfg wallet h).1 ds
            (work_from S servers C B E H cfg wallet rounds h).interrupted
            (work_from S servers C B E H cfg wallet rounds h).history)
        (sym p.waited) p.ran
