-- ===== src/Run/Reconnect/Schedule.antt =====
-- The delays of the supervisor and its outcomes.
use mathlib.Core.List.{append-nil, append_assoc}
use native.Mathlib.Nat.{pow-suc}
use nexus_client.Prelude.{
  ℕ, zero, suc, ◌*◌, ◌^◌, ◌≡◌, ◌≢◌, refl, sym, ◌∙◌, min, Option, none, some, List, [], ◌∷◌, ◌++◌,
  arith,
}
use nexus_client.Run.Backoff.{next_backoff, jittered, backoff_min, backoff_max}
use nexus_client.Run.Reconnect.{
  SessionOutcome, disconnected, rejected, shutdown, Supervised, on_outcome, reconnect_from,
  reconnect_loop,
}

-- The delay before the jitter after `k` earlier disconnects.
abbrev pub planned : ℕ → ℕ
planned k = min (backoff_min * 2 ^ k) backoff_max

-- The supervisor's `backoff` after `k` disconnects.
abbrev pub after : ℕ → Option ℕ
after zero = none
after (suc k) = some (planned k)

-- Doubling with the cap has the closed form: the next delay after `k` disconnects is one second times
-- 2^k, capped at thirty seconds.
pub next_backoff-after : (k : ℕ) → next_backoff (after k) ≡ planned k
unfolding next_backoff
next_backoff-after zero = omega arith
next_backoff-after (suc k) = omega (arith, pow-suc 2 k)

-- The delays for these samples, from the `k`-th disconnect on.
abbrev pub delays : ℕ → List ℕ → List ℕ
delays k [] = []
delays k (sample ∷ rest) = jittered (planned k) sample ∷ delays (suc k) rest

module _ {Socket World : Type 0} (serve_fn : Socket → World → SessionOutcome × World) where
  -- How the rounds go from a world, with the jitter's samples of those that ended in a disconnect: a
  -- failed dial or a session that is disconnected is followed by a sleep and the next round, and any other
  -- outcome is returned with no sleep.
  pub data Rounds
      : List (Option Socket × ℕ) → World → List ℕ → Option SessionOutcome → World → Type 0 where
    used_up : (w : World) → Rounds [] w [] none w
    undialled :
        (sample : ℕ) (attempts : List (Option Socket × ℕ)) (w w' : World) (slept : List ℕ)
        (o : Option SessionOutcome)
        → Rounds attempts w slept o w'
        → Rounds ((none, sample) ∷ attempts) w (sample ∷ slept) o w'
    dropped :
        (ws : Socket) (sample : ℕ) (attempts : List (Option Socket × ℕ)) (w w' w'' : World)
        (slept : List ℕ) (o : Option SessionOutcome)
        → serve_fn ws w ≡ (disconnected, w')
        → Rounds attempts w' slept o w''
        → Rounds ((some ws, sample) ∷ attempts) w (sample ∷ slept) o w''
    returned :
        (ws : Socket) (sample : ℕ) (attempts : List (Option Socket × ℕ)) (w w' : World)
        (o : SessionOutcome)
        → serve_fn ws w ≡ (o, w')
        → o ≢ disconnected
        → Rounds ((some ws, sample) ∷ attempts) w [] (some o) w'

  -- The rounds from the `k`-th disconnect on, and the sleeps behind those before.
  pub record Scheduled (attempts : List (Option Socket × ℕ)) (w : World) (k : ℕ) (sleeps : List ℕ)
      (r : Supervised World) : Type 0 where
    pub slept : List ℕ
    pub rounds : Rounds attempts w slept r.outcome r.world
    pub delayed : r.sleeps ≡ sleeps ++ delays k slept

  -- One sleep more, before the rest.
  slept_more :
      (attempts attempts' : List (Option Socket × ℕ)) (w w' : World) (k sample : ℕ)
      (sleeps : List ℕ) (r : Supervised World)
      → Scheduled attempts' w' (suc k) (sleeps ++ jittered (planned k) sample ∷ []) r
      → ((slept : List ℕ)
          → Rounds attempts' w' slept r.outcome r.world
          → Rounds attempts w (sample ∷ slept) r.outcome r.world)
      → Scheduled attempts w k sleeps r
  slept_more attempts attempts' w w' k sample sleeps r s more = record {
    slept = sample ∷ s.slept;
    rounds = more s.slept s.rounds;
    delayed = s.delayed ∙ append_assoc sleeps _ _;
  }

  -- A session's outcome, and what the loop makes of it.
  on_outcome-Scheduled :
      (r : SessionOutcome × World) (ws : Socket) (sample : ℕ) (attempts : List (Option Socket × ℕ))
      (w : World) (k : ℕ) (sleeps : List ℕ) (rest : Option ℕ → List ℕ → World → Supervised World)
      → serve_fn ws w ≡ r
      → ((sleeps' : List ℕ) (w' : World)
          → Scheduled attempts w' (suc k) sleeps' (rest (after (suc k)) sleeps' w'))
      → Scheduled
          ((some ws, sample) ∷ attempts)
          w
          k
          sleeps
          (on_outcome serve_fn r (after k) sample sleeps rest)
  on_outcome-Scheduled (rejected reason, w') ws sample attempts w k sleeps rest e ih = record {
    slept = [];
    rounds = returned ws sample attempts w w' (rejected reason) e cc;
    delayed = sym (append-nil sleeps);
  }
  on_outcome-Scheduled (shutdown, w') ws sample attempts w k sleeps rest e ih = record {
    slept = [];
    rounds = returned ws sample attempts w w' shutdown e cc;
    delayed = sym (append-nil sleeps);
  }
  on_outcome-Scheduled (disconnected, w') ws sample attempts w k sleeps rest e ih =
      rw (next_backoff-after k) (
        slept_more _ attempts w w' k sample sleeps _ (ih _ w')
          (λ slept x. dropped ws sample attempts w w' _ slept _ e x))

  reconnect_from-Scheduled :
      (attempts : List (Option Socket × ℕ)) (w : World) (k : ℕ) (sleeps : List ℕ)
      → Scheduled attempts w k sleeps (reconnect_from serve_fn attempts (after k) sleeps w)
  unfolding reconnect_from
  reconnect_from-Scheduled [] w k sleeps = record {
    slept = [];
    rounds = used_up w;
    delayed = sym (append-nil sleeps);
  }
  reconnect_from-Scheduled ((none, sample) ∷ attempts) w k sleeps = rw (next_backoff-after k) (
      slept_more _ attempts w w k sample sleeps _ (reconnect_from-Scheduled attempts w (suc k) _)
        (λ slept x. undialled sample attempts w _ slept _ x))
  reconnect_from-Scheduled ((some ws, sample) ∷ attempts) w k sleeps =
      on_outcome-Scheduled (serve_fn ws w) ws sample attempts w k sleeps _ refl
        (λ sleeps' w'. reconnect_from-Scheduled attempts w' (suc k) sleeps')

  -- However the dials and the sessions end, the supervisor goes through the rounds in order: a round whose
  -- dial fails or whose session is disconnected, with i such rounds before it, is followed by a sleep of
  -- min(1s * 2^i, 30s), jittered, and by the next round; the first session that is rejected or shut down is
  -- returned at once; and there are no other sleeps.
  pub reconnect_loop-Scheduled :
      (attempts : List (Option Socket × ℕ)) (w : World)
      → Scheduled attempts w 0 [] (reconnect_loop serve_fn attempts w)
  unfolding reconnect_loop
  reconnect_loop-Scheduled attempts w = reconnect_from-Scheduled attempts w 0 []
