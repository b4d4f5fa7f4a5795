-- ===== src/Run/Reconnect.antt =====
-- src/run.rs: `SessionOutcome` and `reconnect_loop`.
pub mod Schedule
use nexus_client.Prelude.{ℕ, Option, none, some, List, [], ◌∷◌, ◌++◌, String}
use nexus_client.Run.Backoff.{next_backoff, jittered}

pub data SessionOutcome : Type 0 where
  disconnected : SessionOutcome
  rejected : String → SessionOutcome
  shutdown : SessionOutcome

-- Where the supervisor is: it has returned, or the attempts that were given have all ended in a
-- disconnect. `sleeps` are the delays that `sleep_fn` was handed, in order.
pub record Supervised (World : Type 0) : Type 0 where
  pub outcome : Option SessionOutcome
  pub backoff : Option ℕ
  pub sleeps : List ℕ
  pub world : World

module _ {Socket World : Type 0} (serve_fn : Socket → World → SessionOutcome × World) where
  -- `connect().await`, then the session
  attempt : Option Socket → World → SessionOutcome × World
  attempt none w = (SessionOutcome.disconnected, w)
  attempt (some ws) w = serve_fn ws w

  -- `next` is the rest of the loop.
  abbrev on_outcome :
      SessionOutcome × World
      → Option ℕ
      → ℕ
      → List ℕ
      → (Option ℕ → List ℕ → World → Supervised World)
      → Supervised World
  on_outcome (SessionOutcome.rejected reason, w) backoff sample sleeps next = record {
    outcome = some (SessionOutcome.rejected reason);
    backoff = backoff;
    sleeps = sleeps;
    world = w;
  }
  on_outcome (SessionOutcome.shutdown, w) backoff sample sleeps next = record {
    outcome = some SessionOutcome.shutdown;
    backoff = backoff;
    sleeps = sleeps;
    world = w;
  }
  on_outcome (SessionOutcome.disconnected, w) backoff sample sleeps next =
      let delay = next_backoff backoff in next (some delay) (sleeps ++ jittered delay sample ∷ []) w

  -- One entry of `attempts` for each round: the dialled socket, if any, and the jitter's sample.
  unfoldable pub reconnect_from :
      List (Option Socket × ℕ) → Option ℕ → List ℕ → World → Supervised World
  unfolding attempt
  reconnect_from [] backoff sleeps w = record {
    outcome = none;
    backoff = backoff;
    sleeps = sleeps;
    world = w;
  }
  reconnect_from ((ws, sample) ∷ attempts) backoff sleeps w =
      on_outcome (attempt ws w) backoff sample sleeps (reconnect_from attempts)

  unfoldable pub reconnect_loop : List (Option Socket × ℕ) → World → Supervised World
  unfolding reconnect_from
  reconnect_loop attempts w = reconnect_from attempts none [] w
