-- ===== src/Stake/Liveness.antt =====
-- When the wait of src/solana_stake.rs `confirm_finalized` succeeds.
use nexus_client.Prelude.{
  ℕ, zero, suc, ◌≡◌, ◌<◌, refl, true, false, List, [], ◌∷◌, ◌++◌, String, arith, ok,
}
use nexus_client.External.Serde.{Serde}
use nexus_client.Agenc.Net.{Event, slept, Servers}
use nexus_client.Stake.Rpc.{confirm_from, confirm_finalized, max_attempts}
use nexus_client.Stake.Finality.{asked, answered, poll_status-eq}

module _ (S : Serde) (servers : Servers S) (url sig : String) where
  -- The first `k` answers say that the signature is still pending, and the next one that it is finalized;
  -- between two requests there is a pause.
  abbrev pub Eventually : ℕ → List (Event S) → Type 0
  Eventually zero h = answered S servers url sig (servers (asked S servers url sig h)) ≡ ok true
  Eventually (suc k) h =
      (answered S servers url sig (servers (asked S servers url sig h)) ≡ ok false)
      × Eventually k (asked S servers url sig h ++ slept 2 ∷ [])

  confirm_from_lem :
      (k n : ℕ) (h : List (Event S))
      → k < n
      → Eventually k h
      → (confirm_from S servers url n sig h).0 ≡ ok tt
  unfolding confirm_from
  confirm_from_lem zero (suc n) h small now = rw (poll_status-eq S servers url sig h, now) refl
  confirm_from_lem (suc k) (suc (suc n)) h small (pending, later) =
      rw (poll_status-eq S servers url sig h, pending)
        (confirm_from_lem k (suc n) (asked S servers url sig h ++ slept 2 ∷ []) (omega arith) later)
  confirm_from_lem (suc k) (suc zero) h small later = let wrong : ⊥ = omega arith in elim wrong [ ]
  confirm_from_lem k zero h small later = let wrong : ⊥ = omega arith in elim wrong [ ]

  -- A signature that the RPC reports as pending fewer than thirty times in a row and then as finalized is
  -- confirmed.
  pub confirm_finalized_lem :
      (k : ℕ) (h : List (Event S))
      → k < 30
      → Eventually k h
      → (confirm_finalized S servers url sig h).0 ≡ ok tt
  unfolding confirm_finalized
  confirm_finalized_lem k h small later = confirm_from_lem k max_attempts h small later
