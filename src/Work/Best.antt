-- ===== src/Work/Best.antt =====
-- Which job is selected.
use nexus_client.Prelude.{
  ℕ, ◌≤◌, ◌<◌, ◌≡◌, ◌↔◌, refl, ap, ◌⊎◌, inl, inr, Option, none, some, List, [], ◌∷◌, ◌++◌, String,
  All, arith,
}
use nexus_client.External.Serde.{Serde}
use nexus_client.Work.Select.{WorkCfg, SelectedJob, candidate, better, select_from, select_job}

-- A reward is below, or at most, `n`, if it is there.
abbrev pub Below : ℕ → Option SelectedJob → Type 0
Below n none = Unit
Below n (some c) = c.reward_lamports < n

abbrev pub AtMost : ℕ → Option SelectedJob → Type 0
AtMost n none = Unit
AtMost n (some c) = c.reward_lamports ≤ n

better_cases :
    (best c : Option SelectedJob) {j : SelectedJob}
    → better best c ≡ some j
    → ((c ≡ some j) × Below j.reward_lamports best) ⊎ ((best ≡ some j) × AtMost j.reward_lamports c)
unfolding better
better_cases best none e = inr (e, tt)
better_cases none (some c) e = inl (e, tt)
better_cases (some b) (some c) e = ground arith

Below-better :
    (n : ℕ) (best c : Option SelectedJob) → Below n (better best c) → Below n best × Below n c
unfolding better
Below-better n best none h = (h, tt)
Below-better n none (some c) h = (tt, h)
Below-better n (some b) (some c) h = ground arith

module _ (S : Serde) (own_pubkey : String) (cfg : WorkCfg) where
  abbrev of_job : S.Value → Option SelectedJob
  of_job job = candidate S own_pubkey cfg job

  -- `j` is the candidate of some job of the list; earlier candidates pay less, later ones at most as
  -- much.
  pub record IsBest (jobs : List S.Value) (j : SelectedJob) : Type 0 where
    pub earlier : List S.Value
    pub job : S.Value
    pub later : List S.Value
    pub split : jobs ≡ earlier ++ job ∷ later
    pub chosen : candidate S own_pubkey cfg job ≡ some j
    pub earlier_less : All (λ v. Below j.reward_lamports (candidate S own_pubkey cfg v)) earlier
    pub later_at_most : All (λ v. AtMost j.reward_lamports (candidate S own_pubkey cfg v)) later

  abbrev Kept : Option SelectedJob → List S.Value → SelectedJob → Type 0
  Kept best jobs j =
      ((best ≡ some j) × All (λ v. AtMost j.reward_lamports (of_job v)) jobs)
      ⊎ (IsBest jobs j × Below j.reward_lamports best)

  Kept-cons :
      (best : Option SelectedJob) (v : S.Value) (jobs : List S.Value) (j : SelectedJob)
      → Kept (better best (of_job v)) jobs j
      → Kept best (v ∷ jobs) j
  Kept-cons best v jobs j (inl (e, rest)) = from_head (better_cases best (of_job v) e)
    where
      from_head :
          ((of_job v ≡ some j) × Below j.reward_lamports best)
            ⊎ ((best ≡ some j) × AtMost j.reward_lamports (of_job v))
          → Kept best (v ∷ jobs) j
      from_head (inl (c, low)) = inr (
        record {
          earlier = [];
          job = v;
          later = jobs;
          split = refl;
          chosen = c;
          earlier_less = tt;
          later_at_most = rest;
        },
        low,
      )
      from_head (inr (b, low)) = inl (b, (low, rest))
  Kept-cons best v jobs j (inr (b, low)) =
      let (low_best, low_v) = Below-better j.reward_lamports best (of_job v) low in
      inr (
        record {
          earlier = v ∷ b.earlier;
          job = b.job;
          later = b.later;
          split = ap (λ vs. v ∷ vs) b.split;
          chosen = b.chosen;
          earlier_less = (low_v, b.earlier_less);
          later_at_most = b.later_at_most;
        },
        low_best,
      )

  select_from-Kept :
      (best : Option SelectedJob) (jobs : List S.Value) (j : SelectedJob)
      → select_from S own_pubkey cfg best jobs ≡ some j
      → Kept best jobs j
  unfolding select_from
  select_from-Kept best [] j e = inl (e, tt)
  select_from-Kept best (v ∷ jobs) j e =
      Kept-cons best v jobs j (select_from-Kept (better best (of_job v)) jobs j e)

  pick : (jobs : List S.Value) (j : SelectedJob) → Kept none jobs j → IsBest jobs j
  pick jobs j (inl (h, _)) = cc
  pick jobs j (inr (b, _)) = b

  select_from-none :
      (best : Option SelectedJob) (jobs : List S.Value)
      → (select_from S own_pubkey cfg best jobs ≡ none)
        ↔ ((best ≡ none) × All (λ v. of_job v ≡ none) jobs)
  unfolding select_from better
  select_from-none best [] = ground arith
  select_from-none best (v ∷ jobs) = ground (arith, select_from-none (better best (of_job v)) jobs)

  abbrev pub Selects : List S.Value → Option SelectedJob → Type 0
  Selects jobs none = All (λ v. candidate S own_pubkey cfg v ≡ none) jobs
  Selects jobs (some j) = IsBest jobs j

  Selects-of :
      (jobs : List S.Value) (r : Option SelectedJob)
      → select_from S own_pubkey cfg none jobs ≡ r
      → Selects jobs r
  Selects-of jobs none e = ((select_from-none none jobs).0 e).1
  Selects-of jobs (some j) e = pick jobs j (select_from-Kept none jobs j e)

  -- A selected job is a claimable job of the board, no claimable job pays more, and it is the first of
  -- those that pay as much; where nothing is selected, no job of the board is claimable.
  pub select_job-Selects : (jobs : List S.Value) → Selects jobs (select_job S jobs own_pubkey cfg)
  unfolding select_job
  select_job-Selects jobs = Selects-of jobs (select_from S own_pubkey cfg none jobs) refl
