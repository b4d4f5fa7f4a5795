-- ===== src/Examples/Work.antt =====
-- The job selection at concrete inputs.
use nexus_client.Prelude.{◌≡◌, ◌↔◌, refl, ◌*◌, ◌≤◌, ◌<◌, true, some, List, [], ◌∷◌, arith}
use nexus_client.Work.Select.{
  WorkCfg, SelectedJob, should_claim, candidate, select_job, brief_from_job, est_for, better,
  select_from, est_token_cost_for_spec,
}
use nexus_client.Work.Margin.{should_claim_iff}
use nexus_client.Work.Best.{Selects, select_job-Selects}
use nexus_client.Text.{trim}
use nexus_client.Examples.Json.{sample_serde, Value, open_job}

should_claim_iff_example :
    (should_claim 1000 750 500 3 4 ≡ true) ↔ ((500 ≤ 1000) × (0 < 4) × (750 * 4 ≤ 1000 * 3))
should_claim_iff_example = should_claim_iff 1000 750 500 3 4 (omega arith) (omega arith)

abbrev pub cfg : WorkCfg
cfg = record {
  nexus_origin = "http://board";
  build_api_url = "http://sidecar";
  rpc_url = "http://rpc";
  min_reward_lamports = 1_000_000;
  margin_num = 3;
  margin_den = 4;
  model = "hermes-3";
  endpoint = "";
  mcp_bin = "mcp";
  budget_secs = 30;
}

abbrev jobs : List Value
jobs =
    open_job "other" "low" 2_000_000
    ∷ open_job "me" "own" 90_000_000
    ∷ open_job "other" "high" 9_000_000
    ∷ open_job "other" "same" 9_000_000
    ∷ []

abbrev high : SelectedJob
high = record {
  task_pda = "high";
  parcel_uid = "parcel";
  reward_lamports = 9_000_000;
  brief = "Build it";
}

selects_high : select_job sample_serde jobs "me" cfg ≡ some high
unfolding select_job select_from candidate better should_claim est_for est_token_cost_for_spec
    brief_from_job trim
selects_high = refl

select_job-Selects_example :
    Selects sample_serde "me" cfg jobs (select_job sample_serde jobs "me" cfg)
select_job-Selects_example = select_job-Selects sample_serde "me" cfg jobs
