-- ===== src/Work/Select.antt =====
-- src/work.rs: `WorkCfg`, `should_claim`, `est_token_cost_for_spec`, `select_job` and `brief_from_job`.
use Prim.Native.String
use nexus_client.Prelude.{
  ℕ, ◌*◌, ◌/◌, ◌%◌, ◌-◌, ◌^◌, min, pos, ℤ, Bool, false, not, Option, none, some, List, [], ◌∷◌,
  String, len, ◌==◌, and_then, unwrap_or, ltb, leb, eqb, if◌then◌else◌,
}
use nexus_client.Text.{is_empty, trim}
use nexus_client.External.Serde.{Serde}
use nexus_client.Config.Defaults.{Config}
use nexus_client.Config.Origin.{gateway_http_origin}

abbrev pub default_margin_num : ℕ
default_margin_num = 3

abbrev pub default_margin_den : ℕ
default_margin_den = 4

abbrev pub default_budget_secs : ℕ
default_budget_secs = 900

abbrev pub lamports_per_est_token : ℕ
lamports_per_est_token = 500

pub record WorkCfg : Type 0 where
  pub nexus_origin : String
  pub build_api_url : String
  pub rpc_url : String
  pub min_reward_lamports : ℕ
  pub margin_num : ℕ
  pub margin_den : ℕ
  pub model : String
  pub endpoint : String
  pub mcp_bin : String
  pub budget_secs : ℕ

unfoldable pub from_config : Config → WorkCfg
from_config cfg = record {
  nexus_origin = gateway_http_origin cfg;
  build_api_url = cfg.agenc.build_api_url;
  rpc_url = cfg.agenc.rpc_url;
  min_reward_lamports = cfg.agenc.min_reward_lamports;
  margin_num = default_margin_num;
  margin_den = default_margin_den;
  model = cfg.model;
  endpoint = cfg.agenc.endpoint;
  mcp_bin = cfg.agenc.mcp_bin;
  budget_secs = default_budget_secs;
}

pub record SelectedJob : Type 0 where
  pub task_pda : String
  pub parcel_uid : String
  pub reward_lamports : ℕ
  pub brief : String

-- The product and the quotient are those of `u128`.
unfoldable pub should_claim : ℕ → ℕ → ℕ → ℕ → ℕ → Bool
should_claim reward_lamports est_token_cost floor margin_num margin_den =
    if ltb reward_lamports floor
    then false
    else if eqb margin_den 0
    then false
    else leb est_token_cost (reward_lamports * margin_num % 2 ^ 128 / margin_den)

-- `saturating_mul` on u64
unfoldable pub est_token_cost_for_spec : ℕ → ℕ
est_token_cost_for_spec spec_bytes = min (spec_bytes / 4 * lamports_per_est_token) (2 ^ 64 - 1)

-- `as_i64` with the guard `r >= 0`
abbrev reward_of : Option ℤ → Option ℕ
reward_of (some (pos n)) = some n
reward_of _ = none

-- `Some(s) if !s.is_empty()`
abbrev non_empty : Option String → Option String
non_empty none = none
non_empty (some s) = if is_empty s then none else some s

abbrev is_text : Option String → String → Bool
is_text none k = false
is_text (some s) k = s == k

brief_of : String → String → String
brief_of title desc =
    if is_empty title
    then if is_empty desc then "Build the requested parcel app." else desc
    else if is_empty desc
    then title
    else String.◌++◌ title (String.◌++◌ "\n\n" desc)

-- Keep the highest reward; the earlier of two equal ones.
unfoldable pub better : Option SelectedJob → Option SelectedJob → Option SelectedJob
better best none = best
better none (some c) = some c
better (some b) (some c) = if ltb b.reward_lamports c.reward_lamports then some c else some b

module _ (S : Serde) where
  open S use {Value, get, as_str, as_i64, null, to_string}

  abbrev str_field : Value → String → Option String
  str_field v key = and_then (get v key) as_str

  unfoldable pub brief_from_job : Value → String
  unfolding brief_of
  brief_from_job job = brief_of (trim (unwrap_or (str_field job "title") "")) (
      trim (
        unwrap_or (and_then (get job "spec") (λ s. and_then (get s "short_description") as_str))
          ""))

  unfoldable pub est_for : Value → ℕ
  est_for job = est_token_cost_for_spec (len (to_string (unwrap_or (get job "spec") null)))

  -- One round of the loop: the candidate that a job gives, if it is not passed over.
  unfoldable pub candidate : String → WorkCfg → Value → Option SelectedJob
  candidate own_pubkey cfg job =
      if not (is_text (str_field job "status") "open")
      then none
      else if is_text (str_field job "owner_pk") own_pubkey
      then none
      else and_then (reward_of (and_then (get job "reward_lamports") as_i64)) λ reward.
        and_then (non_empty (str_field job "task_pda")) λ task_pda.
          and_then (non_empty (str_field job "parcel_uid")) λ parcel_uid.
            if should_claim reward (est_for job) cfg.min_reward_lamports cfg.margin_num
              cfg.margin_den
            then some (record {
              task_pda = task_pda;
              parcel_uid = parcel_uid;
              reward_lamports = reward;
              brief = brief_from_job job;
            })
            else none

  unfoldable pub select_from :
      String → WorkCfg → Option SelectedJob → List Value → Option SelectedJob
  select_from own_pubkey cfg best [] = best
  select_from own_pubkey cfg best (job ∷ jobs) =
      select_from own_pubkey cfg (better best (candidate own_pubkey cfg job)) jobs

  unfoldable pub select_job : List Value → String → WorkCfg → Option SelectedJob
  select_job jobs own_pubkey cfg = select_from own_pubkey cfg none jobs
