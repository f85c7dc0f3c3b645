-- ===== src/Program/Policy.antt =====
-- `set_spend_policy` of programs/maxim_protocol/src/lib.rs and its account context.
pub mod Effect
pub mod Contract
use maxim_contracts.Common.{ℕ, [], ◌∷◌, leb, length}
use maxim_contracts.Errors.{ok, ◌>>=◌, ◌>>◌, require, domain_list_full}
use maxim_contracts.Common.Int.{ℤ}
use maxim_contracts.Events.{SpendPolicyUpdated, spend_policy_updated}
use maxim_contracts.Platform.{Seeds, Runtime, Env}
use maxim_contracts.State.SpendPolicy.{SpendPolicy, max_domain_entries, len}
use maxim_contracts.Chain.{
  Chain, Outcome, policy, set_account, load_wallet, check_signer, has_one, init_policy_if_needed,
}
use maxim_contracts.Program.Params.{SetSpendPolicyParams}

pub record SetSpendPolicy : Type 0 where
  pub spend_policy : ℕ
  pub agent_wallet : ℕ
  pub owner : ℕ

-- The policy that the body writes, over whatever was there.
unfoldable pub new_policy : SetSpendPolicy → SetSpendPolicyParams → ℕ → ℤ → SpendPolicy
new_policy ctx params bump now = record {
  agent_wallet = ctx.agent_wallet;
  daily_budget = params.daily_budget;
  weekly_budget = params.weekly_budget;
  monthly_budget = params.monthly_budget;
  per_call_limit = params.per_call_limit;
  rate_limit_calls = params.rate_limit_calls;
  rate_limit_window_secs = params.rate_limit_window_secs;
  rate_limit_call_count = 0;
  rate_limit_window_start = now;
  high_value_threshold = params.high_value_threshold;
  allowed_domain_hashes = params.allowed_domain_hashes;
  blocked_domain_hashes = params.blocked_domain_hashes;
  bump = bump;
}

unfoldable pub updated : SetSpendPolicy → SetSpendPolicyParams → ℤ → SpendPolicyUpdated
updated ctx params now = record {
  agent_wallet = ctx.agent_wallet;
  daily_budget = params.daily_budget;
  weekly_budget = params.weekly_budget;
  monthly_budget = params.monthly_budget;
  per_call_limit = params.per_call_limit;
  high_value_threshold = params.high_value_threshold;
  updated_at = now;
}

unfoldable pub set_spend_policy :
    Runtime → Env → Chain → SetSpendPolicy → SetSpendPolicyParams → Outcome
unfolding new_policy updated
set_spend_policy rt env chain ctx params = do
  w ← load_wallet chain ctx.agent_wallet
  check_signer env ctx.owner
  bump ←
      init_policy_if_needed rt chain ctx.owner ctx.spend_policy
        (Seeds.spend_policy ctx.agent_wallet) len
  has_one w.owner ctx.owner
  require (leb (length params.allowed_domain_hashes) max_domain_entries) domain_list_full
  require (leb (length params.blocked_domain_hashes) max_domain_entries) domain_list_full
  now ← env.clock
  let p = new_policy ctx params bump now
  ok (
    set_account ctx.spend_policy (policy p) chain,
    spend_policy_updated (updated ctx params now) ∷ [],
  )
