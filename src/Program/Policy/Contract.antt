-- ===== src/Program/Policy/Contract.antt =====
-- What `set_spend_policy` promises its callers.
use maxim_contracts.Common.{ℕ, ◌≡◌, ◌≤◌, ◌⊎◌, refl, true, List, [], ◌∷◌, some, none, arith, length}
use maxim_contracts.Common.Int.{ℤ}
use maxim_contracts.Errors.{ok}
use maxim_contracts.Events.{Event, spend_policy_updated}
use maxim_contracts.Platform.{Seeds, Runtime, Env}
use maxim_contracts.State.AgentWallet.{AgentWallet}
use maxim_contracts.State.SpendPolicy.{SpendPolicy}
use maxim_contracts.Chain.{Chain, wallet, policy}
use maxim_contracts.Chain.Store.{accounts-set_account, tokens-set_account}
use maxim_contracts.Program.Params.{SetSpendPolicyParams}
use maxim_contracts.Program.Policy.{SetSpendPolicy, set_spend_policy, new_policy, updated}
use maxim_contracts.Program.Policy.Effect.{set_spend_policy_lem}

-- The outcome of setting a policy, on the chain before and after it.
pub record PolicyOutcome (rt : Runtime) (env : Env) (chain : Chain) (ctx : SetSpendPolicy)
    (params : SetSpendPolicyParams) (chain' : Chain) (events : List Event) : Type 0 where
  pub holder : AgentWallet
  pub after : SpendPolicy
  pub now : ℤ
  pub clock : env.clock ≡ ok now
  pub wallet_stored : chain.accounts ctx.agent_wallet ≡ some (wallet holder)
  pub signed : env.is_signer ctx.owner ≡ true
  pub authorised : holder.owner ≡ ctx.owner
  pub derived :
      rt.find_address (Seeds.spend_policy ctx.agent_wallet) ≡ some (ctx.spend_policy, after.bump)
  pub replaced :
      (chain.accounts ctx.spend_policy ≡ none)
      ⊎ ((p : SpendPolicy) × (chain.accounts ctx.spend_policy ≡ some (policy p)))
  pub after_at : chain'.accounts ctx.spend_policy ≡ some (policy after)
  pub of_wallet : after.agent_wallet ≡ ctx.agent_wallet
  pub per_day : after.daily_budget ≡ params.daily_budget
  pub per_week : after.weekly_budget ≡ params.weekly_budget
  pub per_month : after.monthly_budget ≡ params.monthly_budget
  pub per_call : after.per_call_limit ≡ params.per_call_limit
  pub rate : after.rate_limit_calls ≡ params.rate_limit_calls
  pub rate_window : after.rate_limit_window_secs ≡ params.rate_limit_window_secs
  pub no_calls : after.rate_limit_call_count ≡ 0
  pub rate_starts : after.rate_limit_window_start ≡ now
  pub threshold : after.high_value_threshold ≡ params.high_value_threshold
  pub allowed : after.allowed_domain_hashes ≡ params.allowed_domain_hashes
  pub blocked : after.blocked_domain_hashes ≡ params.blocked_domain_hashes
  pub allowed_fits : length after.allowed_domain_hashes ≤ 32
  pub blocked_fits : length after.blocked_domain_hashes ≤ 32
  pub others : (k : ℕ) → (k ≡ ctx.spend_policy) ⊎ (chain'.accounts k ≡ chain.accounts k)
  pub tokens_kept : chain'.tokens ≡ chain.tokens
  pub emitted :
      events
      ≡ spend_policy_updated (record {
        agent_wallet = ctx.agent_wallet;
        daily_budget = params.daily_budget;
        weekly_budget = params.weekly_budget;
        monthly_budget = params.monthly_budget;
        per_call_limit = params.per_call_limit;
        high_value_threshold = params.high_value_threshold;
        updated_at = now;
      })
        ∷ []

-- A policy that is set was signed by the owner of the wallet and stands at the address derived for
-- the wallet, where nothing or a policy stood. It has the limits, the threshold and the domain lists
-- that were asked for, of at most 32 domains each, and a rate window that starts at the present with
-- no call counted. No other account and no token balance changes, and one event with the new limits
-- is emitted.
pub set_spend_policy_outcome :
    (rt : Runtime) (env : Env) (chain : Chain) (ctx : SetSpendPolicy)
    (params : SetSpendPolicyParams) {chain' : Chain} {events : List Event}
    → set_spend_policy rt env chain ctx params ≡ ok (chain', events)
    → PolicyOutcome rt env chain ctx params chain' events
unfolding new_policy updated
set_spend_policy_outcome rt env chain ctx params done =
    let (w, bump, now, s, e, m) = set_spend_policy_lem rt env chain ctx params done in
    record {
      holder = w;
      after = new_policy ctx params bump now;
      now = now;
      clock = s.clock;
      wallet_stored = s.wallet_stored;
      signed = s.signed;
      authorised = s.authorised;
      derived = s.derived;
      replaced = s.replaced;
      after_at = rw e (simp accounts-set_account (ground arith));
      of_wallet = refl;
      per_day = refl;
      per_week = refl;
      per_month = refl;
      per_call = refl;
      rate = refl;
      rate_window = refl;
      no_calls = refl;
      rate_starts = refl;
      threshold = refl;
      allowed = refl;
      blocked = refl;
      allowed_fits = s.allowed_fits;
      blocked_fits = s.blocked_fits;
      others = λ k. rw e (simp accounts-set_account (ground arith));
      tokens_kept = rw e (simp tokens-set_account);
      emitted = m;
    }
