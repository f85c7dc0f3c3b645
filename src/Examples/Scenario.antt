-- ===== src/Examples/Scenario.antt =====
-- A run of the program over the local runtime: deployment, registration, a policy, a deposit by
-- another program, a payment, a violation. The keys are those that `local` derives.
use maxim_contracts.Common.{
  ℕ, ◌+◌, ◌*◌, ◌^◌, ◌≡◌, refl, ◌||◌, List, [], ◌∷◌, none, some, ◌==◌, if◌then◌else◌, update,
}
use maxim_contracts.Common.Int.{pos, ◌+ℤ◌, ◌-ℤ◌, ◌*ℤ◌, div_ℤ}
use maxim_contracts.Errors.{ok, err, maxim, daily_budget_exceeded}
use maxim_contracts.Platform.{TokenAccount, Tokens, Env}
use maxim_contracts.State.AgentWallet.{
  reset_window, reset_daily_window_if_elapsed, reset_weekly_window_if_elapsed,
  reset_monthly_window_if_elapsed,
}
use maxim_contracts.State.SpendPolicy.{
  within_per_call_limit, within_daily_budget, within_weekly_budget, within_monthly_budget,
  within_rate_limit, reset_rate_window_if_elapsed,
}
use maxim_contracts.State.PaymentRecord.{from_discriminant}
use maxim_contracts.Chain.{
  Chain, Outcome, set_account, close_account, load_config, load_wallet, load_policy, load_token,
  check_mint, check_signer, has_one, check_seeds, init, init_policy_if_needed, check_associated,
  check_space,
}
use maxim_contracts.Program.Params.{SetSpendPolicyParams, SettlePaymentParams}
use maxim_contracts.Program.Config
use maxim_contracts.Program.Register
use maxim_contracts.Program.Policy
use maxim_contracts.Program.Settle
use maxim_contracts.Program.Violation
use maxim_contracts.Program.Status
use maxim_contracts.Program.Withdraw
use maxim_contracts.Program.Dispatch.{Instruction, execute}
use maxim_contracts.Examples.Local.{local}

-- What a run computes with.
unfoldable pub program : Unit {0}
unfolding ◌+ℤ◌ ◌-ℤ◌ ◌*ℤ◌ div_ℤ update local reset_window reset_daily_window_if_elapsed
    reset_weekly_window_if_elapsed reset_monthly_window_if_elapsed within_per_call_limit
    within_daily_budget within_weekly_budget within_monthly_budget within_rate_limit
    reset_rate_window_if_elapsed from_discriminant set_account close_account load_config load_wallet
    load_policy load_token check_mint check_signer has_one check_seeds init init_policy_if_needed
    check_associated check_space Config.init_protocol Config.admin_config
    Config.rotate_protocol_admin Config.update_protocol_config Register.register_agent
    Policy.set_spend_policy Settle.settle_accounts Settle.check_global_cap Settle.guard_wallet
    Settle.enforce_limits Settle.enforce_policy Settle.settle_body Settle.write_settlement
    Settle.settle_payment Violation.violation_accounts Violation.record_policy_violation
    Status.deactivate_agent Status.reactivate_agent Status.freeze_agent Status.unfreeze_agent
    Status.transfer_ownership Status.close_agent Withdraw.withdraw_accounts Withdraw.withdraw_funds
    Withdraw.withdraw_all execute
program = tt

abbrev pub admin : ℕ
admin = 11

abbrev pub owner : ℕ
owner = 12

abbrev pub usdc : ℕ
usdc = 3

-- Another mint.
abbrev pub scrap : ℕ
scrap = 2

abbrev pub agent : List ℕ
agent = b'a' ∷ []

abbrev pub config_key : ℕ
config_key = 4

abbrev pub wallet_key : ℕ
wallet_key = 4 * 2 ^ 97 + 4 + 1

abbrev pub policy_key : ℕ
policy_key = 4 * wallet_key + 6

abbrev pub first_key : ℕ
first_key = 4 * (2 * wallet_key + 1) + 7

abbrev pub second_key : ℕ
second_key = 8 * (2 * wallet_key + 1) + 7

-- Token accounts: the agent's for each mint, the owner's, and the payee's.
abbrev pub agent_usdc : ℕ
agent_usdc = 8 * (2 * wallet_key + 1)

abbrev pub agent_scrap : ℕ
agent_scrap = 4 * (2 * wallet_key + 1)

abbrev pub owner_usdc : ℕ
owner_usdc = 8 * (2 * owner + 1)

abbrev pub payee_usdc : ℕ
payee_usdc = 1000

abbrev token_account : ℕ → ℕ → ℕ → TokenAccount
token_account mint holder amount = record { mint = mint; owner = holder; amount = amount }

abbrev pub genesis : Chain
genesis = record {
  accounts = λ k. none;
  tokens = record {
    accounts = λ k.
        if k == owner_usdc
        then some (token_account usdc owner 0)
        else if k == payee_usdc
        then some (token_account usdc 13 0)
        else if k == agent_scrap
        then some (token_account scrap wallet_key 0)
        else none;
    is_mint = λ k. k == usdc || k == scrap;
  };
}

-- At a time, with the admin and the owner signing.
abbrev pub at : ℕ → Env
at time = record { clock = ok (pos time); is_signer = λ k. k == admin || k == owner }

abbrev pub after : Chain → Outcome → Chain
after chain (ok (chain', events)) = chain'
after chain (err e) = chain

abbrev pub deploy : Instruction
deploy = Instruction.init_protocol (record { protocol_config = config_key; payer = admin }) admin

unfoldable pub deployed : Chain
unfolding program
deployed = after genesis (execute local (at 1_000) genesis deploy)

abbrev pub register : Instruction
register =
    Instruction.register_agent
      (record {
        agent_wallet = wallet_key;
        usdc_token_account = agent_usdc;
        usdc_mint = usdc;
        owner = owner;
      })
      agent

unfoldable pub registered : Chain
unfolding program deployed
registered = after deployed (execute local (at 2_000) deployed register)

abbrev pub policy_params : SetSpendPolicyParams
policy_params = record {
  daily_budget = 50;
  weekly_budget = 200;
  per_call_limit = 40;
  rate_limit_calls = 5;
  rate_limit_window_secs = 60;
  high_value_threshold = 10;
  monthly_budget = 0;
  allowed_domain_hashes = 7 ∷ 8 ∷ [];
  blocked_domain_hashes = 9 ∷ [];
}

abbrev pub set_policy : Instruction
set_policy =
    Instruction.set_spend_policy
      (record { spend_policy = policy_key; agent_wallet = wallet_key; owner = owner }) policy_params

unfoldable pub ruled : Chain
unfolding program registered
ruled = after registered (execute local (at 2_500) registered set_policy)

-- Another program deposits 100 into the agent's token account.
unfoldable pub deposit : Tokens
unfolding program ruled
deposit = record ruled.tokens {
  accounts = update ruled.tokens.accounts agent_usdc (some (token_account usdc wallet_key 100));
}

unfoldable pub funded : Chain
unfolding ruled deposit
funded = record ruled { tokens = deposit }

abbrev pub settle_ctx : ℕ → Settle.SettlePayment
settle_ctx k = record {
  payment_record = k;
  agent_wallet = wallet_key;
  spend_policy = policy_key;
  usdc_token_account = agent_usdc;
  payee_token_account = payee_usdc;
  usdc_mint = usdc;
  owner = owner;
  protocol_config = config_key;
}

abbrev pub payment_of : ℕ → SettlePaymentParams
payment_of amount = record {
  agent_id = agent;
  endpoint_hash = 77;
  domain_hash = 7;
  amount_usdc = amount;
  protocol = 1;
  parent_payment = none;
  memo = none;
}

abbrev pub pay_30 : Instruction
pay_30 = Instruction.settle_payment (settle_ctx first_key) 0 (payment_of 30)

unfoldable pub paid : Chain
unfolding program funded
paid = after funded (execute local (at 3_000) funded pay_30)

abbrev tokens_at : Chain → ℕ → ℕ
tokens_at chain k = elim (chain.tokens.accounts k) [ none ↦ 0 | some t ↦ t.amount ]

pay_30_moves : (tokens_at paid agent_usdc ≡ 70) × (tokens_at paid payee_usdc ≡ 30)
unfolding paid
pay_30_moves = (refl, refl)

-- A second payment of 30 on the same day breaks the daily budget of 50; a day later it passes.
second_30_refused :
    execute local
      (at 4_000)
      paid
      (Instruction.settle_payment (settle_ctx second_key) 1 (payment_of 30))
    ≡ err (maxim daily_budget_exceeded)
unfolding paid
second_30_refused = refl

second_30_next_day :
    tokens_at
      (after paid (
        execute local
          (at 90_000)
          paid
          (Instruction.settle_payment (settle_ctx second_key) 1 (payment_of 30))))
      payee_usdc
    ≡ 60
unfolding paid
second_30_next_day = refl
