-- ===== src/Program/Settle.antt =====
-- `settle_payment` of programs/maxim_protocol/src/lib.rs: one function for each block of its body,
-- in the order of the body, and its account context.
pub mod Facts
pub mod Guard
pub mod Enforce
pub mod Effect
pub mod Charge
pub mod Contract
pub mod Complete
pub mod Refuse
pub mod Space
use maxim_contracts.Common.{
  ℕ, Bool, true, not, ◌&&◌, [], ◌∷◌, ◌==◌, if◌then◌else◌, ltb, leb, is_empty, contains,
  saturating_add, u64_max, u32_max,
}
use maxim_contracts.Common.Int.{ℤ}
use maxim_contracts.Errors.{
  Exec, ok, ◌>>=◌, ◌>>◌, ensure, require, or_fail, maxim, account, constraint_raw, agent_not_active,
  agent_frozen, zero_payment_amount, invalid_protocol, daily_budget_exceeded,
  weekly_budget_exceeded, monthly_budget_exceeded, per_call_limit_exceeded, rate_limit_exceeded,
  domain_not_allowed, domain_blocked, sequence_mismatch, global_payment_cap_exceeded,
}
use maxim_contracts.Events.{PaymentSettled, payment_settled}
use maxim_contracts.Platform.{Seeds, TokenAccount, Tokens, Runtime, Env}
use maxim_contracts.State.ProtocolConfig.{ProtocolConfig}
use maxim_contracts.State.AgentWallet.{
  AgentWallet, reset_daily_window_if_elapsed, reset_weekly_window_if_elapsed,
  reset_monthly_window_if_elapsed,
}
use maxim_contracts.State.SpendPolicy.{
  SpendPolicy, within_per_call_limit, within_daily_budget, within_weekly_budget,
  within_monthly_budget, within_rate_limit, reset_rate_window_if_elapsed,
}
use maxim_contracts.State.PaymentRecord.{PaymentProtocol, PaymentRecord, from_discriminant, len}
use maxim_contracts.Chain.{
  Chain, Outcome, wallet, policy, payment, set_account, load_config, load_wallet, load_policy,
  load_token, check_mint, check_signer, check_seeds, check_associated, check_space, has_one, init,
}
use maxim_contracts.Program.Params.{SettlePaymentParams}

pub record SettlePayment : Type 0 where
  pub payment_record : ℕ
  pub agent_wallet : ℕ
  pub spend_policy : ℕ
  pub usdc_token_account : ℕ
  pub payee_token_account : ℕ
  pub usdc_mint : ℕ
  pub owner : ℕ
  pub protocol_config : ℕ

-- What the context check hands to the body: the accounts as they were loaded, and the bump of the
-- record that was made.
pub record SettleAccounts : Type 0 where
  pub record_bump : ℕ
  pub agent_wallet : AgentWallet
  pub spend_policy : SpendPolicy
  pub payee_token_account : TokenAccount
  pub protocol_config : ProtocolConfig

-- Accounts are read in order, then `init` accounts are made, then the other constraints are checked.
unfoldable pub settle_accounts :
    Runtime → Env → Chain → SettlePayment → ℕ → SettlePaymentParams → Exec SettleAccounts
settle_accounts rt env chain ctx sequence params = do
  w ← load_wallet chain ctx.agent_wallet
  p ← load_policy chain ctx.spend_policy
  source ← load_token chain ctx.usdc_token_account
  payee ← load_token chain ctx.payee_token_account
  check_mint chain ctx.usdc_mint
  check_signer env ctx.owner
  c ← load_config chain ctx.protocol_config
  bump ←
      init rt chain ctx.owner ctx.payment_record (Seeds.payment_record ctx.agent_wallet sequence)
        len
  check_seeds rt ctx.agent_wallet (Seeds.agent_wallet params.agent_id) w.bump
  has_one w.owner ctx.owner
  check_seeds rt ctx.spend_policy (Seeds.spend_policy ctx.agent_wallet) p.bump
  ensure (p.agent_wallet == ctx.agent_wallet) (account constraint_raw)
  check_associated rt ctx.usdc_token_account source ctx.usdc_mint ctx.agent_wallet
  check_seeds rt ctx.protocol_config Seeds.protocol_config c.bump
  ok (record {
    record_bump = bump;
    agent_wallet = w;
    spend_policy = p;
    payee_token_account = payee;
    protocol_config = c;
  })

-- The protocol-level cap.
unfoldable pub check_global_cap : ProtocolConfig → ℕ → Exec (Unit {0})
check_global_cap c amount =
    if ltb 0 c.max_single_payment_usdc
    then require (leb amount c.max_single_payment_usdc) global_payment_cap_exceeded
    else ok tt

-- The wallet state guards and the window resets.
unfoldable pub guard_wallet : AgentWallet → ℤ → Exec AgentWallet
guard_wallet w now = do
  require w.is_active agent_not_active
  require (not w.is_frozen) agent_frozen
  w₁ ← reset_daily_window_if_elapsed w now
  w₂ ← reset_weekly_window_if_elapsed w₁ now
  reset_monthly_window_if_elapsed w₂ now

-- The limits of the policy, for a payment that is checked on-chain.
unfoldable pub enforce_limits :
    SpendPolicy → AgentWallet → SettlePaymentParams → ℤ → Exec SpendPolicy
enforce_limits p w params now = do
  require (within_per_call_limit p params.amount_usdc) per_call_limit_exceeded
  require (within_daily_budget p w.daily_spend params.amount_usdc) daily_budget_exceeded
  require (within_weekly_budget p w.weekly_spend params.amount_usdc) weekly_budget_exceeded
  require (within_monthly_budget p w.monthly_spend params.amount_usdc) monthly_budget_exceeded
  q ← reset_rate_window_if_elapsed p now
  require (within_rate_limit q) rate_limit_exceeded
  if is_empty q.blocked_domain_hashes
      then ok tt
      else require (not (contains params.domain_hash q.blocked_domain_hashes)) domain_blocked
  if is_empty q.allowed_domain_hashes
      then ok tt
      else require (contains params.domain_hash q.allowed_domain_hashes) domain_not_allowed
  ok (record q { rate_limit_call_count = saturating_add u32_max q.rate_limit_call_count 1 })

-- `enforce_on_chain`
abbrev pub enforce_on_chain : SpendPolicy → ℕ → Bool
enforce_on_chain p amount = ltb 0 p.high_value_threshold && leb p.high_value_threshold amount

unfoldable pub enforce_policy :
    SpendPolicy → AgentWallet → SettlePaymentParams → ℤ → Exec SpendPolicy
enforce_policy p w params now =
    if enforce_on_chain p params.amount_usdc then enforce_limits p w params now else ok p

-- The wallet's accounting after the transfer.
unfoldable pub account_payment : AgentWallet → ℕ → ℤ → AgentWallet
account_payment w amount now = record w {
  daily_spend = saturating_add u64_max w.daily_spend amount;
  weekly_spend = saturating_add u64_max w.weekly_spend amount;
  monthly_spend = saturating_add u64_max w.monthly_spend amount;
  total_volume = saturating_add u64_max w.total_volume amount;
  last_payment_at = now;
  payment_sequence = saturating_add u64_max w.payment_sequence 1;
  total_payments = saturating_add u64_max w.total_payments 1;
}

unfoldable pub settled_record :
    SettlePayment → SettleAccounts → ℕ → SettlePaymentParams → PaymentProtocol → ℤ → PaymentRecord
settled_record ctx accounts sequence params protocol now = record {
  agent_wallet = ctx.agent_wallet;
  sequence = sequence;
  endpoint_hash = params.endpoint_hash;
  payee = accounts.payee_token_account.owner;
  amount_usdc = params.amount_usdc;
  protocol = protocol;
  settled_at = now;
  policy_passed = true;
  parent_payment = params.parent_payment;
  memo = params.memo;
  bump = accounts.record_bump;
}

unfoldable pub settled_event :
    SettlePayment → SettleAccounts → ℕ → SettlePaymentParams → ℤ → PaymentSettled
settled_event ctx accounts sequence params now = record {
  agent_wallet = ctx.agent_wallet;
  sequence = sequence;
  endpoint_hash = params.endpoint_hash;
  payee = accounts.payee_token_account.owner;
  amount_usdc = params.amount_usdc;
  protocol = params.protocol;
  settled_at = now;
  parent_payment = params.parent_payment;
  memo = params.memo;
}

-- The transfer from the agent's token account to the payee's.
unfoldable pub pay_payee : Runtime → Tokens → SettlePayment → AgentWallet → ℕ → Exec Tokens
pay_payee rt tokens ctx w amount = rt.transfer tokens (record {
  from = ctx.usdc_token_account;
  to = ctx.payee_token_account;
  authority = ctx.agent_wallet;
  signer_seeds = Seeds.agent_wallet w.agent_id;
  signer_bump = w.bump;
  amount = amount;
})

-- What a settlement writes.
pub record Settlement : Type 0 where
  pub agent_wallet : AgentWallet
  pub spend_policy : SpendPolicy
  pub tokens : Tokens
  pub payment_record : PaymentRecord
  pub event : PaymentSettled

-- The body. The protocol that `unwrap` yields again for the record is the one that the second
-- `require!` has tested.
unfoldable pub settle_body :
    Runtime
    → Env
    → Tokens
    → SettlePayment
    → SettleAccounts
    → ℕ
    → SettlePaymentParams
    → Exec Settlement
unfolding settled_record settled_event pay_payee account_payment
settle_body rt env tokens ctx accounts sequence params = do
  require (ltb 0 params.amount_usdc) zero_payment_amount
  protocol ← or_fail (from_discriminant params.protocol) (maxim invalid_protocol)
  let w = accounts.agent_wallet
  require (sequence == w.payment_sequence) sequence_mismatch
  now ← env.clock
  check_global_cap accounts.protocol_config params.amount_usdc
  w' ← guard_wallet w now
  p' ← enforce_policy accounts.spend_policy w' params now
  tokens' ← pay_payee rt tokens ctx w' params.amount_usdc
  ok (record {
    agent_wallet = account_payment w' params.amount_usdc now;
    spend_policy = p';
    tokens = tokens';
    payment_record = settled_record ctx accounts sequence params protocol now;
    event = settled_event ctx accounts sequence params now;
  })

-- The accounts are written back in the order of the context.
unfoldable pub write_settlement : SettlePayment → Settlement → Chain → Chain
write_settlement ctx s chain = set_account ctx.spend_policy (policy s.spend_policy) (
    set_account ctx.agent_wallet (wallet s.agent_wallet) (
      set_account ctx.payment_record (payment s.payment_record)
        (record chain { tokens = s.tokens })))

unfoldable pub settle_payment :
    Runtime → Env → Chain → SettlePayment → ℕ → SettlePaymentParams → Outcome
settle_payment rt env chain ctx sequence params = do
  accounts ← settle_accounts rt env chain ctx sequence params
  s ← settle_body rt env chain.tokens ctx accounts sequence params
  check_space s.payment_record
  ok (write_settlement ctx s chain, payment_settled s.event ∷ [])
