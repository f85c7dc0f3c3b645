-- ===== src/Program/Settle/Facts.antt =====
-- What a successful settlement says of the accounts it was given, and of each block of its body.
use maxim_contracts.Common.{Option-cases, ℕ, ◌≡◌, ◌<◌, inl, inr, true, some, none, arith}
use maxim_contracts.Common.Int.{ℤ}
use maxim_contracts.Errors.{ok, Exec-cases}
use maxim_contracts.Platform.{TokenAccount, Seeds, Tokens, Runtime, Env}
use maxim_contracts.State.AgentWallet.{AgentWallet}
use maxim_contracts.State.PaymentRecord.{PaymentProtocol, from_discriminant}
use maxim_contracts.Chain.{
  Chain, wallet, policy, config, load_config, load_wallet, load_policy, load_token, check_mint,
  check_signer, check_seeds, check_associated, has_one, init,
}
use maxim_contracts.Program.Params.{SettlePaymentParams}
use maxim_contracts.Program.Settle.{
  SettlePayment, SettleAccounts, Settlement, settle_accounts, settle_body, check_global_cap,
  guard_wallet, enforce_policy, pay_payee, account_payment, settled_record, settled_event,
}

-- The accounts that a settlement works on.
pub record ValidAccounts (rt : Runtime) (env : Env) (chain : Chain) (ctx : SettlePayment)
    (sequence : ℕ) (accounts : SettleAccounts) : Type 0 where
  pub wallet_stored : chain.accounts ctx.agent_wallet ≡ some (wallet accounts.agent_wallet)
  pub policy_stored : chain.accounts ctx.spend_policy ≡ some (policy accounts.spend_policy)
  pub config_stored : chain.accounts ctx.protocol_config ≡ some (config accounts.protocol_config)
  pub record_vacant : chain.accounts ctx.payment_record ≡ none
  pub record_derived :
      rt.find_address (Seeds.payment_record ctx.agent_wallet sequence)
      ≡ some (ctx.payment_record, accounts.record_bump)
  pub owner_signed : env.is_signer ctx.owner ≡ true
  pub owner_matches : accounts.agent_wallet.owner ≡ ctx.owner
  pub policy_derived :
      rt.create_address (Seeds.spend_policy ctx.agent_wallet) accounts.spend_policy.bump
      ≡ some ctx.spend_policy
  pub payee_stored :
      chain.tokens.accounts ctx.payee_token_account ≡ some accounts.payee_token_account

pub settle_accounts-ValidAccounts :
    (rt : Runtime) (env : Env) (chain : Chain) (ctx : SettlePayment) (sequence : ℕ)
    (params : SettlePaymentParams) (accounts : SettleAccounts)
    → settle_accounts rt env chain ctx sequence params ≡ ok accounts
    → ValidAccounts rt env chain ctx sequence accounts
unfolding settle_accounts load_wallet load_policy load_token load_config check_mint check_signer
    check_seeds has_one check_associated init
settle_accounts-ValidAccounts rt env chain ctx sequence params accounts h = ground arith

-- The token account that pays is the associated one of the wallet and the mint, and the wallet holds
-- it.
pub record PaidFrom (rt : Runtime) (chain : Chain) (ctx : SettlePayment) : Type 0 where
  pub source : TokenAccount
  pub stored : chain.tokens.accounts ctx.usdc_token_account ≡ some source
  pub held : source.owner ≡ ctx.agent_wallet
  pub associated : rt.associated_address ctx.agent_wallet ctx.usdc_mint ≡ ctx.usdc_token_account

pub settle_accounts-PaidFrom :
    (rt : Runtime) (env : Env) (chain : Chain) (ctx : SettlePayment) (sequence : ℕ)
    (params : SettlePaymentParams) (accounts : SettleAccounts)
    → settle_accounts rt env chain ctx sequence params ≡ ok accounts
    → PaidFrom rt chain ctx
unfolding settle_accounts load_token check_associated
settle_accounts-PaidFrom rt env chain ctx sequence params accounts h =
    elim (Option-cases (chain.tokens.accounts ctx.usdc_token_account)) [
      | inl missing ↦ absurd (ground arith)
      | inr (source, found) ↦ record {
        source = source;
        stored = found;
        held = ground arith;
        associated = ground arith;
      }
    ]

-- The blocks of the body that a settlement went through.
pub record BodyFacts (rt : Runtime) (env : Env) (tokens : Tokens) (ctx : SettlePayment)
    (accounts : SettleAccounts) (sequence : ℕ) (params : SettlePaymentParams) (s : Settlement)
    : Type 0 where
  pub now : ℤ
  pub protocol : PaymentProtocol
  pub guarded : AgentWallet
  pub clock_read : env.clock ≡ ok now
  pub amount_pos : 0 < params.amount_usdc
  pub protocol_known : from_discriminant params.protocol ≡ some protocol
  pub sequence_matches : sequence ≡ accounts.agent_wallet.payment_sequence
  pub cap_passed : check_global_cap accounts.protocol_config params.amount_usdc ≡ ok tt
  pub wallet_guarded : guard_wallet accounts.agent_wallet now ≡ ok guarded
  pub policy_enforced : enforce_policy accounts.spend_policy guarded params now ≡ ok s.spend_policy
  pub paid : pay_payee rt tokens ctx guarded params.amount_usdc ≡ ok s.tokens
  pub wallet_written : s.agent_wallet ≡ account_payment guarded params.amount_usdc now
  pub record_written : s.payment_record ≡ settled_record ctx accounts sequence params protocol now
  pub event_written : s.event ≡ settled_event ctx accounts sequence params now

module _ (rt : Runtime) (env : Env) (tokens : Tokens) (ctx : SettlePayment)
    (accounts : SettleAccounts) (sequence : ℕ) (params : SettlePaymentParams) (s : Settlement)
    (settled : settle_body rt env tokens ctx accounts sequence params ≡ ok s) where
  clock_read : (now : ℤ) × (env.clock ≡ ok now)
  unfolding settle_body
  clock_read = elim (Exec-cases env.clock) [ inl (e, failed) ↦ absurd (ground arith) | inr r ↦ r ]

  protocol_known : (q : PaymentProtocol) × (from_discriminant params.protocol ≡ some q)
  unfolding settle_body
  protocol_known = ground arith

  wallet_guarded :
      (now : ℤ)
      → env.clock ≡ ok now
      → (w : AgentWallet) × (guard_wallet accounts.agent_wallet now ≡ ok w)
  unfolding settle_body
  wallet_guarded now read = elim (Exec-cases (guard_wallet accounts.agent_wallet now)) [
    | inl (e, failed) ↦ absurd (ground arith)
    | inr r ↦ r
  ]

  pub settle_body-BodyFacts : BodyFacts rt env tokens ctx accounts sequence params s
  unfolding settle_body
  settle_body-BodyFacts =
      let (now, read) = clock_read in
      let (protocol, known) = protocol_known in
      let (guarded, passed) = wallet_guarded now read in
      record {
        now = now;
        protocol = protocol;
        guarded = guarded;
        clock_read = read;
        amount_pos = ground arith;
        protocol_known = known;
        sequence_matches = ground arith;
        cap_passed = ground arith;
        wallet_guarded = passed;
        policy_enforced = ground arith;
        paid = ground arith;
        wallet_written = ground arith;
        record_written = ground arith;
        event_written = ground arith;
      }
