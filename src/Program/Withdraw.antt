-- ===== src/Program/Withdraw.antt =====
-- `withdraw_funds`, `withdraw_all` and `cpi_transfer_from_wallet` of
-- programs/maxim_protocol/src/lib.rs, with the account context that the two share.
pub mod Effect
pub mod Complete
use maxim_contracts.Common.{ℕ, List, [], ◌∷◌, ltb, leb}
use maxim_contracts.Errors.{Exec, ok, ◌>>=◌, ◌>>◌, require, zero_payment_amount, insufficient_funds}
use maxim_contracts.Events.{FundsWithdrawn, funds_withdrawn}
use maxim_contracts.Platform.{Seeds, TokenAccount, Tokens, Runtime, Env}
use maxim_contracts.State.AgentWallet.{AgentWallet}
use maxim_contracts.Chain.{
  Chain, Outcome, load_wallet, load_token, check_mint, check_signer, check_associated, has_one,
}

pub record WithdrawFunds : Type 0 where
  pub agent_wallet : ℕ
  pub usdc_token_account : ℕ
  pub owner_token_account : ℕ
  pub usdc_mint : ℕ
  pub owner : ℕ

-- What the context check hands to the body.
pub record WithdrawAccounts : Type 0 where
  pub agent_wallet : AgentWallet
  pub usdc_token_account : TokenAccount
  pub owner_token_account : TokenAccount

unfoldable pub withdraw_accounts : Runtime → Env → Chain → WithdrawFunds → Exec WithdrawAccounts
withdraw_accounts rt env chain ctx = do
  w ← load_wallet chain ctx.agent_wallet
  source ← load_token chain ctx.usdc_token_account
  target ← load_token chain ctx.owner_token_account
  check_mint chain ctx.usdc_mint
  check_signer env ctx.owner
  has_one w.owner ctx.owner
  check_associated rt ctx.usdc_token_account source ctx.usdc_mint ctx.agent_wallet
  check_associated rt ctx.owner_token_account target ctx.usdc_mint ctx.owner
  ok (record { agent_wallet = w; usdc_token_account = source; owner_token_account = target })

-- `from`, `to` and `authority` are the addresses of the accounts that the source passes.
unfoldable pub cpi_transfer_from_wallet :
    Runtime → Tokens → ℕ → ℕ → ℕ → List ℕ → ℕ → ℕ → Exec Tokens
cpi_transfer_from_wallet rt tokens from to authority agent_id bump amount =
    rt.transfer tokens (record {
      from = from;
      to = to;
      authority = authority;
      signer_seeds = Seeds.agent_wallet agent_id;
      signer_bump = bump;
      amount = amount;
    })

unfoldable pub withdraw_funds : Runtime → Env → Chain → WithdrawFunds → ℕ → Outcome
unfolding cpi_transfer_from_wallet
withdraw_funds rt env chain ctx amount = do
  accounts ← withdraw_accounts rt env chain ctx
  require (ltb 0 amount) zero_payment_amount
  require (leb amount accounts.usdc_token_account.amount) insufficient_funds
  now ← env.clock
  let w = accounts.agent_wallet
  tokens ←
      cpi_transfer_from_wallet rt chain.tokens ctx.usdc_token_account ctx.owner_token_account
        ctx.agent_wallet w.agent_id w.bump amount
  let withdrawn : FundsWithdrawn = record {
    agent_wallet = ctx.agent_wallet;
    to = accounts.owner_token_account.owner;
    amount_usdc = amount;
    withdrawn_at = now;
  }
  ok (record chain { tokens = tokens }, funds_withdrawn withdrawn ∷ [])

unfoldable pub withdraw_all : Runtime → Env → Chain → WithdrawFunds → Outcome
unfolding cpi_transfer_from_wallet
withdraw_all rt env chain ctx = do
  accounts ← withdraw_accounts rt env chain ctx
  let amount = accounts.usdc_token_account.amount
  require (ltb 0 amount) zero_payment_amount
  now ← env.clock
  let w = accounts.agent_wallet
  tokens ←
      cpi_transfer_from_wallet rt chain.tokens ctx.usdc_token_account ctx.owner_token_account
        ctx.agent_wallet w.agent_id w.bump amount
  let withdrawn : FundsWithdrawn = record {
    agent_wallet = ctx.agent_wallet;
    to = accounts.owner_token_account.owner;
    amount_usdc = amount;
    withdrawn_at = now;
  }
  ok (record chain { tokens = tokens }, funds_withdrawn withdrawn ∷ [])
