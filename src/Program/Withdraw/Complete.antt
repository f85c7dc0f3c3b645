-- ===== src/Program/Withdraw/Complete.antt =====
-- When the withdrawals succeed.
use maxim_contracts.Common.{◌≡◌, ◌<◌, true, List, [], ◌∷◌, some, arith}
use maxim_contracts.Common.Int.{ℤ}
use maxim_contracts.Errors.{ok}
use maxim_contracts.Events.{Event, FundsWithdrawn, funds_withdrawn}
use maxim_contracts.Platform.{TokenAccount, Tokens, Runtime, Env}
use maxim_contracts.State.AgentWallet.{AgentWallet}
use maxim_contracts.Chain.{
  Chain, wallet, load_wallet, load_token, check_mint, check_signer, check_associated, has_one,
}
use maxim_contracts.Program.Withdraw.{
  WithdrawFunds, withdraw_accounts, withdraw_all, cpi_transfer_from_wallet,
}

-- The accounts of a withdrawal are the right ones, and the owner has signed.
pub record Presented (rt : Runtime) (env : Env) (chain : Chain) (ctx : WithdrawFunds)
    (w : AgentWallet) (source : TokenAccount) : Type 0 where
  pub target : TokenAccount
  pub stored : chain.accounts ctx.agent_wallet ≡ some (wallet w)
  pub source_stored : chain.tokens.accounts ctx.usdc_token_account ≡ some source
  pub target_stored : chain.tokens.accounts ctx.owner_token_account ≡ some target
  pub real_mint : chain.tokens.is_mint ctx.usdc_mint ≡ true
  pub signed : env.is_signer ctx.owner ≡ true
  pub authorised : w.owner ≡ ctx.owner
  pub source_held : source.owner ≡ ctx.agent_wallet
  pub target_held : target.owner ≡ ctx.owner
  pub source_associated :
      rt.associated_address ctx.agent_wallet ctx.usdc_mint ≡ ctx.usdc_token_account
  pub target_associated : rt.associated_address ctx.owner ctx.usdc_mint ≡ ctx.owner_token_account

-- The owner of a wallet, in whatever status it is, takes all that its token account holds, if that is
-- something, the accounts are the right ones, the clock can be read and the token transfer succeeds;
-- the token balances are those that the transfer left.
pub withdraw_all_succeeds :
    (rt : Runtime) (env : Env) (chain : Chain) (ctx : WithdrawFunds) (w : AgentWallet)
    (source : TokenAccount) (now : ℤ) (tokens' : Tokens)
    → Presented rt env chain ctx w source
    → 0 < source.amount
    → env.clock ≡ ok now
    → cpi_transfer_from_wallet rt chain.tokens ctx.usdc_token_account ctx.owner_token_account
        ctx.agent_wallet w.agent_id w.bump source.amount
      ≡ ok tokens'
    → (events : List Event) × (withdraw_all rt env chain ctx
        ≡ ok (record chain { tokens = tokens' }, events))
unfolding withdraw_all withdraw_accounts load_wallet load_token check_mint check_signer
    check_associated has_one
withdraw_all_succeeds rt env chain ctx w source now tokens' v holds read sent =
    let withdrawn : FundsWithdrawn = record {
      agent_wallet = ctx.agent_wallet;
      to = v.target.owner;
      amount_usdc = source.amount;
      withdrawn_at = now;
    } in
    (funds_withdrawn withdrawn ∷ [], ground arith)
