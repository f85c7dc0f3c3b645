-- ===== src/Program/Withdraw/Effect.antt =====
-- The withdrawals as a whole: what they checked, where the tokens go, and that they do not depend on
-- the status of the wallet.
use maxim_contracts.Common.{ℕ, ◌≡◌, ◌≤◌, ◌<◌, Bool, true, List, some, inl, inr, arith, ap}
use maxim_contracts.Common.Int.{ℤ}
use maxim_contracts.Errors.{ok, Exec-cases}
use maxim_contracts.Events.{Event}
use maxim_contracts.Platform.{TokenAccount, Runtime, Env}
use maxim_contracts.Platform.Laws.{Moved, TransferLaws, balance}
use maxim_contracts.State.AgentWallet.{AgentWallet}
use maxim_contracts.State.AgentWallet.Status.{with_status}
use maxim_contracts.Chain.{
  Chain, wallet, set_account, load_wallet, load_token, check_mint, check_signer, check_associated,
  has_one,
}
use maxim_contracts.Chain.Store.{accounts-set_account}
use maxim_contracts.Program.Withdraw.{
  WithdrawFunds, WithdrawAccounts, withdraw_accounts, withdraw_funds, withdraw_all,
  cpi_transfer_from_wallet,
}

pub record Withdrawable (rt : Runtime) (env : Env) (chain : Chain) (ctx : WithdrawFunds)
    (accounts : WithdrawAccounts) : Type 0 where
  pub stored : chain.accounts ctx.agent_wallet ≡ some (wallet accounts.agent_wallet)
  pub source_stored :
      chain.tokens.accounts ctx.usdc_token_account ≡ some accounts.usdc_token_account
  pub target_stored :
      chain.tokens.accounts ctx.owner_token_account ≡ some accounts.owner_token_account
  pub signed : env.is_signer ctx.owner ≡ true
  pub authorised : accounts.agent_wallet.owner ≡ ctx.owner
  pub source_held : accounts.usdc_token_account.owner ≡ ctx.agent_wallet
  pub target_held : accounts.owner_token_account.owner ≡ ctx.owner
  pub source_associated :
      rt.associated_address ctx.agent_wallet ctx.usdc_mint ≡ ctx.usdc_token_account
  pub target_associated : rt.associated_address ctx.owner ctx.usdc_mint ≡ ctx.owner_token_account

pub withdraw_accounts-Withdrawable :
    (rt : Runtime) (env : Env) (chain : Chain) (ctx : WithdrawFunds) (accounts : WithdrawAccounts)
    → withdraw_accounts rt env chain ctx ≡ ok accounts
    → Withdrawable rt env chain ctx accounts
unfolding withdraw_accounts load_wallet load_token check_mint check_signer has_one check_associated
withdraw_accounts-Withdrawable rt env chain ctx accounts h = ground arith

-- `withdraw_all` is `withdraw_funds` with the balance of the agent's token account.
pub withdraw_all-eq-withdraw_funds :
    (rt : Runtime) (env : Env) (chain : Chain) (ctx : WithdrawFunds) (source : TokenAccount)
    → chain.tokens.accounts ctx.usdc_token_account ≡ some source
    → withdraw_all rt env chain ctx ≡ withdraw_funds rt env chain ctx source.amount
unfolding withdraw_all withdraw_funds
withdraw_all-eq-withdraw_funds rt env chain ctx source stored =
    elim (Exec-cases (withdraw_accounts rt env chain ctx)) [
      | inl (e, failed) ↦ rw failed
      | inr (accounts, passed) ↦
          let v = withdraw_accounts-Withdrawable rt env chain ctx accounts passed in
          let same : accounts.usdc_token_account ≡ source = cc (stored, v.source_stored) in
          ground (arith, same)
    ]

withdraw_as_funds :
    (rt : Runtime) (env : Env) (chain : Chain) (ctx : WithdrawFunds) (source : TokenAccount)
    {chain' : Chain} {events : List Event}
    → chain.tokens.accounts ctx.usdc_token_account ≡ some source
    → withdraw_all rt env chain ctx ≡ ok (chain', events)
    → withdraw_funds rt env chain ctx source.amount ≡ ok (chain', events)
withdraw_as_funds rt env chain ctx source stored done =
    rw (← withdraw_all-eq-withdraw_funds rt env chain ctx source stored) done

module _ (rt : Runtime) (env : Env) (chain : Chain) (ctx : WithdrawFunds) (amount : ℕ)
    {chain' : Chain} {events : List Event}
    (done : withdraw_funds rt env chain ctx amount ≡ ok (chain', events)) where
  accounts_found : (a : WithdrawAccounts) × (withdraw_accounts rt env chain ctx ≡ ok a)
  unfolding withdraw_funds
  accounts_found = elim (Exec-cases (withdraw_accounts rt env chain ctx)) [
    | inl (e, failed) ↦ absurd (ground arith)
    | inr r ↦ r
  ]

  clock_found :
      (a : WithdrawAccounts)
      → withdraw_accounts rt env chain ctx ≡ ok a
      → (now : ℤ) × (env.clock ≡ ok now)
  unfolding withdraw_funds
  clock_found a found = elim (Exec-cases env.clock) [
    | inl (e, failed) ↦ absurd (ground arith)
    | inr r ↦ r
  ]

  transfer_done :
      (a : WithdrawAccounts)
      → withdraw_accounts rt env chain ctx ≡ ok a
      → (cpi_transfer_from_wallet rt chain.tokens ctx.usdc_token_account ctx.owner_token_account
            ctx.agent_wallet a.agent_wallet.agent_id a.agent_wallet.bump amount
          ≡ ok chain'.tokens)
        × (chain' ≡ record chain { tokens = chain'.tokens })
        × (0 < amount)
        × (amount ≤ a.usdc_token_account.amount)
  unfolding withdraw_funds
  transfer_done a found = let (now, read) = clock_found a found in ground arith

-- A withdrawal writes no account of the program.
pub withdraw_funds_accounts :
    (rt : Runtime) (env : Env) (chain : Chain) (ctx : WithdrawFunds) (amount : ℕ) {chain' : Chain}
    {events : List Event}
    → withdraw_funds rt env chain ctx amount ≡ ok (chain', events)
    → chain'.accounts ≡ chain.accounts
withdraw_funds_accounts rt env chain ctx amount done =
    let (a, found) = accounts_found rt env chain ctx amount done in
    ap (λ (c : Chain). c.accounts) (transfer_done rt env chain ctx amount done a found).1

pub withdraw_all_funds :
    (rt : Runtime) (env : Env) (chain : Chain) (ctx : WithdrawFunds) {chain' : Chain}
    {events : List Event}
    → withdraw_all rt env chain ctx ≡ ok (chain', events)
    → (amount : ℕ) × (withdraw_funds rt env chain ctx amount ≡ ok (chain', events))
unfolding withdraw_all
withdraw_all_funds rt env chain ctx done = elim (Exec-cases (withdraw_accounts rt env chain ctx)) [
  | inl (e, failed) ↦ absurd (ground arith)
  | inr (a, passed) ↦
      let v = withdraw_accounts-Withdrawable rt env chain ctx a passed in
      (
        a.usdc_token_account.amount,
        withdraw_as_funds rt env chain ctx a.usdc_token_account v.source_stored done,
      )
]

-- The outcome of a withdrawal, on the chain before and after it.
pub record WithdrawOutcome (rt : Runtime) (env : Env) (chain : Chain) (ctx : WithdrawFunds)
    (amount : ℕ) (chain' : Chain) : Type 0 where
  pub source_wallet : AgentWallet
  pub target : TokenAccount
  pub stored : chain.accounts ctx.agent_wallet ≡ some (wallet source_wallet)
  pub target_stored : chain.tokens.accounts ctx.owner_token_account ≡ some target
  pub signed : env.is_signer ctx.owner ≡ true
  pub authorised : source_wallet.owner ≡ ctx.owner
  pub to_owner : target.owner ≡ ctx.owner
  pub source : TokenAccount
  pub source_stored : chain.tokens.accounts ctx.usdc_token_account ≡ some source
  pub from_wallet : source.owner ≡ ctx.agent_wallet
  pub source_associated :
      rt.associated_address ctx.agent_wallet ctx.usdc_mint ≡ ctx.usdc_token_account
  pub target_associated : rt.associated_address ctx.owner ctx.usdc_mint ≡ ctx.owner_token_account
  pub positive : 0 < amount
  pub covered : amount ≤ balance chain.tokens ctx.usdc_token_account
  pub accounts_kept : chain'.accounts ≡ chain.accounts
  pub moved : Moved chain.tokens ctx.usdc_token_account ctx.owner_token_account amount chain'.tokens

module _ (rt : Runtime) (env : Env) (chain : Chain) (ctx : WithdrawFunds) (amount : ℕ)
    {chain' : Chain} {events : List Event} (laws : TransferLaws rt)
    (done : withdraw_funds rt env chain ctx amount ≡ ok (chain', events)) where
  -- With a token program that keeps the laws of a transfer, a withdrawal that succeeds was signed by
  -- the wallet's owner, moves a positive amount from the token account that is associated with the
  -- agent's wallet and the mint, which the wallet holds and which held the amount, to the one that is
  -- associated with that owner and the mint, and changes no account of the program and no third token
  -- account.
  pub withdraw_funds_outcome : WithdrawOutcome rt env chain ctx amount chain'
  unfolding cpi_transfer_from_wallet
  withdraw_funds_outcome =
      let (a, found) = accounts_found rt env chain ctx amount done in
      let v = withdraw_accounts-Withdrawable rt env chain ctx a found in
      let (sent, same, positive, covered) = transfer_done rt env chain ctx amount done a found in
      record {
        source_wallet = a.agent_wallet;
        target = a.owner_token_account;
        stored = v.stored;
        target_stored = v.target_stored;
        signed = v.signed;
        authorised = v.authorised;
        to_owner = v.target_held;
        source = a.usdc_token_account;
        source_stored = v.source_stored;
        from_wallet = v.source_held;
        source_associated = v.source_associated;
        target_associated = v.target_associated;
        positive = positive;
        covered = ground (arith, v.source_stored);
        accounts_kept = ap (λ (c : Chain). c.accounts) same;
        moved = (laws.transfer_lem _ _ _ sent).moved;
      }

module _ (rt : Runtime) (env : Env) (chain : Chain) (ctx : WithdrawFunds) (w : AgentWallet)
    (stored : chain.accounts ctx.agent_wallet ≡ some (wallet w)) (active frozen : Bool) where
  abbrev pub restatused : Chain
  restatused = set_account ctx.agent_wallet (wallet (with_status active frozen w)) chain

  wallet_restatused : load_wallet restatused ctx.agent_wallet ≡ ok (with_status active frozen w)
  unfolding load_wallet
  wallet_restatused = rw accounts-set_account (ground arith)

  wallet_loaded : load_wallet chain ctx.agent_wallet ≡ ok w
  unfolding load_wallet
  wallet_loaded = rw stored

  accounts_restatused :
      (a : WithdrawAccounts)
      → withdraw_accounts rt env chain ctx ≡ ok a
      → withdraw_accounts rt env restatused ctx
        ≡ ok (record a { agent_wallet = with_status active frozen w })
  unfolding withdraw_accounts load_token check_mint set_account
  accounts_restatused a found = ground (arith, wallet_restatused, wallet_loaded)

  -- Whether the wallet is active or frozen makes no difference to a withdrawal: one that succeeds
  -- succeeds in every status, with the same token balances and the same events.
  pub withdraw_funds_any_status :
      (amount : ℕ) {chain' : Chain} {events : List Event}
      → withdraw_funds rt env chain ctx amount ≡ ok (chain', events)
      → withdraw_funds rt env restatused ctx amount
        ≡ ok (record restatused { tokens = chain'.tokens }, events)
  unfolding withdraw_funds set_account cpi_transfer_from_wallet
  withdraw_funds_any_status amount done =
      let (a, found) = accounts_found rt env chain ctx amount done in
      let (now, read) = clock_found rt env chain ctx amount done a found in
      let v = withdraw_accounts-Withdrawable rt env chain ctx a found in
      let same : a.agent_wallet ≡ w = cc (stored, v.stored) in
      ground (arith, accounts_restatused a found)
