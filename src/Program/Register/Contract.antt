-- ===== src/Program/Register/Contract.antt =====
-- What `register_agent` promises its callers.
use native.Mathlib.Decide.{dec_lt}
use maxim_contracts.Common.{
  ℕ, ◌≡◌, ◌≤◌, ◌⊎◌, refl, true, false, List, [], some, none, arith, length,
}
use maxim_contracts.Common.Int.{ℤ, pos}
use maxim_contracts.Errors.{ok}
use maxim_contracts.Events.{Event}
use maxim_contracts.Platform.{Seeds, Runtime, Env}
use maxim_contracts.Platform.Laws.{AddressLaws}
use maxim_contracts.State.AgentWallet.{AgentWallet}
use maxim_contracts.Chain.{Chain, wallet}
use maxim_contracts.Chain.Store.{accounts-set_account, tokens-set_account}
use maxim_contracts.Program.Register.{RegisterAgent, register_agent, new_wallet}
use maxim_contracts.Program.Register.Effect.{IsAgentId, register_agent_lem}

-- The outcome of a registration, on the chain before and after it.
pub record RegistrationOutcome (rt : Runtime) (env : Env) (chain : Chain) (ctx : RegisterAgent)
    (id : List ℕ) (chain' : Chain) (events : List Event) : Type 0 where
  pub after : AgentWallet
  pub now : ℤ
  pub clock : env.clock ≡ ok now
  pub signed : env.is_signer ctx.owner ≡ true
  pub valid_id : IsAgentId id
  pub vacant : chain.accounts ctx.agent_wallet ≡ none
  pub derived : rt.find_address (Seeds.agent_wallet id) ≡ some (ctx.agent_wallet, after.bump)
  pub associated : rt.associated_address ctx.agent_wallet ctx.usdc_mint ≡ ctx.usdc_token_account
  pub token_account_made :
      rt.create_associated chain.tokens ctx.owner ctx.agent_wallet ctx.usdc_mint ≡ ok chain'.tokens
  pub after_at : chain'.accounts ctx.agent_wallet ≡ some (wallet after)
  pub named : after.agent_id ≡ id
  pub owned : after.owner ≡ ctx.owner
  pub paying_from : after.usdc_token_account ≡ ctx.usdc_token_account
  pub unspent_day : after.daily_spend ≡ 0
  pub unspent_week : after.weekly_spend ≡ 0
  pub unspent_month : after.monthly_spend ≡ 0
  pub day_starts : after.daily_window_start ≡ now
  pub week_starts : after.weekly_window_start ≡ now
  pub month_starts : after.monthly_window_start ≡ now
  pub first_number : after.payment_sequence ≡ 0
  pub no_payments : after.total_payments ≡ 0
  pub no_volume : after.total_volume ≡ 0
  pub never_paid : after.last_payment_at ≡ pos 0
  pub active : after.is_active ≡ true
  pub unfrozen : after.is_frozen ≡ false
  pub others : (k : ℕ) → (k ≡ ctx.agent_wallet) ⊎ (chain'.accounts k ≡ chain.accounts k)
  pub silent : events ≡ []

-- A registration that succeeds was signed by the owner and has a valid id, of 1 to 64 bytes of the
-- alphabet. It fills the vacant address derived for the id with a wallet of that id and owner that
-- pays from the associated token account, which it has created; the wallet is active and not frozen,
-- its spends, counters and volume are zero, its windows start at the present, and it has not paid
-- yet. No other account of the program changes, and no event is emitted.
pub register_agent_outcome :
    (rt : Runtime) (env : Env) (chain : Chain) (ctx : RegisterAgent) (id : List ℕ) {chain' : Chain}
    {events : List Event}
    → register_agent rt env chain ctx id ≡ ok (chain', events)
    → RegistrationOutcome rt env chain ctx id chain' events
unfolding new_wallet
register_agent_outcome rt env chain ctx id done =
    let (bump, now, tokens, r, e, silent) = register_agent_lem rt env chain ctx id done in
    record {
      after = new_wallet ctx id bump now;
      now = now;
      clock = r.clock;
      signed = r.signed;
      valid_id = r.valid_id;
      vacant = r.vacant;
      derived = r.derived;
      associated = r.associated;
      token_account_made = rw e (simp tokens-set_account r.token_account_made);
      after_at = rw e (simp accounts-set_account (ground arith));
      named = refl;
      owned = refl;
      paying_from = refl;
      unspent_day = refl;
      unspent_week = refl;
      unspent_month = refl;
      day_starts = refl;
      week_starts = refl;
      month_starts = refl;
      first_number = refl;
      no_payments = refl;
      no_volume = refl;
      never_paid = refl;
      active = refl;
      unfrozen = refl;
      others = λ k. rw e (simp accounts-set_account (ground arith));
      silent = silent;
    }

-- Since the id is a seed of the wallet's address, and a runtime that keeps the laws of addresses
-- derives none from a seed above 32 bytes, no registration of an id above 32 bytes succeeds, though
-- the program allows 64.
pub register_agent_id_limit :
    (rt : Runtime) (env : Env) (chain : Chain) (ctx : RegisterAgent) (id : List ℕ) {chain' : Chain}
    {events : List Event}
    → AddressLaws rt
    → register_agent rt env chain ctx id ≡ ok (chain', events)
    → length id ≤ 32
register_agent_id_limit rt env chain ctx id laws done =
    let (bump, now, tokens, r, e, silent) = register_agent_lem rt env chain ctx id done in
    let created = laws.canonical (Seeds.agent_wallet id) ctx.agent_wallet bump r.derived in
    elim (dec_lt 32 (length id)) [
      | yes long ↦ cc (created, laws.seed_limit id bump long)
      | no short ↦ omega (arith, short)
    ]
