-- ===== src/Program/Status/Contract.antt =====
-- What the status instructions promise: an unusable wallet pays nobody, the owner's flag can be
-- taken back, and what `close_agent` does and does not look at.
use maxim_contracts.Common.{
  ℕ, ◌≡◌, ◌⊎◌, inl, inr, Bool, true, false, List, [], ◌∷◌, some, arith, ap,
}
use maxim_contracts.Common.Int.{ℤ}
use maxim_contracts.Errors.{ok, Exec-cases}
use maxim_contracts.Events.{Event, AgentStatusChanged, agent_status_changed}
use maxim_contracts.Platform.{Seeds, TokenAccount, Runtime, Env}
use maxim_contracts.State.AgentWallet.{AgentWallet, is_operational}
use maxim_contracts.State.SpendPolicy.{SpendPolicy}
use maxim_contracts.Chain.{
  Chain, wallet, policy, set_account, close_account, load_wallet, load_policy, load_token,
  check_mint, check_signer, check_seeds, check_associated, has_one,
}
use maxim_contracts.Chain.Store.{accounts-set_account}
use maxim_contracts.Program.Params.{SettlePaymentParams}
use maxim_contracts.Program.Settle.{SettlePayment, settle_payment}
use maxim_contracts.Program.Settle.Contract.{settle_payment_outcome}
use maxim_contracts.Program.Status.{
  OwnerContext, CloseAgent, owned_wallet, set_active, deactivate_agent, reactivate_agent,
  close_agent,
}
use maxim_contracts.Program.Status.Effect.{Owned, set_active_lem}

-- No settlement succeeds on a wallet that is not operational: one that its owner has deactivated or
-- that the admin has frozen.
pub settle_payment_operational :
    (rt : Runtime) (env : Env) (chain : Chain) (ctx : SettlePayment) (sequence : ℕ)
    (params : SettlePaymentParams) {chain' : Chain} {events : List Event} (w : AgentWallet)
    → chain.accounts ctx.agent_wallet ≡ some (wallet w)
    → settle_payment rt env chain ctx sequence params ≡ ok (chain', events)
    → is_operational w ≡ true
unfolding is_operational
settle_payment_operational rt env chain ctx sequence params w stored done =
    let o = settle_payment_outcome rt env chain ctx sequence params done in
    let same : o.before ≡ w = cc (stored, o.before_at) in
    let g = o.charged.guarded in
    ground (
      arith,
      ap (λ (u : AgentWallet). u.is_active) same,
      ap (λ (u : AgentWallet). u.is_frozen) same,
      g.active,
      g.unfrozen,
    )

set_active_clock :
    (flag : Bool) (env : Env) (chain : Chain) (ctx : OwnerContext) (w : AgentWallet)
    {chain' : Chain} {events : List Event}
    → Owned env chain ctx w
    → set_active flag env chain ctx ≡ ok (chain', events)
    → (now : ℤ) × (env.clock ≡ ok now)
unfolding set_active owned_wallet load_wallet check_signer has_one
set_active_clock flag env chain ctx w o done = elim (Exec-cases env.clock) [
  | inl (e, failed) ↦ absurd (ground arith)
  | inr r ↦ r
]

set_active_runs :
    (flag : Bool) (env : Env) (chain : Chain) (ctx : OwnerContext) (w : AgentWallet) (now : ℤ)
    → Owned env chain ctx w
    → env.clock ≡ ok now
    → (events : List Event) × (set_active flag env chain ctx
        ≡ ok (set_account ctx.agent_wallet (wallet (record w { is_active = flag })) chain, events))
unfolding set_active owned_wallet load_wallet check_signer has_one
set_active_runs flag env chain ctx w now o read =
    let changed : AgentStatusChanged = record {
      agent_wallet = ctx.agent_wallet;
      agent_id = w.agent_id;
      is_active = flag;
      changed_at = now;
    } in
    (agent_status_changed changed ∷ [], ground arith)

-- A deactivation can be taken back by the same owner in the same environment: the reactivation
-- succeeds, and leaves the wallet as it was but active, so as it was if it was active, and every
-- other account as it was.
pub reactivate-deactivate :
    (env : Env) (chain : Chain) (ctx : OwnerContext) {middle : Chain} {events : List Event}
    → deactivate_agent env chain ctx ≡ ok (middle, events)
    → (w : AgentWallet) × (last : Chain) × (events' : List Event) × (chain.accounts ctx.agent_wallet
        ≡ some (wallet w))
      × (reactivate_agent env middle ctx ≡ ok (last, events'))
      × (last.accounts ctx.agent_wallet ≡ some (wallet (record w { is_active = true })))
      × ((k : ℕ) → (k ≡ ctx.agent_wallet) ⊎ (last.accounts k ≡ chain.accounts k))
unfolding deactivate_agent reactivate_agent
reactivate-deactivate env chain ctx {middle} done =
    let (w, o, e) = set_active_lem false env chain ctx done in
    let (now, read) = set_active_clock false env chain ctx w o done in
    let w' : AgentWallet = record w { is_active = false } in
    let at : middle.accounts ctx.agent_wallet ≡ some (wallet w') =
      rw (e, accounts-set_account) (ground arith) in
    let owned : Owned env middle ctx w' = record {
      stored = at;
      signed = o.signed;
      authorised = o.authorised;
    } in
    let (events', runs) = set_active_runs true env middle ctx w' now owned read in
    (
      w,
      set_account ctx.agent_wallet (wallet (record w' { is_active = true })) middle,
      events',
      o.stored,
      runs,
      rw accounts-set_account (ground arith),
      λ k. rw e (simp accounts-set_account (ground arith)),
    )

-- `close_agent` looks at no token account but the one of the mint that the caller names: an inactive
-- wallet with a policy at its derived address is closed by its owner over any mint for which the
-- wallet's token account is empty, whatever the account that the wallet was registered with holds.
pub close_agent_any_mint :
    (rt : Runtime) (env : Env) (chain : Chain) (ctx : CloseAgent) (w : AgentWallet)
    (p : SpendPolicy) (source : TokenAccount)
    → chain.accounts ctx.agent_wallet ≡ some (wallet w)
    → chain.accounts ctx.spend_policy ≡ some (policy p)
    → chain.tokens.accounts ctx.usdc_token_account ≡ some source
    → chain.tokens.is_mint ctx.usdc_mint ≡ true
    → env.is_signer ctx.owner ≡ true
    → w.owner ≡ ctx.owner
    → w.is_active ≡ false
    → rt.create_address (Seeds.spend_policy ctx.agent_wallet) p.bump ≡ some ctx.spend_policy
    → source.owner ≡ ctx.agent_wallet
    → rt.associated_address ctx.agent_wallet ctx.usdc_mint ≡ ctx.usdc_token_account
    → source.amount ≡ 0
    → close_agent rt env chain ctx
      ≡ ok (close_account ctx.spend_policy (close_account ctx.agent_wallet chain), [])
unfolding close_agent load_wallet load_policy load_token check_mint check_signer check_seeds
    check_associated has_one
close_agent_any_mint rt env chain ctx w p source a b c d e f g h i j k = ground arith
