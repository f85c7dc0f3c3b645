-- ===== src/Program/Status/Effect.antt =====
-- The status instructions as a whole: what they read, who signed, and the chain that they leave.
use maxim_contracts.Common.{ℕ, ◌≡◌, ◌≢◌, Bool, true, false, List, some, inl, inr, arith}
use maxim_contracts.Errors.{ok, Exec-cases}
use maxim_contracts.Events.{Event}
use maxim_contracts.Platform.{Seeds, TokenAccount, Runtime, Env}
use maxim_contracts.State.ProtocolConfig.{ProtocolConfig}
use maxim_contracts.State.AgentWallet.{AgentWallet}
use maxim_contracts.State.SpendPolicy.{SpendPolicy}
use maxim_contracts.Chain.{
  Chain, wallet, policy, config, set_account, close_account, load_wallet, load_config, load_policy,
  load_token, check_mint, check_signer, check_seeds, check_associated, has_one,
}
use maxim_contracts.Program.Status.{
  OwnerContext, ProtocolManageAgent, CloseAgent, owned_wallet, managed_wallet, set_active,
  set_frozen, transfer_ownership, close_agent,
}

pub record Owned (env : Env) (chain : Chain) (ctx : OwnerContext) (w : AgentWallet) : Type 0 where
  pub stored : chain.accounts ctx.agent_wallet ≡ some (wallet w)
  pub signed : env.is_signer ctx.owner ≡ true
  pub authorised : w.owner ≡ ctx.owner

pub owned_wallet-Owned :
    (env : Env) (chain : Chain) (ctx : OwnerContext) (w : AgentWallet)
    → owned_wallet env chain ctx ≡ ok w
    → Owned env chain ctx w
unfolding owned_wallet load_wallet check_signer has_one
owned_wallet-Owned env chain ctx w h = ground arith

pub set_active_lem :
    (flag : Bool) (env : Env) (chain : Chain) (ctx : OwnerContext) {chain' : Chain}
    {events : List Event}
    → set_active flag env chain ctx ≡ ok (chain', events)
    → (w : AgentWallet) × Owned env chain ctx w
      × (chain' ≡ set_account ctx.agent_wallet (wallet (record w { is_active = flag })) chain)
unfolding set_active
set_active_lem flag env chain ctx h = elim (Exec-cases (owned_wallet env chain ctx)) [
  | inl (e, failed) ↦ absurd (ground arith)
  | inr (w, passed) ↦ (w, owned_wallet-Owned env chain ctx w passed, ground arith)
]

pub transfer_ownership_lem :
    (env : Env) (chain : Chain) (ctx : OwnerContext) (new_owner : ℕ) {chain' : Chain}
    {events : List Event}
    → transfer_ownership env chain ctx new_owner ≡ ok (chain', events)
    → (w : AgentWallet) × Owned env chain ctx w
      × (new_owner ≢ 0)
      × (new_owner ≢ w.owner)
      × (chain' ≡ set_account ctx.agent_wallet (wallet (record w { owner = new_owner })) chain)
unfolding transfer_ownership
transfer_ownership_lem env chain ctx new_owner h = elim (Exec-cases (owned_wallet env chain ctx)) [
  | inl (e, failed) ↦ absurd (ground arith)
  | inr (w, passed) ↦
      (w, owned_wallet-Owned env chain ctx w passed, ground arith, ground arith, ground arith)
]

pub record Managed (env : Env) (chain : Chain) (ctx : ProtocolManageAgent) (w : AgentWallet)
    (c : ProtocolConfig) : Type 0 where
  pub stored : chain.accounts ctx.agent_wallet ≡ some (wallet w)
  pub config_stored : chain.accounts ctx.protocol_config ≡ some (config c)
  pub signed : env.is_signer ctx.admin ≡ true
  pub authorised : c.admin ≡ ctx.admin

pub managed_wallet-Managed :
    (rt : Runtime) (env : Env) (chain : Chain) (ctx : ProtocolManageAgent) (w : AgentWallet)
    → managed_wallet rt env chain ctx ≡ ok w
    → (c : ProtocolConfig) × Managed env chain ctx w c
unfolding managed_wallet load_wallet load_config check_signer check_seeds has_one
managed_wallet-Managed rt env chain ctx w h =
    elim (Exec-cases (load_config chain ctx.protocol_config)) [
      | inl (e, failed) ↦ absurd (ground arith)
      | inr (c, found) ↦ (c, ground arith)
    ]

pub set_frozen_lem :
    (flag : Bool) (rt : Runtime) (env : Env) (chain : Chain) (ctx : ProtocolManageAgent)
    {chain' : Chain} {events : List Event}
    → set_frozen flag rt env chain ctx ≡ ok (chain', events)
    → (w : AgentWallet) × (c : ProtocolConfig) × Managed env chain ctx w c
      × (chain' ≡ set_account ctx.agent_wallet (wallet (record w { is_frozen = flag })) chain)
unfolding set_frozen
set_frozen_lem flag rt env chain ctx h = elim (Exec-cases (managed_wallet rt env chain ctx)) [
  | inl (e, failed) ↦ absurd (ground arith)
  | inr (w, passed) ↦
      let (c, managed) = managed_wallet-Managed rt env chain ctx w passed in
      (w, c, managed, ground arith)
]

-- What a closing has checked: the wallet is inactive, and the token account of the mint that the
-- caller named is empty.
pub record Closable (rt : Runtime) (env : Env) (chain : Chain) (ctx : CloseAgent) (w : AgentWallet)
    (p : SpendPolicy) (source : TokenAccount) : Type 0 where
  pub stored : chain.accounts ctx.agent_wallet ≡ some (wallet w)
  pub policy_stored : chain.accounts ctx.spend_policy ≡ some (policy p)
  pub source_stored : chain.tokens.accounts ctx.usdc_token_account ≡ some source
  pub signed : env.is_signer ctx.owner ≡ true
  pub authorised : w.owner ≡ ctx.owner
  pub inactive : w.is_active ≡ false
  pub policy_derived :
      rt.create_address (Seeds.spend_policy ctx.agent_wallet) p.bump ≡ some ctx.spend_policy
  pub associated : rt.associated_address ctx.agent_wallet ctx.usdc_mint ≡ ctx.usdc_token_account
  pub held : source.owner ≡ ctx.agent_wallet
  pub drained : source.amount ≡ 0

module _ (rt : Runtime) (env : Env) (chain : Chain) (ctx : CloseAgent) {chain' : Chain}
    {events : List Event} (closed : close_agent rt env chain ctx ≡ ok (chain', events)) where
  wallet_found : (w : AgentWallet) × (load_wallet chain ctx.agent_wallet ≡ ok w)
  unfolding close_agent
  wallet_found = elim (Exec-cases (load_wallet chain ctx.agent_wallet)) [
    | inl (e, failed) ↦ absurd (ground arith)
    | inr r ↦ r
  ]

  policy_found : (p : SpendPolicy) × (load_policy chain ctx.spend_policy ≡ ok p)
  unfolding close_agent
  policy_found = elim (Exec-cases (load_policy chain ctx.spend_policy)) [
    | inl (e, failed) ↦ absurd (ground arith)
    | inr r ↦ r
  ]

  source_found : (t : TokenAccount) × (load_token chain ctx.usdc_token_account ≡ ok t)
  unfolding close_agent
  source_found = elim (Exec-cases (load_token chain ctx.usdc_token_account)) [
    | inl (e, failed) ↦ absurd (ground arith)
    | inr r ↦ r
  ]

  -- A closing that succeeds was signed by the owner of an inactive wallet whose policy stands at its
  -- derived address and whose token account for the mint that is named is empty; it removes the
  -- wallet and the policy, and nothing else.
  pub close_agent_lem :
      (w : AgentWallet) × (p : SpendPolicy) × (source : TokenAccount) × Closable rt env chain ctx w
        p source
      × (chain' ≡ close_account ctx.spend_policy (close_account ctx.agent_wallet chain))
  unfolding close_agent load_wallet load_policy load_token check_mint check_signer check_seeds
      check_associated has_one
  close_agent_lem =
      let (w, found) = wallet_found in
      let (p, found_policy) = policy_found in
      let (source, found_source) = source_found in (w, p, source, ground arith, ground arith)
