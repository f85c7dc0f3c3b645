-- ===== src/Program/Status.antt =====
-- `deactivate_agent`, `reactivate_agent`, `freeze_agent`, `unfreeze_agent`, `transfer_ownership`
-- and `close_agent` of programs/maxim_protocol/src/lib.rs, with their account contexts.
pub mod Effect
pub mod Contract
use maxim_contracts.Common.{ℕ, Bool, true, false, not, [], ◌∷◌, ◌==◌}
use maxim_contracts.Errors.{
  Exec, ok, ◌>>=◌, ◌>>◌, require, invalid_owner, owner_unchanged, agent_still_active,
  token_account_not_empty,
}
use maxim_contracts.Events.{
  AgentStatusChanged, AgentFreezeChanged, OwnershipTransferred, agent_status_changed,
  agent_freeze_changed, ownership_transferred,
}
use maxim_contracts.Platform.{Seeds, Runtime, Env}
use maxim_contracts.State.AgentWallet.{AgentWallet}
use maxim_contracts.Chain.{
  Chain, Outcome, wallet, set_account, close_account, load_config, load_wallet, load_policy,
  load_token, check_mint, check_signer, check_seeds, check_associated, has_one,
}

-- `ManageAgentStatus` and `TransferOwnership` have the same accounts and constraints.
pub record OwnerContext : Type 0 where
  pub agent_wallet : ℕ
  pub owner : ℕ

unfoldable pub owned_wallet : Env → Chain → OwnerContext → Exec AgentWallet
owned_wallet env chain ctx = do
  w ← load_wallet chain ctx.agent_wallet
  check_signer env ctx.owner
  has_one w.owner ctx.owner
  ok w

-- `deactivate_agent` and `reactivate_agent` differ in the flag alone.
unfoldable pub set_active : Bool → Env → Chain → OwnerContext → Outcome
unfolding owned_wallet
set_active flag env chain ctx = do
  w ← owned_wallet env chain ctx
  now ← env.clock
  let changed : AgentStatusChanged = record {
    agent_wallet = ctx.agent_wallet;
    agent_id = w.agent_id;
    is_active = flag;
    changed_at = now;
  }
  ok (
    set_account ctx.agent_wallet (wallet (record w { is_active = flag })) chain,
    agent_status_changed changed ∷ [],
  )

unfoldable pub deactivate_agent : Env → Chain → OwnerContext → Outcome
unfolding set_active
deactivate_agent env chain ctx = set_active false env chain ctx

unfoldable pub reactivate_agent : Env → Chain → OwnerContext → Outcome
unfolding set_active
reactivate_agent env chain ctx = set_active true env chain ctx

pub record ProtocolManageAgent : Type 0 where
  pub agent_wallet : ℕ
  pub protocol_config : ℕ
  pub admin : ℕ

unfoldable pub managed_wallet : Runtime → Env → Chain → ProtocolManageAgent → Exec AgentWallet
managed_wallet rt env chain ctx = do
  w ← load_wallet chain ctx.agent_wallet
  c ← load_config chain ctx.protocol_config
  check_signer env ctx.admin
  check_seeds rt ctx.protocol_config Seeds.protocol_config c.bump
  has_one c.admin ctx.admin
  ok w

-- `freeze_agent` and `unfreeze_agent` differ in the flag alone.
unfoldable pub set_frozen : Bool → Runtime → Env → Chain → ProtocolManageAgent → Outcome
unfolding managed_wallet
set_frozen flag rt env chain ctx = do
  w ← managed_wallet rt env chain ctx
  now ← env.clock
  let changed : AgentFreezeChanged = record {
    agent_wallet = ctx.agent_wallet;
    agent_id = w.agent_id;
    is_frozen = flag;
    changed_at = now;
  }
  ok (
    set_account ctx.agent_wallet (wallet (record w { is_frozen = flag })) chain,
    agent_freeze_changed changed ∷ [],
  )

unfoldable pub freeze_agent : Runtime → Env → Chain → ProtocolManageAgent → Outcome
unfolding set_frozen
freeze_agent rt env chain ctx = set_frozen true rt env chain ctx

unfoldable pub unfreeze_agent : Runtime → Env → Chain → ProtocolManageAgent → Outcome
unfolding set_frozen
unfreeze_agent rt env chain ctx = set_frozen false rt env chain ctx

unfoldable pub transfer_ownership : Env → Chain → OwnerContext → ℕ → Outcome
unfolding owned_wallet
transfer_ownership env chain ctx new_owner = do
  w ← owned_wallet env chain ctx
  require (not (new_owner == 0)) invalid_owner
  require (not (new_owner == w.owner)) owner_unchanged
  now ← env.clock
  let transferred : OwnershipTransferred = record {
    agent_wallet = ctx.agent_wallet;
    old_owner = w.owner;
    new_owner = new_owner;
    transferred_at = now;
  }
  ok (
    set_account ctx.agent_wallet (wallet (record w { owner = new_owner })) chain,
    ownership_transferred transferred ∷ [],
  )

pub record CloseAgent : Type 0 where
  pub agent_wallet : ℕ
  pub spend_policy : ℕ
  pub usdc_token_account : ℕ
  pub usdc_mint : ℕ
  pub owner : ℕ

-- The body is empty: the constraints are the checks, and `close = owner` is the effect.
unfoldable pub close_agent : Runtime → Env → Chain → CloseAgent → Outcome
close_agent rt env chain ctx = do
  w ← load_wallet chain ctx.agent_wallet
  p ← load_policy chain ctx.spend_policy
  source ← load_token chain ctx.usdc_token_account
  check_mint chain ctx.usdc_mint
  check_signer env ctx.owner
  has_one w.owner ctx.owner
  require (not w.is_active) agent_still_active
  check_seeds rt ctx.spend_policy (Seeds.spend_policy ctx.agent_wallet) p.bump
  check_associated rt ctx.usdc_token_account source ctx.usdc_mint ctx.agent_wallet
  require (source.amount == 0) token_account_not_empty
  ok (close_account ctx.spend_policy (close_account ctx.agent_wallet chain), [])
