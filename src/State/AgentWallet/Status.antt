-- ===== src/State/AgentWallet/Status.antt =====
-- The status flags of a wallet of programs/maxim_protocol/src/state/agent_wallet.rs.
use maxim_contracts.Common.{Bool}
use maxim_contracts.State.AgentWallet.{AgentWallet}

-- The same wallet in another status.
abbrev pub with_status : Bool → Bool → AgentWallet → AgentWallet
with_status active frozen w = record w { is_active = active; is_frozen = frozen }
