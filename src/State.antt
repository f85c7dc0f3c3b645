-- ===== src/State.antt =====
-- The on-chain accounts (programs/maxim_protocol/src/state): one module for each file.
pub mod ProtocolConfig
pub mod AgentWallet
pub mod SpendPolicy
pub mod PaymentRecord
