-- ===== src/Ledger.antt =====
-- The ledger as a whole: what any instruction of programs/maxim_protocol/src/lib.rs may do to the
-- account at an address, and what holds after any sequence of instructions.
pub mod Slot
pub mod Refinement
pub mod Payments
pub mod Execute
pub mod Records
pub mod Once
pub mod Volume
pub mod Space
pub mod Wallets
pub mod Policies
pub mod Authority
