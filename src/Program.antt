-- ===== src/Program.antt =====
-- The instructions of programs/maxim_protocol/src/lib.rs, one module for each group, and the
-- dispatch of `#[program]` as a function on a data type of calls.
pub mod Params
pub mod Config
pub mod Register
pub mod Policy
pub mod Settle
pub mod Violation
pub mod Status
pub mod Withdraw
pub mod Dispatch
