-- ===== src/Examples.antt =====
-- A runtime that runs, a scenario of the program over it, and the theorems at its states.
pub mod Local
pub mod Scenario
pub mod Settling
pub mod Managing
pub mod Completing
pub mod Withdrawing
pub mod Ledgers
pub mod Authorities
