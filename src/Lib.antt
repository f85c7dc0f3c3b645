-- ===== src/Lib.antt =====
-- The on-chain program of the Maxim Protocol (programs/maxim_protocol/src), as a model on which its
-- promises are proved.
--
-- The program is the settlement layer of a payment gateway for agents. An agent wallet is an account
-- at an address derived from the agent's id; it is the authority over a token account, and its owner
-- signs for it. A spend policy limits what the wallet pays. Every payment, and every violation that
-- the gateway reports, leaves a payment record under the wallet's next number. A protocol admin sets
-- a cap over all payments and can freeze wallets.
--
-- Where to find what:
--   Errors             errors.rs, and the result of fallible code, `Exec`
--   State/AgentWallet, State/SpendPolicy, State/PaymentRecord, State/ProtocolConfig
--                      the files of state/ with the same names: structs, constants and methods
--   Events             the `#[event]` structs of lib.rs
--   Platform           what lib.rs calls and the repository does not hold, as a parameter: derived
--                      and associated addresses, allocation, creation of token accounts, the token
--                      transfer, the clock, the signers; its laws are in Platform/Laws
--   Chain              the accounts of the program by address, and the checks that the attributes
--                      in `#[derive(Accounts)]` stand for: owner and type of an account, `has_one`,
--                      `seeds` and `bump`, `init`, `init_if_needed`, `associated_token`
--   Program/Params     the argument structs of lib.rs
--   Program/Config     init_protocol, rotate_protocol_admin, update_protocol_config
--   Program/Register   register_agent
--   Program/Policy     set_spend_policy
--   Program/Settle     settle_payment
--   Program/Violation  record_policy_violation
--   Program/Status     deactivate_agent, reactivate_agent, freeze_agent, unfreeze_agent,
--                      transfer_ownership, close_agent
--   Program/Withdraw   withdraw_funds, withdraw_all, cpi_transfer_from_wallet
--   Program/Dispatch   the instructions as one data type, their execution, and the chains that a
--                      fresh deployment leads to
--   Ledger             Slot is the specification of an account's life: the changes one address may
--                      undergo and the signatures they need. Refinement, Payments and Execute relate
--                      the instructions to it, the other modules draw the consequences
--   Examples           a runtime that runs, a scenario over it, and the theorems at its states
--
-- A handler is a function from the environment, the chain, the addresses of its account context and
-- its arguments to a new chain with the events emitted, or to a failure, which leaves the chain as it
-- was. The accounts of a context are read in the order of the struct, `init` accounts are made next,
-- then the other constraints are checked, and then the body runs; it writes its accounts at the end.
--
-- Numbers: u64 and u32 values are natural numbers, and `saturating_add` stops at the word's maximum.
-- Timestamps are i64 values, written as integers; since the release profile of Cargo.toml turns
-- overflow checks on, an i64 operation whose result is out of range fails (`arithmetic_overflow`).
-- Addresses and hashes are natural numbers, since the program only compares them; the default key is
-- 0. There is no loop in the program, and no fuel in the model.
--
-- Other programs act between the instructions: a step `outside` changes the token accounts in any
-- way. They cannot write the accounts that this program owns.
--
-- A derived address is found or not (`find_program_address` panics when no bump works or a seed is
-- above 32 bytes); `init` fails then. A payment record that is larger than `PaymentRecord::LEN` cannot
-- be written back, and the instruction fails (`check_space`). `PaymentRecord` has the field `memo`
-- that the handlers assign and the struct does not declare, while `LEN` is the source's, so a record
-- with a parent or a memo does not fit. The other accounts are written back without
-- that test, since the handlers bound their strings and lists (Ledger/Space).
--
-- Not modelled: lamports and rent, the checks of the ids of the token and system programs, the bytes
-- of the Borsh encoding, the byte encoding of seeds, log output; scripts/seed.ts,
-- migrations/deploy.ts and the build files.
pub mod Common
pub mod Errors
pub mod State
pub mod Platform
pub mod Events
pub mod Chain
pub mod Program
pub mod Ledger
pub mod Examples
