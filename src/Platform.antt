-- ===== src/Platform.antt =====
-- What the program takes from Solana, SPL Token and the associated-token program. None of it is in
-- the repository, so it is a parameter: `Runtime` has one function for each call, and the laws that
-- a theorem needs are its hypotheses. Addresses are numbers; `Pubkey::default()` is 0.
pub mod Laws
use maxim_contracts.Common.{ℕ, Bool, List, Option}
use maxim_contracts.Common.Int.{ℤ}
use maxim_contracts.Errors.{Exec}

-- The seeds of a program-derived address: the `seeds = [...]` of the account contexts in lib.rs.
pub data Seeds : Type 0 where
  protocol_config : Seeds
  agent_wallet : List ℕ → Seeds  -- the bytes of the id
  spend_policy : ℕ → Seeds  -- the wallet
  payment_record : ℕ → ℕ → Seeds  -- the wallet and the sequence number

-- The fields of an SPL token account that the program reads.
pub record TokenAccount : Type 0 where
  pub mint : ℕ
  pub owner : ℕ
  pub amount : ℕ  -- u64

pub record Tokens : Type 0 where
  pub accounts : ℕ → Option TokenAccount
  pub is_mint : ℕ → Bool

-- `token::transfer` under `CpiContext::new_with_signer`.
pub record TransferCall : Type 0 where
  pub from : ℕ
  pub to : ℕ
  pub authority : ℕ
  pub signer_seeds : Seeds
  pub signer_bump : ℕ
  pub amount : ℕ

pub record Runtime : Type 0 where
  -- `Pubkey::find_program_address`: the address and its canonical bump; `none` where it panics.
  pub find_address : Seeds → Option (ℕ × ℕ)
  -- `Pubkey::create_program_address` with a bump that is given.
  pub create_address : Seeds → ℕ → Option ℕ
  -- The associated token address of an authority and a mint.
  pub associated_address : ℕ → ℕ → ℕ
  -- Paying for and allocating a new account: payer, address, space.
  pub allocate : ℕ → ℕ → ℕ → Exec (Unit {0})
  -- Creating the associated token account of an authority and a mint: payer first.
  pub create_associated : Tokens → ℕ → ℕ → ℕ → Exec Tokens
  pub transfer : Tokens → TransferCall → Exec Tokens

-- What an instruction is run with: `Clock::get()?.unix_timestamp`, and the keys that have signed.
pub record Env : Type 0 where
  pub clock : Exec ℤ
  pub is_signer : ℕ → Bool
