-- ===== src/Chain.antt =====
-- The accounts that the program owns, under their addresses, and the checks that the attributes of
-- `#[derive(Accounts)]` in programs/maxim_protocol/src/lib.rs stand for.
pub mod Store
pub mod Init
use maxim_contracts.Common.{
  ℕ, Bool, true, false, Option, none, some, List, [], ◌∷◌, ◌==◌, leb, update,
}
use maxim_contracts.Errors.{
  Exec, ok, err, ◌>>=◌, ◌>>◌, ensure, require, or_fail, no_viable_address,
  account_did_not_serialize, unauthorized, account, account_not_initialized,
  account_discriminator_mismatch, account_not_signer, account_already_in_use, constraint_seeds,
  constraint_token_owner, constraint_associated,
}
use maxim_contracts.Events.{Event}
use maxim_contracts.Platform.{Seeds, TokenAccount, Tokens, Runtime, Env}
use maxim_contracts.State.ProtocolConfig.{ProtocolConfig}
use maxim_contracts.State.AgentWallet.{AgentWallet}
use maxim_contracts.State.SpendPolicy.{SpendPolicy}
use maxim_contracts.State.PaymentRecord.{PaymentRecord, serialized_len, len}

-- The discriminator of an account is its constructor.
pub data Account : Type 0 where
  config : ProtocolConfig → Account
  wallet : AgentWallet → Account
  policy : SpendPolicy → Account
  payment : PaymentRecord → Account

pub record Chain : Type 0 where
  pub accounts : ℕ → Option Account
  pub tokens : Tokens

-- A successful instruction gives the new state and the events, in order; a failed one is undone.
abbrev pub Outcome : Type 0
Outcome = Exec (Chain × List Event)

-- Writing an account back when the instruction ends.
unfoldable pub set_account : ℕ → Account → Chain → Chain
set_account k a chain = record chain { accounts = update chain.accounts k (some a) }

-- A payment record is written back into the space that `init` allocated, `PaymentRecord::LEN`.
unfoldable pub check_space : PaymentRecord → Exec (Unit {0})
check_space r = ensure (leb (serialized_len r) len) (account account_did_not_serialize)

-- The account at the address derived from the seeds.
abbrev pub derived_account : Chain → Option (ℕ × ℕ) → Option Account
derived_account chain none = none
derived_account chain (some (k, bump)) = chain.accounts k

abbrev pub account_at : Runtime → Chain → Seeds → Option Account
account_at rt chain seeds = derived_account chain (rt.find_address seeds)

-- `close = owner`
unfoldable pub close_account : ℕ → Chain → Chain
close_account k chain = record chain { accounts = update chain.accounts k none }

-- `Account<'info, T>`: the account exists and has the discriminator of `T`.
abbrev pub as_config : Option Account → Exec ProtocolConfig
as_config (some (config c)) = ok c
as_config (some other) = err (account account_discriminator_mismatch)
as_config none = err (account account_not_initialized)

abbrev pub as_wallet : Option Account → Exec AgentWallet
as_wallet (some (wallet w)) = ok w
as_wallet (some other) = err (account account_discriminator_mismatch)
as_wallet none = err (account account_not_initialized)

abbrev pub as_policy : Option Account → Exec SpendPolicy
as_policy (some (policy p)) = ok p
as_policy (some other) = err (account account_discriminator_mismatch)
as_policy none = err (account account_not_initialized)

abbrev pub as_token : Option TokenAccount → Exec TokenAccount
as_token (some t) = ok t
as_token none = err (account account_not_initialized)

unfoldable pub load_config : Chain → ℕ → Exec ProtocolConfig
load_config chain k = as_config (chain.accounts k)

unfoldable pub load_wallet : Chain → ℕ → Exec AgentWallet
load_wallet chain k = as_wallet (chain.accounts k)

unfoldable pub load_policy : Chain → ℕ → Exec SpendPolicy
load_policy chain k = as_policy (chain.accounts k)

unfoldable pub load_token : Chain → ℕ → Exec TokenAccount
load_token chain k = as_token (chain.tokens.accounts k)

-- `Account<'info, Mint>`
unfoldable pub check_mint : Chain → ℕ → Exec (Unit {0})
check_mint chain k = ensure (chain.tokens.is_mint k) (account account_not_initialized)

-- `Signer<'info>`
unfoldable pub check_signer : Env → ℕ → Exec (Unit {0})
check_signer env k = ensure (env.is_signer k) (account account_not_signer)

-- `has_one = owner @ MaximError::Unauthorized`, and the same for `admin`.
unfoldable pub has_one : ℕ → ℕ → Exec (Unit {0})
has_one field key = require (field == key) unauthorized

abbrev pub is_address : Option ℕ → ℕ → Bool
is_address none k = false
is_address (some a) k = a == k

-- `seeds = [...], bump = account.bump`
unfoldable pub check_seeds : Runtime → ℕ → Seeds → ℕ → Exec (Unit {0})
check_seeds rt k seeds bump =
    ensure (is_address (rt.create_address seeds bump) k) (account constraint_seeds)

abbrev pub is_vacant : Option Account → Bool
is_vacant none = true
is_vacant (some a) = false

-- `init, payer, space, seeds = [...], bump`: returns the canonical bump.
unfoldable pub init : Runtime → Chain → ℕ → ℕ → Seeds → ℕ → Exec ℕ
init rt chain payer k seeds space = do
  (derived, bump) ← or_fail (rt.find_address seeds) no_viable_address
  ensure (derived == k) (account constraint_seeds)
  ensure (is_vacant (chain.accounts k)) (account account_already_in_use)
  rt.allocate payer k space
  ok bump

abbrev pub allocate_or_check : Runtime → ℕ → ℕ → ℕ → Option Account → Exec (Unit {0})
allocate_or_check rt payer k space none = rt.allocate payer k space
allocate_or_check rt payer k space (some a) = as_policy (some a) >>= λ p. ok tt

-- `init_if_needed`, which only the spend policy uses.
unfoldable pub init_policy_if_needed : Runtime → Chain → ℕ → ℕ → Seeds → ℕ → Exec ℕ
init_policy_if_needed rt chain payer k seeds space = do
  (derived, bump) ← or_fail (rt.find_address seeds) no_viable_address
  ensure (derived == k) (account constraint_seeds)
  allocate_or_check rt payer k space (chain.accounts k)
  ok bump

-- `associated_token::mint = mint, associated_token::authority = authority`
unfoldable pub check_associated : Runtime → ℕ → TokenAccount → ℕ → ℕ → Exec (Unit {0})
check_associated rt k token mint authority = do
  ensure (token.owner == authority) (account constraint_token_owner)
  ensure (rt.associated_address authority mint == k) (account constraint_associated)
