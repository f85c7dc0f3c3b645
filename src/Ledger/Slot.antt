-- ===== src/Ledger/Slot.antt =====
-- The life of an account, without reference to the instructions: the changes that may happen at one
-- address, and whose signature each needs.
use maxim_contracts.Common.{
  ◌⊎◌, if◌then◌else◌, ℕ, ◌≡◌, ◌≢◌, ◌≤◌, Bool, true, false, none, some, List, length, subst, sym,
}
use maxim_contracts.Common.Int.{ℤ}
use maxim_contracts.Errors.{ok}
use maxim_contracts.Platform.{Seeds, Runtime, Env}
use maxim_contracts.State.ProtocolConfig.{ProtocolConfig, program_version}
use maxim_contracts.State.AgentWallet.{AgentWallet}
use maxim_contracts.State.SpendPolicy.{SpendPolicy, max_domain_entries}
use maxim_contracts.State.PaymentRecord.{PaymentRecord}
use maxim_contracts.Chain.{account_at, check_space, Chain, config, wallet, policy, payment}
use maxim_contracts.Program.Register.{RegisterAgent, new_wallet}
use maxim_contracts.Program.Register.Effect.{IsAgentId}
use maxim_contracts.Program.Violation.{count_violation}
use maxim_contracts.Program.Settle.Charge.{Charged}

-- A key that an `admin` field of a stored configuration names has signed.
pub record AdminSigned (env : Env) (chain : Chain) : Type 0 where
  pub at : ℕ
  pub stored_config : ProtocolConfig
  pub stored : chain.accounts at ≡ some (config stored_config)
  pub signed : env.is_signer stored_config.admin ≡ true

-- What a record adds to the volume of its wallet: its amount, if it is not of a violation.
abbrev pub settled_amount : PaymentRecord → ℕ
settled_amount r = if r.policy_passed then r.amount_usdc else 0

-- The record of the wallet at `k` with the number `n` stands at the address derived for it, and adds
-- `settled` to the volume.
pub record Entry (rt : Runtime) (chain : Chain) (k n settled : ℕ) : Type 0 where
  pub entry : PaymentRecord
  pub at : account_at rt chain (Seeds.payment_record k n) ≡ some (payment entry)
  pub of_wallet : entry.agent_wallet ≡ k
  pub numbered : entry.sequence ≡ n
  pub settles : settled_amount entry ≡ settled

-- The changes of the wallet at `k`, from `w` to `w'`. The two that count an event come with the
-- record that the event leaves.
pub data WalletStep (rt : Runtime) (env : Env) (chain chain' : Chain) (k : ℕ) (w w' : AgentWallet)
    : Type 0 where
  charged :
      (amount : ℕ) (now : ℤ)
      → env.is_signer w.owner ≡ true
      → Charged w amount now w'
      → Entry rt chain' k w.payment_sequence amount
      → WalletStep rt env chain chain' k w w'
  counted :
      env.is_signer w.owner ≡ true
      → w' ≡ count_violation w
      → Entry rt chain' k w.payment_sequence 0
      → WalletStep rt env chain chain' k w w'
  activated :
      (flag : Bool)
      → env.is_signer w.owner ≡ true
      → w' ≡ record w { is_active = flag }
      → WalletStep rt env chain chain' k w w'
  transferred :
      (owner : ℕ)
      → env.is_signer w.owner ≡ true
      → owner ≢ 0
      → w' ≡ record w { owner = owner }
      → WalletStep rt env chain chain' k w w'
  frozen :
      (flag : Bool)
      → AdminSigned env chain
      → w' ≡ record w { is_frozen = flag }
      → WalletStep rt env chain chain' k w w'

-- No more domains on either list than the account has room for.
pub record FitsDomains (p : SpendPolicy) : Type 0 where
  pub allowed : length p.allowed_domain_hashes ≤ max_domain_entries
  pub blocked : length p.blocked_domain_hashes ≤ max_domain_entries

-- The limits and lists of a policy are those of another.
abbrev pub SameLimits : SpendPolicy → SpendPolicy → Type 0
SameLimits p q = q ≡ record p {
  rate_limit_call_count = q.rate_limit_call_count;
  rate_limit_window_start = q.rate_limit_window_start;
}

-- The owner of the wallet that the policy at `k` is derived from has signed.
pub record PolicySigned (rt : Runtime) (env : Env) (chain : Chain) (k : ℕ) : Type 0 where
  pub holder : ℕ
  pub holder_wallet : AgentWallet
  pub bump : ℕ
  pub stored : chain.accounts holder ≡ some (wallet holder_wallet)
  pub signed : env.is_signer holder_wallet.owner ≡ true
  pub derived :
      (rt.find_address (Seeds.spend_policy holder) ≡ some (k, bump))
      ⊎ (rt.create_address (Seeds.spend_policy holder) bump ≡ some k)

-- The changes at one address.
pub data Slot (rt : Runtime) (env : Env) (chain chain' : Chain) (k : ℕ) : Type 0 where
  kept : chain'.accounts k ≡ chain.accounts k → Slot rt env chain chain' k
  config_made :
      (c : ProtocolConfig)
      → chain.accounts k ≡ none
      → c.admin ≢ 0
      → c.version ≡ program_version
      → chain'.accounts k ≡ some (config c)
      → Slot rt env chain chain' k
  config_rotated :
      (c : ProtocolConfig) (admin : ℕ)
      → chain.accounts k ≡ some (config c)
      → env.is_signer c.admin ≡ true
      → admin ≢ 0
      → chain'.accounts k ≡ some (config (record c { admin = admin }))
      → Slot rt env chain chain' k
  config_capped :
      (c : ProtocolConfig) (cap : ℕ)
      → chain.accounts k ≡ some (config c)
      → env.is_signer c.admin ≡ true
      → chain'.accounts k ≡ some (config (record c { max_single_payment_usdc = cap }))
      → Slot rt env chain chain' k
  wallet_made :
      (ctx : RegisterAgent) (id : List ℕ) (bump : ℕ) (now : ℤ)
      → chain.accounts k ≡ none
      → env.is_signer ctx.owner ≡ true
      → IsAgentId id
      → chain'.accounts k ≡ some (wallet (new_wallet ctx id bump now))
      → Slot rt env chain chain' k
  wallet_changed :
      (w w' : AgentWallet)
      → chain.accounts k ≡ some (wallet w)
      → WalletStep rt env chain chain' k w w'
      → chain'.accounts k ≡ some (wallet w')
      → Slot rt env chain chain' k
  wallet_closed :
      (w : AgentWallet)
      → chain.accounts k ≡ some (wallet w)
      → env.is_signer w.owner ≡ true
      → w.is_active ≡ false
      → chain'.accounts k ≡ none
      → Slot rt env chain chain' k
  policy_made :
      (p : SpendPolicy)
      → chain.accounts k ≡ none
      → FitsDomains p
      → PolicySigned rt env chain k
      → chain'.accounts k ≡ some (policy p)
      → Slot rt env chain chain' k
  policy_replaced :
      (p q : SpendPolicy)
      → chain.accounts k ≡ some (policy p)
      → FitsDomains q
      → PolicySigned rt env chain k
      → chain'.accounts k ≡ some (policy q)
      → Slot rt env chain chain' k
  policy_counted :
      (p q : SpendPolicy)
      → chain.accounts k ≡ some (policy p)
      → SameLimits p q
      → PolicySigned rt env chain k
      → chain'.accounts k ≡ some (policy q)
      → Slot rt env chain chain' k
  policy_closed :
      (p : SpendPolicy)
      → chain.accounts k ≡ some (policy p)
      → PolicySigned rt env chain k
      → chain'.accounts k ≡ none
      → Slot rt env chain chain' k
  payment_made :
      (r : PaymentRecord)
      → chain.accounts k ≡ none
      → check_space r ≡ ok tt
      → chain'.accounts k ≡ some (payment r)
      → Slot rt env chain chain' k

-- What is known at an address is known at an equal one.
pub Slot-at :
    (rt : Runtime) (env : Env) (chain chain' : Chain) {j k : ℕ}
    → j ≡ k
    → Slot rt env chain chain' k
    → Slot rt env chain chain' j
Slot-at rt env chain chain' e s = subst (Slot rt env chain chain') (sym e) s
