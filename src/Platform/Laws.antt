-- ===== src/Platform/Laws.antt =====
-- What the program relies on of the code that it calls: derived addresses do not collide, and an
-- SPL token transfer that succeeds moves the amount between the two accounts and nothing else.
use maxim_contracts.Common.{List, length, ◌<◌, ℕ, ◌+◌, ◌≤◌, ◌≡◌, ◌≢◌, ◌⊎◌, Option, none, some}
use maxim_contracts.Errors.{ok}
use maxim_contracts.Platform.{Seeds, TokenAccount, Tokens, TransferCall, Runtime}

-- The amount that an address holds; an address without a token account holds nothing.
abbrev pub amount_of : Option TokenAccount → ℕ
amount_of none = 0
amount_of (some t) = t.amount

abbrev pub balance : Tokens → ℕ → ℕ
balance tokens k = amount_of (tokens.accounts k)

-- The amount left `from` and arrived at `to`, or the two are one account and nothing moved; no third
-- account changed.
pub record Moved (t : Tokens) (from to amount : ℕ) (t' : Tokens) : Type 0 where
  pub ends :
      ((from ≢ to)
        × (balance t' from + amount ≡ balance t from)
        × (balance t' to ≡ balance t to + amount))
      ⊎ ((from ≡ to) × (balance t' to ≡ balance t to))
  pub others : (k : ℕ) → (k ≡ from) ⊎ (k ≡ to) ⊎ (t'.accounts k ≡ t.accounts k)

pub record Transferred (rt : Runtime) (t : Tokens) (c : TransferCall) (t' : Tokens) : Type 0 where
  -- The seeds and the bump of the call sign for its authority.
  pub signed : rt.create_address c.signer_seeds c.signer_bump ≡ some c.authority
  pub funded : c.amount ≤ balance t c.from
  pub moved : Moved t c.from c.to c.amount t'

pub record TransferLaws (rt : Runtime) : Type 0 where
  pub transfer_lem :
      (t : Tokens) (c : TransferCall) (t' : Tokens)
      → rt.transfer t c ≡ ok t'
      → Transferred rt t c t'

pub record AddressLaws (rt : Runtime) : Type 0 where
  -- `find_program_address` gives the address that `create_program_address` gives at its bump.
  pub canonical :
      (s : Seeds) (k b : ℕ) → rt.find_address s ≡ some (k, b) → rt.create_address s b ≡ some k
  -- `MAX_SEED_LEN`: no seed of an address is longer than 32 bytes.
  pub seed_limit :
      (id : List ℕ) (b : ℕ) → 32 < length id → rt.create_address (Seeds.agent_wallet id) b ≡ none
  -- No two lists of seeds lead to one address.
  pub collision_free :
      (s s' : Seeds) (b b' k : ℕ)
      → rt.create_address s b ≡ some k
      → rt.create_address s' b' ≡ some k
      → s ≡ s'
