-- ===== src/Errors.antt =====
-- programs/maxim_protocol/src/errors.rs, and the ways in which an instruction fails: an error code
-- of the program, a refusal by the account framework, a panic (an arithmetic overflow, or an address
-- that cannot be derived), or the error of a
-- program that it calls.
use maxim_contracts.Common.{ℕ, ◌≡◌, refl, Bool, true, false, Option, none, some, ◌⊎◌, inl, inr}

pub data MaximError : Type 0 where
  agent_id_too_long invalid_agent_id agent_not_active agent_frozen : MaximError
  unauthorized zero_payment_amount invalid_protocol : MaximError
  daily_budget_exceeded weekly_budget_exceeded monthly_budget_exceeded : MaximError
  per_call_limit_exceeded rate_limit_exceeded : MaximError
  domain_not_allowed domain_blocked domain_list_full parent_agent_mismatch : MaximError
  invalid_owner owner_unchanged insufficient_funds protocol_already_initialised : MaximError
  agent_still_active token_account_not_empty sequence_mismatch : MaximError
  global_payment_cap_exceeded : MaximError

-- The account checks that `#[derive(Accounts)]` stands for, by the check that failed.
pub data AccountError : Type 0 where
  account_not_initialized account_discriminator_mismatch account_not_signer : AccountError
  account_already_in_use constraint_seeds constraint_raw : AccountError
  constraint_token_owner constraint_associated account_did_not_serialize : AccountError

pub data Failure : Type 0 where
  maxim : MaximError → Failure
  account : AccountError → Failure
  arithmetic_overflow no_viable_address : Failure
  external : ℕ → Failure

-- `Result<T>`, with a panic as one more failure: either way the transaction is undone.
pub data Exec {ℓ} (A : Type ℓ) : Type ℓ where
  ok : A → Exec A
  err : Failure → Exec A

-- The next step gets the value; a failure ends the instruction.
abbrev pub ◌>>=◌ {ℓ κ} : {A : Type ℓ} {B : Type κ} → Exec A → (A → Exec B) → Exec B
err failure >>= next = err failure
ok value >>= next = next value

infixl 5 ◌>>=◌
-- After a check.
abbrev pub ◌>>◌ {ℓ} : {B : Type ℓ} → Exec (Unit {0}) → Exec B → Exec B
check >> next = check >>= λ _. next

infixl 5 ◌>>◌
abbrev pub ensure : Bool → Failure → Exec (Unit {0})
ensure true e = ok tt
ensure false e = err e

-- `require!(condition, error)`
abbrev pub require : Bool → MaximError → Exec (Unit {0})
require condition e = ensure condition (maxim e)

abbrev pub or_fail {ℓ} : {A : Type ℓ} → Option A → Failure → Exec A
or_fail none e = err e
or_fail (some a) e = ok a

-- The two ways a step can end.
pub Exec-cases {ℓ} :
    {A : Type ℓ} (m : Exec A) → ((e : Failure) × (m ≡ err e)) ⊎ ((a : A) × (m ≡ ok a))
Exec-cases (ok a) = inr (a, refl)
Exec-cases (err e) = inl (e, refl)
