-- ===== src/State/PaymentRecord.antt =====
-- programs/maxim_protocol/src/state/payment_record.rs
use Prim.Native.Nat.{zero, suc}
use maxim_contracts.Common.{ℕ, ◌+◌, Bool, not, Option, none, some, is_some}
use maxim_contracts.Common.Int.{ℤ}

pub data PaymentProtocol : Type 0 where
  x402 mpp : PaymentProtocol

-- `PaymentProtocol::from_discriminant`
unfoldable pub from_discriminant : ℕ → Option PaymentProtocol
from_discriminant zero = some x402
from_discriminant (suc zero) = some mpp
from_discriminant (suc (suc v)) = none

-- The struct, with the field `memo` that both handlers assign (lib.rs, 477 and 538) and the struct
-- does not declare. `LEN` is the source's, which has no room for it.
pub record PaymentRecord : Type 0 where
  pub agent_wallet : ℕ
  pub sequence : ℕ  -- u64
  pub endpoint_hash : ℕ
  pub payee : ℕ
  pub amount_usdc : ℕ  -- u64
  pub protocol : PaymentProtocol
  pub settled_at : ℤ  -- i64
  pub policy_passed : Bool
  pub parent_payment : Option ℕ
  pub memo : Option ℕ
  pub bump : ℕ  -- u8

-- `PaymentRecord::LEN`
abbrev pub len : ℕ
len = 8 + 32 + 8 + 32 + 32 + 8 + 1 + 8 + 1 + 1 + 32 + 1

-- An option is one byte, and the 32 bytes of a key or a hash when it is set.
abbrev pub option_len : Option ℕ → ℕ
option_len none = 1
option_len (some a) = 1 + 32

-- The bytes of a record with its discriminator in Borsh, the encoding that
-- `#[derive(AnchorSerialize)]` stands for.
abbrev pub serialized_len : PaymentRecord → ℕ
serialized_len r =
    8 + 32 + 8 + 32 + 32 + 8 + 1 + 8 + 1 + option_len r.parent_payment + option_len r.memo + 1

-- `PaymentRecord::is_violation`
unfoldable pub is_violation : PaymentRecord → Bool
is_violation r = not r.policy_passed

-- `PaymentRecord::is_chained`
unfoldable pub is_chained : PaymentRecord → Bool
is_chained r = is_some r.parent_payment
