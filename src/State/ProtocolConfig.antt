-- ===== src/State/ProtocolConfig.antt =====
-- programs/maxim_protocol/src/state/protocol_config.rs
use maxim_contracts.Common.{ℕ, ◌+◌}

-- `PROGRAM_VERSION`
abbrev pub program_version : ℕ
program_version = 2

pub record ProtocolConfig : Type 0 where
  pub admin : ℕ
  pub version : ℕ  -- u8
  pub max_single_payment_usdc : ℕ  -- u64, zero disables the cap
  pub bump : ℕ  -- u8

-- `ProtocolConfig::LEN`
abbrev pub len : ℕ
len = 8 + 32 + 1 + 8 + 1

-- The bytes of a configuration with its discriminator in Borsh.
abbrev pub serialized_len : ProtocolConfig → ℕ
serialized_len c = 8 + 32 + 1 + 8 + 1
