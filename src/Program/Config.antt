-- ===== src/Program/Config.antt =====
-- `init_protocol`, `rotate_protocol_admin` and `update_protocol_config` of
-- programs/maxim_protocol/src/lib.rs, with their account contexts.
pub mod Effect
use maxim_contracts.Common.{ℕ, not, [], ◌==◌}
use maxim_contracts.Errors.{ok, Exec, ◌>>=◌, ◌>>◌, require, invalid_owner}
use maxim_contracts.Platform.{Seeds, Runtime, Env}
use maxim_contracts.State.ProtocolConfig.{ProtocolConfig, program_version, len}
use maxim_contracts.Chain.{
  Chain, Outcome, config, set_account, load_config, check_signer, check_seeds, has_one, init,
}

pub record InitProtocol : Type 0 where
  pub protocol_config : ℕ
  pub payer : ℕ

unfoldable pub init_protocol : Runtime → Env → Chain → InitProtocol → ℕ → Outcome
init_protocol rt env chain ctx admin = do
  check_signer env ctx.payer
  bump ← init rt chain ctx.payer ctx.protocol_config Seeds.protocol_config len
  require (not (admin == 0)) invalid_owner
  let c : ProtocolConfig = record {
    admin = admin;
    version = program_version;
    max_single_payment_usdc = 0;
    bump = bump;
  }
  ok (set_account ctx.protocol_config (config c) chain, [])

-- `RotateProtocolAdmin` and `UpdateProtocolConfig` have the same accounts and constraints.
pub record AdminContext : Type 0 where
  pub protocol_config : ℕ
  pub admin : ℕ

unfoldable pub admin_config : Runtime → Env → Chain → AdminContext → Exec ProtocolConfig
admin_config rt env chain ctx = do
  c ← load_config chain ctx.protocol_config
  check_signer env ctx.admin
  check_seeds rt ctx.protocol_config Seeds.protocol_config c.bump
  has_one c.admin ctx.admin
  ok c

unfoldable pub rotate_protocol_admin : Runtime → Env → Chain → AdminContext → ℕ → Outcome
unfolding admin_config
rotate_protocol_admin rt env chain ctx new_admin = do
  c ← admin_config rt env chain ctx
  require (not (new_admin == 0)) invalid_owner
  ok (set_account ctx.protocol_config (config (record c { admin = new_admin })) chain, [])

unfoldable pub update_protocol_config : Runtime → Env → Chain → AdminContext → ℕ → Outcome
unfolding admin_config
update_protocol_config rt env chain ctx cap = do
  c ← admin_config rt env chain ctx
  let c' = record c { max_single_payment_usdc = cap }
  ok (set_account ctx.protocol_config (config c') chain, [])
