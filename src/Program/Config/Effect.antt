-- ===== src/Program/Config/Effect.antt =====
-- The configuration instructions as a whole: what they read, who signed, and the chain that they
-- leave.
use maxim_contracts.Common.{ℕ, ◌≡◌, ◌≢◌, true, List, [], some, none, inl, inr, arith}
use maxim_contracts.Errors.{ok, Exec-cases}
use maxim_contracts.Events.{Event}
use maxim_contracts.Platform.{Seeds, Runtime, Env}
use maxim_contracts.State.ProtocolConfig.{ProtocolConfig, program_version, len}
use maxim_contracts.Chain.{
  Chain, config, set_account, load_config, check_signer, check_seeds, has_one, init,
}
use maxim_contracts.Program.Config.{
  InitProtocol, AdminContext, admin_config, init_protocol, rotate_protocol_admin,
  update_protocol_config,
}

-- The configuration that `init_protocol` makes.
pub record NewConfig (rt : Runtime) (admin : ℕ) (c : ProtocolConfig) : Type 0 where
  pub admin_set : c.admin ≡ admin
  pub admin_real : admin ≢ 0
  pub version_set : c.version ≡ program_version
  pub uncapped : c.max_single_payment_usdc ≡ 0

module _ (rt : Runtime) (env : Env) (chain : Chain) (ctx : InitProtocol) (admin : ℕ)
    {chain' : Chain} {events : List Event}
    (done : init_protocol rt env chain ctx admin ≡ ok (chain', events)) where
  bump_found :
      (b : ℕ) × (init rt chain ctx.payer ctx.protocol_config Seeds.protocol_config len ≡ ok b)
  unfolding init_protocol
  bump_found =
      elim (Exec-cases (init rt chain ctx.payer ctx.protocol_config Seeds.protocol_config len)) [
        | inl (e, failed) ↦ absurd (ground arith)
        | inr r ↦ r
      ]

  pub init_protocol_lem :
      (c : ProtocolConfig) × (chain.accounts ctx.protocol_config ≡ none)
      × (rt.find_address Seeds.protocol_config ≡ some (ctx.protocol_config, c.bump))
      × NewConfig rt admin c
      × (chain' ≡ set_account ctx.protocol_config (config c) chain)
      × (events ≡ [])
  unfolding init_protocol init check_signer
  init_protocol_lem =
      let (b, made) = bump_found in
      (
        record { admin = admin; version = program_version; max_single_payment_usdc = 0; bump = b },
        ground arith,
        ground arith,
        ground arith,
        ground arith,
        ground arith,
      )

pub record Administered (rt : Runtime) (env : Env) (chain : Chain) (ctx : AdminContext)
    (c : ProtocolConfig) : Type 0 where
  pub stored : chain.accounts ctx.protocol_config ≡ some (config c)
  pub signed : env.is_signer ctx.admin ≡ true
  pub authorised : c.admin ≡ ctx.admin
  pub derived : rt.create_address Seeds.protocol_config c.bump ≡ some ctx.protocol_config

admin_config-Administered :
    (rt : Runtime) (env : Env) (chain : Chain) (ctx : AdminContext) (c : ProtocolConfig)
    → admin_config rt env chain ctx ≡ ok c
    → Administered rt env chain ctx c
unfolding admin_config load_config check_signer check_seeds has_one
admin_config-Administered rt env chain ctx c h = ground arith

pub rotate_protocol_admin_lem :
    (rt : Runtime) (env : Env) (chain : Chain) (ctx : AdminContext) (new_admin : ℕ) {chain' : Chain}
    {events : List Event}
    → rotate_protocol_admin rt env chain ctx new_admin ≡ ok (chain', events)
    → (c : ProtocolConfig) × Administered rt env chain ctx c
      × (new_admin ≢ 0)
      × (chain' ≡ set_account ctx.protocol_config (config (record c { admin = new_admin })) chain)
      × (events ≡ [])
unfolding rotate_protocol_admin
rotate_protocol_admin_lem rt env chain ctx new_admin h =
    elim (Exec-cases (admin_config rt env chain ctx)) [
      | inl (e, failed) ↦ absurd (ground arith)
      | inr (c, passed) ↦ (
        c,
        admin_config-Administered rt env chain ctx c passed,
        ground arith,
        ground arith,
        ground arith,
      )
    ]

pub update_protocol_config_lem :
    (rt : Runtime) (env : Env) (chain : Chain) (ctx : AdminContext) (cap : ℕ) {chain' : Chain}
    {events : List Event}
    → update_protocol_config rt env chain ctx cap ≡ ok (chain', events)
    → (c : ProtocolConfig) × Administered rt env chain ctx c
      × (chain'
          ≡ set_account ctx.protocol_config
              (config (record c { max_single_payment_usdc = cap }))
              chain)
      × (events ≡ [])
unfolding update_protocol_config
update_protocol_config_lem rt env chain ctx cap h =
    elim (Exec-cases (admin_config rt env chain ctx)) [
      | inl (e, failed) ↦ absurd (ground arith)
      | inr (c, passed) ↦
          (c, admin_config-Administered rt env chain ctx c passed, ground arith, ground arith)
    ]
