-- ===== src/Ledger/Refinement.antt =====
-- The instructions that write one account: at every address, one of the changes of `Slot`.
use native.Mathlib.Decide.{ℕ_discrete}
use maxim_contracts.Common.{ℕ, ◌≡◌, ◌≢◌, inl, inr, refl, Bool, List, some, arith, ◌≤◌, length, ap}
use maxim_contracts.Errors.{ok}
use maxim_contracts.Events.{Event}
use maxim_contracts.Platform.{Tokens, Runtime, Env}
use maxim_contracts.Chain.{Chain, Account, wallet, policy, config, set_account}
use maxim_contracts.Chain.Store.{accounts-set_account}
use maxim_contracts.Common.Int.{ℤ}
use maxim_contracts.State.AgentWallet.{AgentWallet}
use maxim_contracts.State.SpendPolicy.{max_domain_entries}
use maxim_contracts.Program.Params.{SetSpendPolicyParams}
use maxim_contracts.Program.Config
use maxim_contracts.Program.Register
use maxim_contracts.Program.Policy
use maxim_contracts.Program.Status
use maxim_contracts.Program.Config.Effect.{
  init_protocol_lem, rotate_protocol_admin_lem, update_protocol_config_lem,
}
use maxim_contracts.Program.Register.{new_wallet}
use maxim_contracts.Program.Register.Effect.{register_agent_lem}
use maxim_contracts.Program.Policy.{new_policy}
use maxim_contracts.Program.Policy.Effect.{set_spend_policy_lem}
use maxim_contracts.Program.Status.Effect.{set_active_lem, transfer_ownership_lem, set_frozen_lem}
use maxim_contracts.Ledger.Slot.{
  AdminSigned, Slot, kept, config_made, config_rotated, config_capped, wallet_made, wallet_changed,
  policy_made, policy_replaced, activated, transferred, frozen, Slot-at, FitsDomains, PolicySigned,
}

-- What is written is there.
pub set_at :
    (chain chain' : Chain) (k : ℕ) (a : Account)
    → chain' ≡ set_account k a chain
    → chain'.accounts k ≡ some a
set_at chain chain' k a e = rw (e, accounts-set_account) (ground arith)

-- Every address of a chain with one more account written, from what happened at that address.
pub written_slots :
    (rt : Runtime) (env : Env) (chain chain' : Chain) (k : ℕ) (a : Account)
    → chain' ≡ set_account k a chain
    → Slot rt env chain chain' k
    → (j : ℕ) → Slot rt env chain chain' j
written_slots rt env chain chain' k a e s j = elim (ℕ_discrete j k) [
  | yes same ↦ Slot-at rt env chain chain' same s
  | no other ↦ kept (rw (e, accounts-set_account) (ground arith))
]

-- The token balances play no part in the accounts.
set_account_tokens :
    (chain chain' : Chain) (tokens : Tokens) (k : ℕ) (a : Account)
    → chain' ≡ set_account k a (record chain { tokens = tokens })
    → record chain' { tokens = chain.tokens } ≡ set_account k a chain
unfolding set_account
set_account_tokens chain chain' tokens k a e =
    ap (λ (c : Chain). record c { tokens = chain.tokens }) e

new_policy-FitsDomains :
    (ctx : Policy.SetSpendPolicy) (params : SetSpendPolicyParams) (bump : ℕ) (now : ℤ)
    → length params.allowed_domain_hashes ≤ max_domain_entries
    → length params.blocked_domain_hashes ≤ max_domain_entries
    → FitsDomains (new_policy ctx params bump now)
unfolding new_policy
new_policy-FitsDomains ctx params bump now a b = record { allowed = a; blocked = b }

-- The instructions that write one account.
module _ (rt : Runtime) (env : Env) (chain : Chain) {chain' : Chain} {events : List Event} where
  pub init_protocol-Slot :
      (ctx : Config.InitProtocol) (admin : ℕ)
      → Config.init_protocol rt env chain ctx admin ≡ ok (chain', events)
      → (j : ℕ) → Slot rt env chain chain' j
  init_protocol-Slot ctx admin h =
      let (c, vacant, _, made, e, _) = init_protocol_lem rt env chain ctx admin h in
      let real : c.admin ≢ 0 = rw made.admin_set made.admin_real in
      written_slots rt env chain chain' ctx.protocol_config (config c) e
        (config_made c vacant real made.version_set (set_at chain chain' _ _ e))

  pub rotate_protocol_admin-Slot :
      (ctx : Config.AdminContext) (admin : ℕ)
      → Config.rotate_protocol_admin rt env chain ctx admin ≡ ok (chain', events)
      → (j : ℕ) → Slot rt env chain chain' j
  rotate_protocol_admin-Slot ctx admin h =
      let (c, a, real, e, _) = rotate_protocol_admin_lem rt env chain ctx admin h in
      written_slots rt env chain chain' ctx.protocol_config (config (record c { admin = admin })) e
        (config_rotated c admin a.stored (rw a.authorised a.signed) real
          (set_at chain chain' _ _ e))

  pub update_protocol_config-Slot :
      (ctx : Config.AdminContext) (cap : ℕ)
      → Config.update_protocol_config rt env chain ctx cap ≡ ok (chain', events)
      → (j : ℕ) → Slot rt env chain chain' j
  update_protocol_config-Slot ctx cap h =
      let (c, a, e, _) = update_protocol_config_lem rt env chain ctx cap h in
      written_slots rt env chain chain' ctx.protocol_config
        (config (record c { max_single_payment_usdc = cap })) e
        (config_capped c cap a.stored (rw a.authorised a.signed) (set_at chain chain' _ _ e))

  pub register_agent-Slot :
      (ctx : Register.RegisterAgent) (id : List ℕ)
      → Register.register_agent rt env chain ctx id ≡ ok (chain', events)
      → (j : ℕ) → Slot rt env chain chain' j
  register_agent-Slot ctx id h =
      let (bump, now, tokens, r, e, _) = register_agent_lem rt env chain ctx id h in
      let bare : Chain = record chain' { tokens = chain.tokens } in
      let e' =
        set_account_tokens chain chain' tokens ctx.agent_wallet
          (wallet (new_wallet ctx id bump now)) e in
      let at : chain'.accounts ctx.agent_wallet ≡ some (wallet (new_wallet ctx id bump now)) =
        set_at chain bare _ _ e' in
      λ j. elim (ℕ_discrete j ctx.agent_wallet) [
        | yes same ↦
            Slot-at rt env chain chain' same
              (wallet_made ctx id bump now r.vacant r.signed r.valid_id at)
        | no other ↦ kept (rw (e, accounts-set_account) (ground arith))
      ]

  pub set_spend_policy-Slot :
      (ctx : Policy.SetSpendPolicy) (params : SetSpendPolicyParams)
      → Policy.set_spend_policy rt env chain ctx params ≡ ok (chain', events)
      → (j : ℕ) → Slot rt env chain chain' j
  set_spend_policy-Slot ctx params h =
      let (w, bump, now, s, e, m) = set_spend_policy_lem rt env chain ctx params h in
      let fits = new_policy-FitsDomains ctx params bump now s.allowed_fits s.blocked_fits in
      let by_owner : PolicySigned rt env chain ctx.spend_policy = record {
        holder = ctx.agent_wallet;
        holder_wallet = w;
        bump = bump;
        stored = s.wallet_stored;
        signed = rw s.authorised s.signed;
        derived = inl s.derived;
      } in
      written_slots rt env chain chain' ctx.spend_policy (policy (new_policy ctx params bump now)) e
        (elim s.replaced [
          | inl vacant ↦
              policy_made (new_policy ctx params bump now) vacant fits by_owner
                (set_at chain chain' _ _ e)
          | inr (p, stored) ↦
              policy_replaced p (new_policy ctx params bump now) stored fits by_owner
                (set_at chain chain' _ _ e)
        ])

  pub set_active-Slot :
      (flag : Bool) (ctx : Status.OwnerContext)
      → Status.set_active flag env chain ctx ≡ ok (chain', events)
      → (j : ℕ) → Slot rt env chain chain' j
  set_active-Slot flag ctx h =
      let (w, o, e) = set_active_lem flag env chain ctx h in
      let w' : AgentWallet = record w { is_active = flag } in
      written_slots rt env chain chain' ctx.agent_wallet (wallet w') e (
        wallet_changed w w' o.stored (activated flag (rw o.authorised o.signed) refl)
          (set_at chain chain' _ _ e))

  pub transfer_ownership-Slot :
      (ctx : Status.OwnerContext) (owner : ℕ)
      → Status.transfer_ownership env chain ctx owner ≡ ok (chain', events)
      → (j : ℕ) → Slot rt env chain chain' j
  transfer_ownership-Slot ctx owner h =
      let (w, o, real, _, e) = transfer_ownership_lem env chain ctx owner h in
      let w' : AgentWallet = record w { owner = owner } in
      written_slots rt env chain chain' ctx.agent_wallet (wallet w') e (
        wallet_changed w w' o.stored (transferred owner (rw o.authorised o.signed) real refl)
          (set_at chain chain' _ _ e))

  pub set_frozen-Slot :
      (flag : Bool) (ctx : Status.ProtocolManageAgent)
      → Status.set_frozen flag rt env chain ctx ≡ ok (chain', events)
      → (j : ℕ) → Slot rt env chain chain' j
  set_frozen-Slot flag ctx h =
      let (w, c, m, e) = set_frozen_lem flag rt env chain ctx h in
      let w' : AgentWallet = record w { is_frozen = flag } in
      let signed : AdminSigned env chain = record {
        at = ctx.protocol_config;
        stored_config = c;
        stored = m.config_stored;
        signed = rw m.authorised m.signed;
      } in
      written_slots rt env chain chain' ctx.agent_wallet (wallet w') e
        (wallet_changed w w' m.stored (frozen flag signed refl) (set_at chain chain' _ _ e))
