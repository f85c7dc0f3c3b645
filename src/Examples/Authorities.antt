-- ===== src/Examples/Authorities.antt =====
-- The theorems about signatures, at the states of the scenario.
use maxim_contracts.Common.{ℕ, ◌≡◌, refl, [], ◌∷◌, some, ◌==◌}
use maxim_contracts.Common.Int.{pos}
use maxim_contracts.Errors.{ok}
use maxim_contracts.Events.{payment_settled}
use maxim_contracts.Platform.{Env}
use maxim_contracts.State.AgentWallet.{AgentWallet}
use maxim_contracts.Chain.{policy, Chain, Outcome, wallet, config}
use maxim_contracts.Program.Status
use maxim_contracts.Program.Dispatch.{Instruction, execute}
use maxim_contracts.Ledger.Authority.{
  Untouched, wallet_authority, config_authority, transfer_ownership_revokes,
}
use maxim_contracts.Platform.{Seeds}
use maxim_contracts.Ledger.Policies.{policy_authority}
use maxim_contracts.Examples.Local.{local-AddressLaws, local}
use maxim_contracts.Examples.Scenario.{
  policy_key, program, admin, owner, config_key, wallet_key, at, after, funded, pay_30, paid,
}
use maxim_contracts.Examples.Settling.{paid_event, live_config, config_funded}
use maxim_contracts.Examples.Managing.{events_of}
use maxim_contracts.Examples.Ledgers.{paid_policy, policy_paid, paid_wallet, wallet_paid}

-- Only the admin signs.
abbrev admin_at : ℕ → Env
admin_at time = record { clock = ok (pos time); is_signer = λ k. k == admin }

abbrev freeze : Instruction
freeze =
    Instruction.freeze_agent
      (record { agent_wallet = wallet_key; protocol_config = config_key; admin = admin })

unfoldable frozen_paid : Chain
unfolding program paid
frozen_paid = after paid (execute local (admin_at 5_000) paid freeze)

freeze_done :
    execute local (admin_at 5_000) paid freeze
    ≡ ok (frozen_paid, events_of (execute local (admin_at 5_000) paid freeze))
unfolding frozen_paid
freeze_done = refl

wallet_authority_example : Untouched (admin_at 5_000) paid frozen_paid wallet_key paid_wallet
wallet_authority_example =
    wallet_authority local (admin_at 5_000) paid freeze wallet_key paid_wallet freeze_done
      wallet_paid refl

policy_made_for : local.create_address (Seeds.spend_policy wallet_key) 255 ≡ some policy_key
unfolding local
policy_made_for = refl

policy_authority_example : frozen_paid.accounts policy_key ≡ some (policy paid_policy)
policy_authority_example =
    policy_authority local (admin_at 5_000) paid freeze wallet_key policy_key 255 paid_wallet
      paid_policy local-AddressLaws freeze_done wallet_paid policy_paid policy_made_for refl

-- Only the owner signs.
abbrev owner_at : ℕ → Env
owner_at time = record { clock = ok (pos time); is_signer = λ k. k == owner }

pay_30_by_owner :
    execute local (owner_at 3_000) funded pay_30 ≡ ok (paid, payment_settled paid_event ∷ [])
unfolding paid
pay_30_by_owner = refl

config_authority_example : paid.accounts config_key ≡ some (config live_config)
config_authority_example =
    config_authority local (owner_at 3_000) funded pay_30 config_key live_config pay_30_by_owner
      config_funded refl

abbrev owner_ctx : Status.OwnerContext
owner_ctx = record { agent_wallet = wallet_key; owner = owner }

-- The wallet goes to the key 21.
abbrev handover : Outcome
handover = Status.transfer_ownership (at 4_000) paid owner_ctx 21

unfoldable handed : Chain
unfolding program paid
handed = after paid handover

handover_done : handover ≡ ok (handed, events_of handover)
unfolding handed
handover_done = refl

unfoldable frozen_handed : Chain
unfolding program handed
frozen_handed = after handed (execute local (at 5_000) handed freeze)

freeze-handed :
    execute local (at 5_000) handed freeze
    ≡ ok (frozen_handed, events_of (execute local (at 5_000) handed freeze))
unfolding frozen_handed
freeze-handed = refl

transfer_ownership_revokes_example :
    (w : AgentWallet) × (paid.accounts wallet_key ≡ some (wallet w))
    × Untouched (at 5_000) handed frozen_handed wallet_key (record w { owner = 21 })
transfer_ownership_revokes_example =
    transfer_ownership_revokes local (at 4_000) (at 5_000) paid owner_ctx 21 freeze handover_done
      refl freeze-handed
