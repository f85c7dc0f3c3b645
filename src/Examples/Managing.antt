-- ===== src/Examples/Managing.antt =====
-- The theorems about registration, policies, status and violations, at the states of the
-- scenario.
use maxim_contracts.Common.{length, ◌≤◌, ℕ, ◌≡◌, refl, ◌⊎◌, true, false, List, [], some}
use maxim_contracts.Errors.{ok, err}
use maxim_contracts.Events.{Event}
use maxim_contracts.Platform.{TokenAccount}
use maxim_contracts.State.AgentWallet.{AgentWallet}
use maxim_contracts.State.SpendPolicy.{SpendPolicy}
use maxim_contracts.Chain.{Chain, Outcome, wallet, policy, close_account}
use maxim_contracts.Program.Register
use maxim_contracts.Program.Register.Contract.{
  RegistrationOutcome, register_agent_outcome, register_agent_id_limit,
}
use maxim_contracts.Program.Policy
use maxim_contracts.Program.Policy.Contract.{PolicyOutcome, set_spend_policy_outcome}
use maxim_contracts.Program.Violation
use maxim_contracts.Program.Violation.Contract.{ViolationOutcome, record_policy_violation_outcome}
use maxim_contracts.Program.Violation.Status.{restatused, record_policy_violation_any_status}
use maxim_contracts.State.AgentWallet.Status.{with_status}
use maxim_contracts.Program.Status
use maxim_contracts.Program.Status.Effect.{Closable, close_agent_lem}
use maxim_contracts.Program.Status.Contract.{reactivate-deactivate, close_agent_any_mint}
use maxim_contracts.Examples.Local.{local, local-AddressLaws}
use maxim_contracts.Examples.Scenario.{
  program, owner, usdc, scrap, agent, wallet_key, policy_key, first_key, agent_usdc, agent_scrap,
  at, after, deployed, registered, ruled, funded, payment_of, policy_params,
}
use maxim_contracts.Examples.Settling.{wallet_funded, funded_wallet, funded_policy}

-- The events that a run ends with.
abbrev pub events_of : Outcome → List Event
events_of (ok (chain, events)) = events
events_of (err e) = []

abbrev register_ctx : Register.RegisterAgent
register_ctx = record {
  agent_wallet = wallet_key;
  usdc_token_account = agent_usdc;
  usdc_mint = usdc;
  owner = owner;
}

register_done :
    Register.register_agent local (at 2_000) deployed register_ctx agent ≡ ok (registered, [])
unfolding registered
register_done = refl

register_agent_outcome_example :
    RegistrationOutcome local (at 2_000) deployed register_ctx agent registered []
register_agent_outcome_example =
    register_agent_outcome local (at 2_000) deployed register_ctx agent register_done

register_agent_id_limit_example : length agent ≤ 32
register_agent_id_limit_example =
    register_agent_id_limit local (at 2_000) deployed register_ctx agent local-AddressLaws
      register_done

abbrev policy_ctx : Policy.SetSpendPolicy
policy_ctx = record { spend_policy = policy_key; agent_wallet = wallet_key; owner = owner }

set_policy_done :
    Policy.set_spend_policy local (at 2_500) registered policy_ctx policy_params
    ≡ ok (
      ruled,
      events_of (Policy.set_spend_policy local (at 2_500) registered policy_ctx policy_params),
    )
unfolding ruled
set_policy_done = refl

set_spend_policy_outcome_example :
    PolicyOutcome local
      (at 2_500)
      registered
      policy_ctx
      policy_params
      ruled
      (events_of (Policy.set_spend_policy local (at 2_500) registered policy_ctx policy_params))
set_spend_policy_outcome_example =
    set_spend_policy_outcome local (at 2_500) registered policy_ctx policy_params set_policy_done

abbrev pub violation_ctx : Violation.RecordPolicyViolation
violation_ctx = record { payment_record = first_key; agent_wallet = wallet_key; owner = owner }

abbrev pub violation : Outcome
violation =
    Violation.record_policy_violation local (at 3_000) funded violation_ctx 0 (payment_of 45) 2

pub violation_done : violation ≡ ok (after funded violation, events_of violation)
unfolding program funded
violation_done = refl

record_policy_violation_outcome_example :
    ViolationOutcome local
      (at 3_000)
      funded
      violation_ctx
      0
      (payment_of 45)
      2
      (after funded violation)
      (events_of violation)
record_policy_violation_outcome_example =
    record_policy_violation_outcome local (at 3_000) funded violation_ctx 0 (payment_of 45) 2
      violation_done

-- The wallet deactivated and frozen.
abbrev stopped : Chain
stopped = restatused local (at 3_000) funded violation_ctx funded_wallet wallet_funded false true

record_policy_violation_any_status_example :
    (later : AgentWallet) × (last : Chain) × ((after funded violation).accounts wallet_key
      ≡ some (wallet later))
    × (Violation.record_policy_violation local (at 3_000) stopped violation_ctx 0 (payment_of 45) 2
        ≡ ok (last, events_of violation))
    × (last.accounts wallet_key ≡ some (wallet (with_status false true later)))
    × ((k : ℕ) → (k ≡ wallet_key) ⊎ (last.accounts k ≡ (after funded violation).accounts k))
record_policy_violation_any_status_example =
    record_policy_violation_any_status local (at 3_000) funded violation_ctx funded_wallet
      wallet_funded false true 0 (payment_of 45) 2 violation_done

abbrev owner_ctx : Status.OwnerContext
owner_ctx = record { agent_wallet = wallet_key; owner = owner }

abbrev deactivation : Outcome
deactivation = Status.deactivate_agent (at 3_000) funded owner_ctx

deactivation_done : deactivation ≡ ok (after funded deactivation, events_of deactivation)
unfolding program funded
deactivation_done = refl

reactivate-deactivate_example :
    (w : AgentWallet) × (last : Chain) × (events' : List Event) × (funded.accounts wallet_key
      ≡ some (wallet w))
    × (Status.reactivate_agent (at 3_000) (after funded deactivation) owner_ctx
        ≡ ok (last, events'))
    × (last.accounts wallet_key ≡ some (wallet (record w { is_active = true })))
    × ((k : ℕ) → (k ≡ wallet_key) ⊎ (last.accounts k ≡ funded.accounts k))
reactivate-deactivate_example = reactivate-deactivate (at 3_000) funded owner_ctx deactivation_done

-- The wallet still holds 100 of the currency; it is closed over another mint.
abbrev scrap_ctx : Status.CloseAgent
scrap_ctx = record {
  agent_wallet = wallet_key;
  spend_policy = policy_key;
  usdc_token_account = agent_scrap;
  usdc_mint = scrap;
  owner = owner;
}

abbrev retired_wallet : AgentWallet
retired_wallet = record funded_wallet { is_active = false }

abbrev scrap_account : TokenAccount
scrap_account = record { mint = scrap; owner = wallet_key; amount = 0 }

unfoldable pub retired : Chain
unfolding program funded
retired = after funded deactivation

wallet_retired : retired.accounts wallet_key ≡ some (wallet retired_wallet)
unfolding retired Register.new_wallet
wallet_retired = refl

policy_retired : retired.accounts policy_key ≡ some (policy funded_policy)
unfolding retired Policy.new_policy
policy_retired = refl

scrap_stored : retired.tokens.accounts agent_scrap ≡ some scrap_account
unfolding retired
scrap_stored = refl

scrap_is_mint : retired.tokens.is_mint scrap ≡ true
unfolding retired
scrap_is_mint = refl

abbrev closed : Chain
closed = close_account policy_key (close_account wallet_key retired)

close_agent_any_mint_example :
    Status.close_agent local (at 4_000) retired scrap_ctx ≡ ok (closed, [])
unfolding local
close_agent_any_mint_example =
    close_agent_any_mint local (at 4_000) retired scrap_ctx retired_wallet funded_policy
      scrap_account wallet_retired policy_retired scrap_stored scrap_is_mint refl refl refl refl
      refl refl refl

close_done : Status.close_agent local (at 4_000) retired scrap_ctx ≡ ok (closed, [])
unfolding program retired
close_done = refl

close_agent_lem_example :
    (w : AgentWallet) × (p : SpendPolicy) × (source : TokenAccount) × Closable local
      (at 4_000)
      retired
      scrap_ctx
      w
      p
      source
    × (closed ≡ close_account policy_key (close_account wallet_key retired))
close_agent_lem_example = close_agent_lem local (at 4_000) retired scrap_ctx close_done
