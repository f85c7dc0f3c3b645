-- ===== src/Examples/Ledgers.antt =====
-- The theorems about whole ledgers, at the states of the scenario.
use maxim_contracts.Common.{◌≤◌, ◌≡◌, refl, true, [], ◌∷◌, some, none, arith, update}
use maxim_contracts.Common.Int.{pos}
use maxim_contracts.Errors.{ok}
use maxim_contracts.Events.{payment_settled}
use maxim_contracts.Platform.{Seeds}
use maxim_contracts.State.AgentWallet.{AgentWallet}
use maxim_contracts.State.SpendPolicy.{SpendPolicy}
use maxim_contracts.State.PaymentRecord.{PaymentRecord, mpp}
use maxim_contracts.Chain.{account_at, Chain, wallet, policy, config, payment, set_account}
use maxim_contracts.Program.Settle
use maxim_contracts.Program.Dispatch.{execute, call, outside, IsFresh, Reach, here, next}
use maxim_contracts.Ledger.Slot.{Slot, FitsDomains}
use maxim_contracts.Ledger.Execute.{execute-Slot}
use maxim_contracts.Ledger.Wallets.{IsWellFormed, wallets-IsWellFormed}
use maxim_contracts.Ledger.Policies.{policies_fit}
use maxim_contracts.Ledger.Records.{done, then, HasEntry, records_immutable, ledger_contiguous}
use maxim_contracts.Ledger.Volume.{settled_volume, volume_audit}
use maxim_contracts.Ledger.Space.{account_len, account_space, accounts_fit}
use maxim_contracts.Ledger.Once.{
  settle_payment_once, settle_payment_after_violation, settle_payment_stuck,
}
use maxim_contracts.Ledger.Authority.{IsLive, configs-IsLive}
use maxim_contracts.Examples.Local.{local}
use maxim_contracts.Examples.Scenario.{
  program, config_key, wallet_key, policy_key, first_key, genesis, at, after, deploy, deployed,
  register, registered, set_policy, ruled, deposit, funded, settle_ctx, payment_of, pay_30, paid,
}
use maxim_contracts.Examples.Settling.{
  funded_wallet, funded_policy, paid_event, paid_done, live_config,
}
use maxim_contracts.Examples.Managing.{events_of, violation, violation_ctx, violation_done}

genesis-IsFresh : IsFresh genesis
genesis-IsFresh = record { empty = λ k. refl }

deployed_reached : Reach local deployed
unfolding program deployed
deployed_reached = next (here genesis-IsFresh) (call (at 1_000) deploy [] refl)

registered_reached : Reach local registered
unfolding program registered
registered_reached = next deployed_reached (call (at 2_000) register [] refl)

ruled_reached : Reach local ruled
unfolding program ruled
ruled_reached =
    next registered_reached
      (call (at 2_500) set_policy (events_of (execute local (at 2_500) registered set_policy)) refl)

funded_reached : Reach local funded
unfolding funded
funded_reached = next ruled_reached (outside deposit refl)

pay_30_done : execute local (at 3_000) funded pay_30 ≡ ok (paid, payment_settled paid_event ∷ [])
unfolding execute
pay_30_done = paid_done

paid_reached : Reach local paid
paid_reached =
    next funded_reached (call (at 3_000) pay_30 (payment_settled paid_event ∷ []) pay_30_done)

abbrev pub paid_wallet : AgentWallet
paid_wallet = record funded_wallet {
  daily_spend = 30;
  weekly_spend = 30;
  monthly_spend = 30;
  payment_sequence = 1;
  total_payments = 1;
  total_volume = 30;
  last_payment_at = pos 3_000;
}

pub wallet_paid : paid.accounts wallet_key ≡ some (wallet paid_wallet)
unfolding paid
wallet_paid = refl

abbrev pub paid_policy : SpendPolicy
paid_policy = record funded_policy {
  rate_limit_call_count = 1;
  rate_limit_window_start = pos 3_000;
}

pub policy_paid : paid.accounts policy_key ≡ some (policy paid_policy)
unfolding paid
policy_paid = refl

config_paid : paid.accounts config_key ≡ some (config live_config)
unfolding paid
config_paid = refl

abbrev paid_record : PaymentRecord
paid_record = record {
  agent_wallet = wallet_key;
  sequence = 0;
  endpoint_hash = 77;
  payee = 13;
  amount_usdc = 30;
  protocol = mpp;
  settled_at = pos 3_000;
  policy_passed = true;
  parent_payment = none;
  bump = 255;
  memo = none;
}

record_paid : paid.accounts first_key ≡ some (payment paid_record)
unfolding paid
record_paid = refl

execute-Slot_example : Slot local (at 3_000) funded paid wallet_key
execute-Slot_example = execute-Slot local (at 3_000) funded pay_30 pay_30_done wallet_key

wallets-IsWellFormed_example : IsWellFormed paid_wallet
wallets-IsWellFormed_example = wallets-IsWellFormed wallet_key paid_wallet paid_reached wallet_paid

ledger_contiguous_example : HasEntry local paid wallet_key 0
ledger_contiguous_example =
    ledger_contiguous wallet_key paid_wallet 0 paid_reached wallet_paid (omega arith)

volume_audit_example : 30 ≡ settled_volume local paid wallet_key 1
volume_audit_example = volume_audit wallet_key paid_wallet paid_reached wallet_paid (omega arith)

accounts_fit_example : account_len (payment paid_record) ≤ account_space (payment paid_record)
accounts_fit_example = accounts_fit first_key (payment paid_record) paid_reached record_paid

policies_fit_example : FitsDomains paid_policy
policies_fit_example = policies_fit policy_key paid_policy paid_reached policy_paid

configs-IsLive_example : IsLive live_config
configs-IsLive_example = configs-IsLive config_key live_config paid_reached config_paid

-- The token accounts as they were at the beginning.
abbrev drained : Chain
drained = record paid { tokens = genesis.tokens }

records_immutable_example : drained.accounts first_key ≡ some (payment paid_record)
records_immutable_example =
    records_immutable {rt = local} {chain = paid} first_key paid_record
      (then done (outside genesis.tokens refl)) record_paid

settle_payment_once_example : ¬ (
    Settle.settle_payment local (at 90_000) paid (settle_ctx first_key) 0 (payment_of 20)
    ≡ ok (paid, []))
settle_payment_once_example =
    settle_payment_once local (at 3_000) (at 90_000) funded (settle_ctx first_key)
      (settle_ctx first_key) 0 (payment_of 30) (payment_of 20) paid_done done refl

settle_payment_after_violation_example : ¬ (
    Settle.settle_payment local
      (at 4_000)
      (after funded violation)
      (settle_ctx first_key)
      0
      (payment_of 20)
    ≡ ok (funded, []))
settle_payment_after_violation_example =
    settle_payment_after_violation local (at 3_000) (at 4_000) funded violation_ctx
      (settle_ctx first_key) 0 (payment_of 45) (payment_of 20) 2 violation_done done refl

-- The wallet as a new registration would write it, over the record that stands.
abbrev again : Chain
again = set_account wallet_key (wallet funded_wallet) paid

wallet_again : again.accounts wallet_key ≡ some (wallet funded_wallet)
unfolding paid set_account update
wallet_again = refl

record_again :
    account_at local again (Seeds.payment_record wallet_key 0) ≡ some (payment paid_record)
unfolding paid
record_again = refl

settle_payment_stuck_example : ¬ (
    Settle.settle_payment local (at 90_000) again (settle_ctx first_key) 0 (payment_of 20)
    ≡ ok (again, []))
settle_payment_stuck_example =
    settle_payment_stuck local (at 90_000) again (settle_ctx first_key) 0 (payment_of 20)
      funded_wallet paid_record wallet_again record_again
