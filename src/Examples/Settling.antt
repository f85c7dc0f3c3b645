-- ===== src/Examples/Settling.antt =====
-- The theorems about single instructions, at the states of the scenario.
use mathlib.Core.List.{Memᴰ}
use maxim_contracts.Common.{
  ℕ, ◌+◌, ◌≡◌, refl, ◌≤◌, ◌<◌, ◌⊎◌, inl, inr, true, false, List, [], ◌∷◌, some, none, arith,
}
use maxim_contracts.Common.Int.{ℤ, pos, i64_max, ◌+ℤ◌}
use maxim_contracts.Errors.{maxim, daily_budget_exceeded, ok, err, arithmetic_overflow}
use maxim_contracts.Events.{PaymentSettled, payment_settled}
use maxim_contracts.Platform.Laws.{Moved, balance}
use maxim_contracts.State.ProtocolConfig.{ProtocolConfig}
use maxim_contracts.State.AgentWallet.{AgentWallet, reset_window, is_operational}
use maxim_contracts.State.AgentWallet.Windows.{
  WindowReset, reset_window-WindowReset, reset_window_total,
}
use maxim_contracts.State.SpendPolicy.{SpendPolicy}
use maxim_contracts.State.SpendPolicy.Limits.{Within}
use maxim_contracts.Chain.{wallet, policy, config}
use maxim_contracts.Program.Register
use maxim_contracts.Program.Policy
use maxim_contracts.Program.Settle
use maxim_contracts.Program.Settle.Enforce.{Permitted, Counted, Permitted-enforce_limits}
use maxim_contracts.Program.Settle.Contract.{
  SettlementOutcome, settle_payment_outcome, settle_payment_limits, settle_payment_rate,
  settle_payment_below, settle_payment_cap, settle_payment_transfer,
}
use maxim_contracts.Program.Status.Contract.{settle_payment_operational}
use maxim_contracts.Program.Dispatch.{Instruction, execute}
use maxim_contracts.Program.Settle.Facts.{PaidFrom}
use maxim_contracts.Program.Settle.Refuse.{Refusal, enforce_limits-Refusal}
use maxim_contracts.Examples.Local.{local, local-TransferLaws}
use maxim_contracts.Examples.Scenario.{
  program, admin, owner, agent, config_key, wallet_key, policy_key, first_key, agent_usdc,
  payee_usdc, at, after, funded, settle_ctx, payment_of, paid,
}

abbrev pub paid_event : PaymentSettled
paid_event = record {
  agent_wallet = wallet_key;
  sequence = 0;
  endpoint_hash = 77;
  payee = 13;
  amount_usdc = 30;
  protocol = 1;
  settled_at = pos 3_000;
  parent_payment = none;
  memo = none;
}

pub paid_done :
    Settle.settle_payment local (at 3_000) funded (settle_ctx first_key) 0 (payment_of 30)
    ≡ ok (paid, payment_settled paid_event ∷ [])
unfolding paid
paid_done = refl

abbrev pub funded_wallet : AgentWallet
funded_wallet = record {
  agent_id = agent;
  owner = owner;
  usdc_token_account = agent_usdc;
  daily_spend = 0;
  daily_window_start = pos 2_000;
  weekly_spend = 0;
  weekly_window_start = pos 2_000;
  monthly_spend = 0;
  monthly_window_start = pos 2_000;
  payment_sequence = 0;
  total_payments = 0;
  total_volume = 0;
  last_payment_at = pos 0;
  is_active = true;
  is_frozen = false;
  bump = 255;
}

abbrev pub funded_policy : SpendPolicy
funded_policy = record {
  agent_wallet = wallet_key;
  daily_budget = 50;
  weekly_budget = 200;
  monthly_budget = 0;
  per_call_limit = 40;
  rate_limit_calls = 5;
  rate_limit_window_secs = 60;
  rate_limit_call_count = 0;
  rate_limit_window_start = pos 2_500;
  high_value_threshold = 10;
  allowed_domain_hashes = 7 ∷ 8 ∷ [];
  blocked_domain_hashes = 9 ∷ [];
  bump = 255;
}

pub wallet_funded : funded.accounts wallet_key ≡ some (wallet funded_wallet)
unfolding funded Register.new_wallet
wallet_funded = refl

pub policy_funded : funded.accounts policy_key ≡ some (policy funded_policy)
unfolding funded Policy.new_policy
policy_funded = refl

abbrev pub live_config : ProtocolConfig
live_config = record { admin = admin; version = 2; max_single_payment_usdc = 0; bump = 255 }

pub config_funded : funded.accounts config_key ≡ some (config live_config)
unfolding funded
config_funded = refl

abbrev pay_5 : Instruction
pay_5 = Instruction.settle_payment (settle_ctx first_key) 0 (payment_of 5)

settle_payment_outcome_example :
    SettlementOutcome local
      (at 3_000)
      funded
      (settle_ctx first_key)
      0
      (payment_of 30)
      paid
      (payment_settled paid_event ∷ [])
settle_payment_outcome_example =
    settle_payment_outcome local (at 3_000) funded (settle_ctx first_key) 0 (payment_of 30)
      paid_done

settle_payment_limits_example :
    (later : AgentWallet) × (paid.accounts wallet_key ≡ some (wallet later))
    × Within 40 30
    × Within 50 later.daily_spend
    × Within 200 later.weekly_spend
    × Within 0 later.monthly_spend
    × (¬ Memᴰ {A = ℕ} 7 (9 ∷ []))
    × (◌≡◌ {A = List ℕ} (7 ∷ 8 ∷ []) [] ⊎ Memᴰ {A = ℕ} 7 (7 ∷ 8 ∷ []))
settle_payment_limits_example =
    settle_payment_limits local (at 3_000) funded (settle_ctx first_key) 0 (payment_of 30) paid_done
      funded_policy policy_funded (omega arith) (omega arith)

settle_payment_rate_example :
    (q : SpendPolicy) × (now : ℤ) × ((at 3_000).clock ≡ ok now)
    × (paid.accounts policy_key ≡ some (policy q))
    × Counted funded_policy now q
settle_payment_rate_example =
    settle_payment_rate local (at 3_000) funded (settle_ctx first_key) 0 (payment_of 30) paid_done
      funded_policy policy_funded (omega arith) (omega arith)

settle_payment_transfer_example :
    PaidFrom local funded (settle_ctx first_key)
    × (30 ≤ balance funded.tokens agent_usdc)
    × Moved funded.tokens agent_usdc payee_usdc 30 paid.tokens
settle_payment_transfer_example =
    settle_payment_transfer local (at 3_000) funded (settle_ctx first_key) 0 (payment_of 30)
      paid_done local-TransferLaws

settle_payment_cap_example : Within 0 30
settle_payment_cap_example =
    settle_payment_cap local (at 3_000) funded (settle_ctx first_key) 0 (payment_of 30) paid_done
      live_config config_funded

small_done :
    Settle.settle_payment local (at 3_000) funded (settle_ctx first_key) 0 (payment_of 5)
    ≡ ok (
      after funded (execute local (at 3_000) funded pay_5),
      payment_settled (record paid_event { amount_usdc = 5 }) ∷ [],
    )
unfolding program funded
small_done = refl

settle_payment_below_example :
    (after funded (execute local (at 3_000) funded pay_5)).accounts policy_key
    ≡ some (policy funded_policy)
settle_payment_below_example =
    settle_payment_below local (at 3_000) funded (settle_ctx first_key) 0 (payment_of 5) small_done
      funded_policy policy_funded (inr (omega arith))

settle_payment_operational_example : is_operational funded_wallet ≡ true
settle_payment_operational_example =
    settle_payment_operational local (at 3_000) funded (settle_ctx first_key) 0 (payment_of 30)
      funded_wallet wallet_funded paid_done

-- The wallet of the scenario may spend 20 more on the day of its first payment.
Permitted-20 :
    Permitted funded_policy (record funded_wallet { daily_spend = 30 }) (payment_of 20) (pos 4_000)
Permitted-20 = record {
  per_call = inr (omega arith);
  daily = inr (omega arith);
  weekly = inr (omega arith);
  monthly = inl refl;
  rate = inr (inr (omega arith));
  not_blocked = λ m. elim m [ Memᴰ.head e ↦ omega (arith, e) | Memᴰ.tail m' ↦ elim m' [ ] ];
  listed = inr (Memᴰ.head refl);
}

Permitted-enforce_limits_example :
    (q : SpendPolicy) × (Settle.enforce_limits funded_policy
        (record funded_wallet { daily_spend = 30 })
        (payment_of 20)
        (pos 4_000)
      ≡ ok q)
unfolding ◌+ℤ◌
Permitted-enforce_limits_example =
    Permitted-enforce_limits funded_policy (record funded_wallet { daily_spend = 30 })
      (payment_of 20) (pos 4_000) Permitted-20 refl

reset_done : reset_window 86_400 30 (pos 2_000) (pos 200_000) ≡ ok (0, pos 174_800)
unfolding program
reset_done = refl

reset_window-WindowReset_example : WindowReset 86_400 30 (pos 2_000) (pos 200_000) 0 (pos 174_800)
reset_window-WindowReset_example =
    reset_window-WindowReset 86_400 30 (pos 2_000) (pos 200_000) (omega arith) reset_done

reset_window_total_example :
    ((2_000 + 86_400 ≤ i64_max)
      × ((r : ℕ × ℤ) × (reset_window 86_400 30 (pos 2_000) (pos 200_000) ≡ ok r)))
    ⊎ ((i64_max < 2_000 + 86_400)
        × (reset_window 86_400 30 (pos 2_000) (pos 200_000) ≡ err arithmetic_overflow))
reset_window_total_example = reset_window_total 86_400 30 2_000 200_000 (omega arith) (omega arith)

-- After 30 on a day, another 30 is over the daily budget of 50.
enforce_limits-Refusal_example :
    Refusal funded_policy
      (record funded_wallet { daily_spend = 30 })
      (payment_of 30)
      (pos 4_000)
      (maxim daily_budget_exceeded)
unfolding program
enforce_limits-Refusal_example =
    enforce_limits-Refusal funded_policy (record funded_wallet { daily_spend = 30 }) (payment_of 30)
      (pos 4_000) (maxim daily_budget_exceeded) refl
