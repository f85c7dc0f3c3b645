-- ===== src/Program/Violation.antt =====
-- `record_policy_violation` of programs/maxim_protocol/src/lib.rs and its account context.
pub mod Effect
pub mod Contract
pub mod Status
use maxim_contracts.Common.{ℕ, false, none, [], ◌∷◌, ◌==◌, saturating_add, u64_max}
use maxim_contracts.Common.Int.{ℤ}
use maxim_contracts.Errors.{
  Exec, ok, ◌>>=◌, ◌>>◌, require, or_fail, maxim, invalid_protocol, sequence_mismatch,
}
use maxim_contracts.Events.{PolicyViolationRecorded, policy_violation_recorded}
use maxim_contracts.Platform.{Seeds, Runtime, Env}
use maxim_contracts.State.AgentWallet.{AgentWallet}
use maxim_contracts.State.PaymentRecord.{PaymentProtocol, PaymentRecord, from_discriminant, len}
use maxim_contracts.Chain.{
  Chain, Outcome, wallet, payment, set_account, load_wallet, check_signer, check_seeds, has_one,
  init, check_space,
}
use maxim_contracts.Program.Params.{SettlePaymentParams}

pub record RecordPolicyViolation : Type 0 where
  pub payment_record : ℕ
  pub agent_wallet : ℕ
  pub owner : ℕ

-- What the context check hands to the body: the bump of the record that was made, and the wallet.
unfoldable pub violation_accounts :
    Runtime → Env → Chain → RecordPolicyViolation → ℕ → SettlePaymentParams → Exec (ℕ × AgentWallet)
violation_accounts rt env chain ctx sequence params = do
  w ← load_wallet chain ctx.agent_wallet
  check_signer env ctx.owner
  bump ←
      init rt chain ctx.owner ctx.payment_record (Seeds.payment_record ctx.agent_wallet sequence)
        len
  check_seeds rt ctx.agent_wallet (Seeds.agent_wallet params.agent_id) w.bump
  has_one w.owner ctx.owner
  ok (bump, w)

unfoldable pub violation_record :
    RecordPolicyViolation → ℕ → ℕ → SettlePaymentParams → PaymentProtocol → ℤ → PaymentRecord
violation_record ctx bump sequence params protocol now = record {
  agent_wallet = ctx.agent_wallet;
  sequence = sequence;
  endpoint_hash = params.endpoint_hash;
  payee = 0;
  amount_usdc = params.amount_usdc;
  protocol = protocol;
  settled_at = now;
  policy_passed = false;
  parent_payment = none;
  memo = params.memo;
  bump = bump;
}

-- The wallet counts the event; its spend, volume and windows stay.
unfoldable pub count_violation : AgentWallet → AgentWallet
count_violation w = record w {
  payment_sequence = saturating_add u64_max w.payment_sequence 1;
  total_payments = saturating_add u64_max w.total_payments 1;
}

unfoldable pub record_policy_violation :
    Runtime → Env → Chain → RecordPolicyViolation → ℕ → SettlePaymentParams → ℕ → Outcome
unfolding violation_record count_violation
record_policy_violation rt env chain ctx sequence params violation_reason = do
  (bump, w) ← violation_accounts rt env chain ctx sequence params
  protocol ← or_fail (from_discriminant params.protocol) (maxim invalid_protocol)
  require (sequence == w.payment_sequence) sequence_mismatch
  now ← env.clock
  let recorded : PolicyViolationRecorded = record {
    agent_wallet = ctx.agent_wallet;
    sequence = sequence;
    endpoint_hash = params.endpoint_hash;
    amount_usdc = params.amount_usdc;
    violation_reason = violation_reason;
  }
  check_space (violation_record ctx bump sequence params protocol now)
  ok (
    set_account ctx.agent_wallet (wallet (count_violation w)) (
        set_account ctx.payment_record
          (payment (violation_record ctx bump sequence params protocol now)) chain),
    policy_violation_recorded recorded ∷ [],
  )
