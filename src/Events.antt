-- ===== src/Events.antt =====
-- The events of programs/maxim_protocol/src/lib.rs: one record for each `#[event]` struct.
use maxim_contracts.Common.{ℕ, Bool, List, Option}
use maxim_contracts.Common.Int.{ℤ}

pub record PaymentSettled : Type 0 where
  pub agent_wallet : ℕ
  pub sequence : ℕ
  pub endpoint_hash : ℕ
  pub payee : ℕ
  pub amount_usdc : ℕ
  pub protocol : ℕ
  pub settled_at : ℤ
  pub parent_payment : Option ℕ
  pub memo : Option ℕ

pub record PolicyViolationRecorded : Type 0 where
  pub agent_wallet : ℕ
  pub sequence : ℕ
  pub endpoint_hash : ℕ
  pub amount_usdc : ℕ
  pub violation_reason : ℕ

pub record AgentStatusChanged : Type 0 where
  pub agent_wallet : ℕ
  pub agent_id : List ℕ
  pub is_active : Bool
  pub changed_at : ℤ

pub record AgentFreezeChanged : Type 0 where
  pub agent_wallet : ℕ
  pub agent_id : List ℕ
  pub is_frozen : Bool
  pub changed_at : ℤ

pub record FundsWithdrawn : Type 0 where
  pub agent_wallet : ℕ
  pub to : ℕ
  pub amount_usdc : ℕ
  pub withdrawn_at : ℤ

pub record OwnershipTransferred : Type 0 where
  pub agent_wallet : ℕ
  pub old_owner : ℕ
  pub new_owner : ℕ
  pub transferred_at : ℤ

pub record SpendPolicyUpdated : Type 0 where
  pub agent_wallet : ℕ
  pub daily_budget : ℕ
  pub weekly_budget : ℕ
  pub monthly_budget : ℕ
  pub per_call_limit : ℕ
  pub high_value_threshold : ℕ
  pub updated_at : ℤ

pub data Event : Type 0 where
  payment_settled : PaymentSettled → Event
  policy_violation_recorded : PolicyViolationRecorded → Event
  agent_status_changed : AgentStatusChanged → Event
  agent_freeze_changed : AgentFreezeChanged → Event
  funds_withdrawn : FundsWithdrawn → Event
  ownership_transferred : OwnershipTransferred → Event
  spend_policy_updated : SpendPolicyUpdated → Event
