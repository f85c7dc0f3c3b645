-- ===== src/Program/Params.antt =====
-- The instruction arguments of programs/maxim_protocol/src/lib.rs.
use maxim_contracts.Common.{ℕ, List, Option}

pub record SetSpendPolicyParams : Type 0 where
  pub daily_budget : ℕ
  pub weekly_budget : ℕ
  pub per_call_limit : ℕ
  pub rate_limit_calls : ℕ
  pub rate_limit_window_secs : ℕ
  pub high_value_threshold : ℕ
  pub monthly_budget : ℕ
  pub allowed_domain_hashes : List ℕ
  pub blocked_domain_hashes : List ℕ

pub record SettlePaymentParams : Type 0 where
  pub agent_id : List ℕ
  pub endpoint_hash : ℕ
  pub domain_hash : ℕ
  pub amount_usdc : ℕ
  pub protocol : ℕ
  pub parent_payment : Option ℕ
  pub memo : Option ℕ
