-- ===== src/Program/Settle/Effect.antt =====
-- `settle_payment` as a whole: what it reads, and the chain that it leaves.
use maxim_contracts.Common.{ℕ, ◌≡◌, ◌≢◌, ◌⊎◌, List, [], ◌∷◌, some, none, arith, inl, inr, ap}
use maxim_contracts.Errors.{ok, Exec-cases}
use maxim_contracts.Events.{Event, payment_settled}
use maxim_contracts.Platform.{Runtime, Env}
use maxim_contracts.State.AgentWallet.{AgentWallet}
use maxim_contracts.State.SpendPolicy.{SpendPolicy}
use maxim_contracts.Chain.{check_space, Chain, wallet, policy, payment}
use maxim_contracts.Chain.Store.{accounts-set_account, tokens-set_account}
use maxim_contracts.Program.Params.{SettlePaymentParams}
use maxim_contracts.Program.Settle.{
  SettlePayment, SettleAccounts, Settlement, settle_payment, settle_accounts, settle_body,
  write_settlement,
}
use maxim_contracts.Program.Settle.Facts.{
  ValidAccounts, PaidFrom, settle_accounts-PaidFrom, BodyFacts, settle_accounts-ValidAccounts,
  settle_body-BodyFacts,
}

pub record Settled (rt : Runtime) (env : Env) (chain : Chain) (ctx : SettlePayment) (sequence : ℕ)
    (params : SettlePaymentParams) (chain' : Chain) (events : List Event) : Type 0 where
  pub accounts : SettleAccounts
  pub settlement : Settlement
  pub valid : ValidAccounts rt env chain ctx sequence accounts
  pub paid_from : PaidFrom rt chain ctx
  pub body : BodyFacts rt env chain.tokens ctx accounts sequence params settlement
  pub space : check_space settlement.payment_record ≡ ok tt
  pub written : chain' ≡ write_settlement ctx settlement chain
  pub emitted : events ≡ payment_settled settlement.event ∷ []

module _ (rt : Runtime) (env : Env) (chain : Chain) (ctx : SettlePayment) (sequence : ℕ)
    (params : SettlePaymentParams) {chain' : Chain} {events : List Event}
    (settled : settle_payment rt env chain ctx sequence params ≡ ok (chain', events)) where
  accounts_read : (a : SettleAccounts) × (settle_accounts rt env chain ctx sequence params ≡ ok a)
  unfolding settle_payment
  accounts_read = elim (Exec-cases (settle_accounts rt env chain ctx sequence params)) [
    | inl (e, failed) ↦ absurd (ground arith)
    | inr r ↦ r
  ]

  body_run :
      (a : SettleAccounts)
      → settle_accounts rt env chain ctx sequence params ≡ ok a
      → (s : Settlement) × (settle_body rt env chain.tokens ctx a sequence params ≡ ok s)
  unfolding settle_payment
  body_run a read = elim (Exec-cases (settle_body rt env chain.tokens ctx a sequence params)) [
    | inl (e, failed) ↦ absurd (ground arith)
    | inr r ↦ r
  ]

  pub settle_payment-Settled : Settled rt env chain ctx sequence params chain' events
  unfolding settle_payment
  settle_payment-Settled =
      let (a, read) = accounts_read in
      let (s, run) = body_run a read in
      record {
        accounts = a;
        settlement = s;
        valid = settle_accounts-ValidAccounts rt env chain ctx sequence params a read;
        paid_from = settle_accounts-PaidFrom rt env chain ctx sequence params a read;
        body = settle_body-BodyFacts rt env chain.tokens ctx a sequence params s run;
        space = ground arith;
        written = ground arith;
        emitted = ground arith;
      }

-- The three accounts that a settlement writes stand at three addresses, and it writes no other.
pub record Written (ctx : SettlePayment) (chain : Chain) (s : Settlement) (chain' : Chain)
    : Type 0 where
  pub wallet_at : chain'.accounts ctx.agent_wallet ≡ some (wallet s.agent_wallet)
  pub policy_at : chain'.accounts ctx.spend_policy ≡ some (policy s.spend_policy)
  pub record_at : chain'.accounts ctx.payment_record ≡ some (payment s.payment_record)
  pub others :
      (k : ℕ)
      → (k ≡ ctx.agent_wallet)
        ⊎ (k ≡ ctx.spend_policy)
        ⊎ (k ≡ ctx.payment_record)
        ⊎ (chain'.accounts k ≡ chain.accounts k)
  pub tokens_at : chain'.tokens ≡ s.tokens

module _ (ctx : SettlePayment) (chain : Chain) (s : Settlement) {w : AgentWallet} {p : SpendPolicy}
    (wallet_stored : chain.accounts ctx.agent_wallet ≡ some (wallet w))
    (policy_stored : chain.accounts ctx.spend_policy ≡ some (policy p))
    (record_vacant : chain.accounts ctx.payment_record ≡ none) where
  wallet_ne_policy : ctx.agent_wallet ≢ ctx.spend_policy
  wallet_ne_policy e = cc (ap chain.accounts e)

  wallet_ne_record : ctx.agent_wallet ≢ ctx.payment_record
  wallet_ne_record e = cc (ap chain.accounts e)

  policy_ne_record : ctx.spend_policy ≢ ctx.payment_record
  policy_ne_record e = cc (ap chain.accounts e)

  pub write_settlement-Written : Written ctx chain s (write_settlement ctx s chain)
  unfolding write_settlement
  write_settlement-Written = record {
    wallet_at = simp accounts-set_account (ground (arith, wallet_ne_policy));
    policy_at = simp accounts-set_account (ground arith);
    record_at = simp accounts-set_account (ground (arith, wallet_ne_record, policy_ne_record));
    others = λ k. simp accounts-set_account (ground arith);
    tokens_at = simp tokens-set_account;
  }
