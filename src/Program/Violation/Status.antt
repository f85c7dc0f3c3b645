-- ===== src/Program/Violation/Status.antt =====
-- `record_policy_violation` does not depend on the status of the wallet.
use maxim_contracts.Common.{ℕ, ◌≡◌, ◌≢◌, ◌⊎◌, Bool, List, some, none, arith, ap}
use maxim_contracts.Errors.{ok}
use maxim_contracts.Events.{Event}
use maxim_contracts.Platform.{Seeds, Runtime, Env}
use maxim_contracts.State.AgentWallet.{AgentWallet}
use maxim_contracts.State.AgentWallet.Status.{with_status}
use maxim_contracts.State.PaymentRecord.{len}
use maxim_contracts.Chain.{Chain, wallet, payment, set_account, load_wallet, init}
use maxim_contracts.Chain.Store.{accounts-set_account}
use maxim_contracts.Chain.Init.{init_local}
use maxim_contracts.Program.Params.{SettlePaymentParams}
use maxim_contracts.Program.Violation.{
  RecordPolicyViolation, record_policy_violation, violation_accounts, violation_record,
  count_violation,
}
use maxim_contracts.Program.Violation.Effect.{record_policy_violation_lem}

module _ (rt : Runtime) (env : Env) (chain : Chain) (ctx : RecordPolicyViolation) (w : AgentWallet)
    (stored : chain.accounts ctx.agent_wallet ≡ some (wallet w)) (active frozen : Bool) where
  abbrev pub restatused : Chain
  restatused = set_account ctx.agent_wallet (wallet (with_status active frozen w)) chain

  wallet_restatused : load_wallet restatused ctx.agent_wallet ≡ ok (with_status active frozen w)
  unfolding load_wallet
  wallet_restatused = rw accounts-set_account (ground arith)

  wallet_loaded : load_wallet chain ctx.agent_wallet ≡ ok w
  unfolding load_wallet
  wallet_loaded = rw stored

  init-restatused :
      (sequence : ℕ)
      → chain.accounts ctx.payment_record ≡ none
      → init rt restatused ctx.owner ctx.payment_record
          (Seeds.payment_record ctx.agent_wallet sequence)
          len
        ≡ init rt chain ctx.owner ctx.payment_record
            (Seeds.payment_record ctx.agent_wallet sequence)
            len
  init-restatused sequence vacant =
      let apart : ctx.agent_wallet ≢ ctx.payment_record =
        λ same. cc (ap chain.accounts same, stored, vacant) in
      init_local rt chain restatused ctx.owner ctx.payment_record
        (Seeds.payment_record ctx.agent_wallet sequence) len
        (rw accounts-set_account (ground (arith, apart)))

  accounts_restatused :
      (sequence : ℕ) (params : SettlePaymentParams) (bump : ℕ)
      → chain.accounts ctx.payment_record ≡ none
      → violation_accounts rt env chain ctx sequence params ≡ ok (bump, w)
      → violation_accounts rt env restatused ctx sequence params
        ≡ ok (bump, with_status active frozen w)
  unfolding violation_accounts
  accounts_restatused sequence params bump vacant found =
      ground (arith, wallet_restatused, wallet_loaded, init-restatused sequence vacant)

  -- Whether the wallet is active or frozen makes no difference to the record of a violation: one that
  -- succeeds succeeds in every status, with the same events and the same accounts but for the status
  -- flags of the wallet, which stay as they are.
  pub record_policy_violation_any_status :
      (sequence : ℕ) (params : SettlePaymentParams) (reason : ℕ) {chain' : Chain}
      {events : List Event}
      → record_policy_violation rt env chain ctx sequence params reason ≡ ok (chain', events)
      → (after : AgentWallet) × (last : Chain) × (chain'.accounts ctx.agent_wallet
          ≡ some (wallet after))
        × (record_policy_violation rt env restatused ctx sequence params reason ≡ ok (last, events))
        × (last.accounts ctx.agent_wallet ≡ some (wallet (with_status active frozen after)))
        × ((k : ℕ) → (k ≡ ctx.agent_wallet) ⊎ (last.accounts k ≡ chain'.accounts k))
  unfolding record_policy_violation count_violation
  record_policy_violation_any_status sequence params reason done =
      let (v, bump, protocol, now, o, e, m) =
        record_policy_violation_lem rt env chain ctx sequence params reason done in
      let same : v ≡ w = cc (o.stored, stored) in
      (
        count_violation w,
        set_account ctx.agent_wallet (wallet (with_status active frozen (count_violation w))) (
            set_account ctx.payment_record
              (payment (violation_record ctx bump sequence params protocol now)) restatused),
        rw (e, same, accounts-set_account) (ground arith),
        ground (
          arith,
          accounts_restatused sequence params bump o.vacant (rw same at o.accounts),
          o.known,
          o.clock,
          o.numbered,
          o.space,
          m,
          ap (λ (u : AgentWallet). u.payment_sequence) same,
        ),
        rw accounts-set_account (ground arith),
        λ k. rw e (simp accounts-set_account (ground arith)),
      )
