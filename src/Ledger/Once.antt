-- ===== src/Ledger/Once.antt =====
-- No number of a wallet is used twice.
use maxim_contracts.Common.{ℕ, ◌≡◌, List, some, ◌∙◌, ap}
use maxim_contracts.Errors.{ok}
use maxim_contracts.Events.{Event}
use maxim_contracts.Platform.{Seeds, Runtime, Env}
use maxim_contracts.State.AgentWallet.{AgentWallet}
use maxim_contracts.State.PaymentRecord.{PaymentRecord}
use maxim_contracts.Chain.{account_at, Chain, wallet, payment}
use maxim_contracts.Program.Params.{SettlePaymentParams}
use maxim_contracts.Program.Settle.{SettlePayment, settle_payment}
use maxim_contracts.Program.Settle.Effect.{settle_payment-Settled}
use maxim_contracts.Program.Settle.Contract.{settle_payment_outcome}
use maxim_contracts.Program.Violation.{RecordPolicyViolation, record_policy_violation}
use maxim_contracts.Program.Violation.Effect.{record_policy_violation_lem}
use maxim_contracts.Program.Violation.Contract.{record_policy_violation_outcome}
use maxim_contracts.Ledger.Records.{Steps, records_immutable}

-- After a settlement, and whatever steps follow it, a closing and a new registration of the wallet
-- included, no settlement of the same wallet with the same number succeeds.
pub settle_payment_once :
    (rt : Runtime) (env later : Env) (chain : Chain) (ctx again : SettlePayment) (sequence : ℕ)
    (params other : SettlePaymentParams) {middle last final : Chain} {events events' : List Event}
    → settle_payment rt env chain ctx sequence params ≡ ok (middle, events)
    → Steps rt middle last
    → again.agent_wallet ≡ ctx.agent_wallet
    → ¬ (settle_payment rt later last again sequence other ≡ ok (final, events'))
settle_payment_once rt env later chain ctx again sequence params other first steps same second =
    let o = settle_payment_outcome rt env chain ctx sequence params first in
    let s = settle_payment-Settled rt env chain ctx sequence params first in
    let t = settle_payment-Settled rt later _ again sequence other second in
    let place : again.payment_record ≡ ctx.payment_record = cc (
      ap (λ (k : ℕ). rt.find_address (Seeds.payment_record k sequence)) same,
      t.valid.record_derived,
      s.valid.record_derived,
    ) in
    cc (
      rw place at t.valid.record_vacant,
      records_immutable ctx.payment_record o.entry steps o.entry_at,
    )

-- A wallet whose next number already has a record settles no payment, with any arguments.
pub settle_payment_stuck :
    (rt : Runtime) (env : Env) (chain : Chain) (ctx : SettlePayment) (sequence : ℕ)
    (params : SettlePaymentParams) (w : AgentWallet) (r : PaymentRecord) {chain' : Chain}
    {events : List Event}
    → chain.accounts ctx.agent_wallet ≡ some (wallet w)
    → account_at rt chain (Seeds.payment_record ctx.agent_wallet w.payment_sequence)
      ≡ some (payment r)
    → ¬ (settle_payment rt env chain ctx sequence params ≡ ok (chain', events))
settle_payment_stuck rt env chain ctx sequence params w r stored filled done =
    let s = settle_payment-Settled rt env chain ctx sequence params done in
    let same : s.accounts.agent_wallet ≡ w = cc (stored, s.valid.wallet_stored) in
    let number : sequence ≡ w.payment_sequence =
      s.body.sequence_matches ∙ ap (λ (v : AgentWallet). v.payment_sequence) same in
    cc (rw (← number, s.valid.record_derived) at filled, s.valid.record_vacant)

-- After a violation is recorded, and whatever steps follow it, no settlement of the same wallet with
-- the violation's number succeeds: the record of a refused payment is never one of a settled payment.
pub settle_payment_after_violation :
    (rt : Runtime) (env later : Env) (chain : Chain) (ctx : RecordPolicyViolation)
    (again : SettlePayment) (sequence : ℕ) (params other : SettlePaymentParams) (reason : ℕ)
    {middle last final : Chain} {events events' : List Event}
    → record_policy_violation rt env chain ctx sequence params reason ≡ ok (middle, events)
    → Steps rt middle last
    → again.agent_wallet ≡ ctx.agent_wallet
    → ¬ (settle_payment rt later last again sequence other ≡ ok (final, events'))
settle_payment_after_violation rt env later chain ctx again sequence params other reason first steps
      same second =
    let o = record_policy_violation_outcome rt env chain ctx sequence params reason first in
    let (w, bump, protocol, now, v, e, m) =
      record_policy_violation_lem rt env chain ctx sequence params reason first in
    let t = settle_payment-Settled rt later _ again sequence other second in
    let place : again.payment_record ≡ ctx.payment_record = cc (
      ap (λ (k : ℕ). rt.find_address (Seeds.payment_record k sequence)) same,
      t.valid.record_derived,
      v.derived,
    ) in
    cc (
      rw place at t.valid.record_vacant,
      records_immutable ctx.payment_record o.entry steps o.entry_at,
    )
