-- ===== src/Ledger/Payments.antt =====
-- The instructions that write several accounts or none: at every address, one of the changes of
-- `Slot`.
use native.Mathlib.Decide.{ℕ_discrete}
use maxim_contracts.Common.{ℕ, ◌≡◌, ◌≢◌, inl, inr, refl, List, some, arith, ap, sym, subst, ◌∙◌}
use maxim_contracts.Common.Int.{ℤ}
use maxim_contracts.Errors.{ok}
use maxim_contracts.Events.{Event}
use maxim_contracts.Platform.{Seeds, Runtime, Env}
use maxim_contracts.State.PaymentRecord.{PaymentProtocol}
use maxim_contracts.Chain.{Chain, payment}
use maxim_contracts.Chain.Store.{accounts-set_account, accounts-close_account}
use maxim_contracts.Program.Params.{SettlePaymentParams}
use maxim_contracts.Program.Settle
use maxim_contracts.Program.Settle.Enforce.{enforce_policy_kept}
use maxim_contracts.Program.Settle.Effect.{
  Written, settle_payment-Settled, write_settlement-Written,
}
use maxim_contracts.Program.Settle.Contract.{settle_payment_outcome}
use maxim_contracts.Program.Violation
use maxim_contracts.Program.Violation.Effect.{record_policy_violation_lem}
use maxim_contracts.Program.Status
use maxim_contracts.Program.Status.Effect.{close_agent_lem}
use maxim_contracts.Ledger.Slot.{
  Entry, Slot, kept, wallet_changed, wallet_closed, policy_counted, policy_closed, payment_made,
  charged, counted, Slot-at, PolicySigned,
}

violation-Entry :
    (rt : Runtime) (chain' : Chain) (ctx : Violation.RecordPolicyViolation) (bump sequence : ℕ)
    (params : SettlePaymentParams) (protocol : PaymentProtocol) (now : ℤ) (n : ℕ)
    → sequence ≡ n
    → rt.find_address (Seeds.payment_record ctx.agent_wallet sequence)
      ≡ some (ctx.payment_record, bump)
    → chain'.accounts ctx.payment_record
      ≡ some (payment (Violation.violation_record ctx bump sequence params protocol now))
    → Entry rt chain' ctx.agent_wallet n 0
unfolding Violation.violation_record
violation-Entry rt chain' ctx bump sequence params protocol now n e derived at = record {
  entry = Violation.violation_record ctx bump sequence params protocol now;
  at = rw (← e, derived) at;
  of_wallet = refl;
  numbered = e;
  settles = refl;
}

module _ (rt : Runtime) (env : Env) (chain : Chain) {chain' : Chain} {events : List Event} where
  pub settle_payment-Slot :
      (ctx : Settle.SettlePayment) (sequence : ℕ) (params : SettlePaymentParams)
      → Settle.settle_payment rt env chain ctx sequence params ≡ ok (chain', events)
      → (j : ℕ) → Slot rt env chain chain' j
  settle_payment-Slot ctx sequence params h j =
      let s = settle_payment-Settled rt env chain ctx sequence params h in
      let o = settle_payment_outcome rt env chain ctx sequence params h in
      let t : Written ctx chain s.settlement chain' =
        subst (λ c. Written ctx chain s.settlement c) (sym s.written)
          (write_settlement-Written ctx chain s.settlement s.valid.wallet_stored
            s.valid.policy_stored s.valid.record_vacant) in
      let numbered : o.before.payment_sequence ≡ sequence = sym o.numbered in
      let made : Entry rt chain' ctx.agent_wallet o.before.payment_sequence params.amount_usdc =
        record {
          entry = o.entry;
          at = rw (numbered, s.valid.record_derived) o.entry_at;
          of_wallet = o.entry_wallet;
          numbered = o.entry_sequence ∙ o.numbered;
          settles = ground (arith, o.entry_passed, o.entry_amount);
        } in
      let by_owner : PolicySigned rt env chain ctx.spend_policy = record {
        holder = ctx.agent_wallet;
        holder_wallet = o.before;
        bump = s.accounts.spend_policy.bump;
        stored = o.before_at;
        signed = rw o.authorised o.signed;
        derived = inr s.valid.policy_derived;
      } in
      elim (t.others j) [
        | inl e ↦ Slot-at rt env chain chain' e (
            wallet_changed o.before o.after o.before_at
              (charged params.amount_usdc o.now (rw o.authorised o.signed) o.charged made)
              o.after_at)
        | inr (inl e) ↦ Slot-at rt env chain chain' e (
            policy_counted s.accounts.spend_policy s.settlement.spend_policy s.valid.policy_stored
              (enforce_policy_kept _ _ _ _ _ s.body.policy_enforced) by_owner t.policy_at)
        | inr (inr (inl e)) ↦
            Slot-at rt env chain chain' e
              (payment_made s.settlement.payment_record s.valid.record_vacant s.space t.record_at)
        | inr (inr (inr same)) ↦ kept same
      ]

  pub record_policy_violation-Slot :
      (ctx : Violation.RecordPolicyViolation) (sequence : ℕ) (params : SettlePaymentParams)
      (reason : ℕ)
      → Violation.record_policy_violation rt env chain ctx sequence params reason
        ≡ ok (chain', events)
      → (j : ℕ) → Slot rt env chain chain' j
  record_policy_violation-Slot ctx sequence params reason h j =
      let (w, bump, protocol, now, v, e, m) =
        record_policy_violation_lem rt env chain ctx sequence params reason h in
      let r = Violation.violation_record ctx bump sequence params protocol now in
      let w' = Violation.count_violation w in
      let apart : ctx.agent_wallet ≢ ctx.payment_record =
        λ same. cc (ap chain.accounts same, v.stored, v.vacant) in
      let at : chain'.accounts ctx.payment_record ≡ some (payment r) =
        rw e (simp accounts-set_account (ground arith)) in
      let made : Entry rt chain' ctx.agent_wallet w.payment_sequence 0 =
        violation-Entry rt chain' ctx bump sequence params protocol now w.payment_sequence
          v.numbered v.derived at in
      elim (ℕ_discrete j ctx.agent_wallet) [
        | yes same ↦ Slot-at rt env chain chain' same (
            wallet_changed w w' v.stored (counted (rw v.authorised v.signed) refl made)
              (rw (e, accounts-set_account) (ground arith)))
        | no other ↦ elim (ℕ_discrete j ctx.payment_record) [
          | yes same ↦ Slot-at rt env chain chain' same (payment_made r v.vacant v.space at)
          | no third ↦ kept (rw e (simp accounts-set_account (ground arith)))
        ]
      ]

  pub close_agent-Slot :
      (ctx : Status.CloseAgent)
      → Status.close_agent rt env chain ctx ≡ ok (chain', events)
      → (j : ℕ) → Slot rt env chain chain' j
  close_agent-Slot ctx h j =
      let (w, p, source, c, e) = close_agent_lem rt env chain ctx h in
      let apart : ctx.agent_wallet ≢ ctx.spend_policy =
        λ same. cc (ap chain.accounts same, c.stored, c.policy_stored) in
      let by_owner : PolicySigned rt env chain ctx.spend_policy = record {
        holder = ctx.agent_wallet;
        holder_wallet = w;
        bump = p.bump;
        stored = c.stored;
        signed = rw c.authorised c.signed;
        derived = inr c.policy_derived;
      } in
      elim (ℕ_discrete j ctx.agent_wallet) [
        | yes same ↦ Slot-at rt env chain chain' same (
            wallet_closed w c.stored (rw c.authorised c.signed) c.inactive
              (rw e (simp accounts-close_account (ground arith))))
        | no other ↦ elim (ℕ_discrete j ctx.spend_policy) [
          | yes same ↦ Slot-at rt env chain chain' same (
              policy_closed p c.policy_stored by_owner
                (rw e (simp accounts-close_account (ground arith))))
          | no third ↦ kept (rw e (simp accounts-close_account (ground arith)))
        ]
      ]
