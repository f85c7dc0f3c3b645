-- ===== src/Program/Violation/Contract.antt =====
-- What `record_policy_violation` promises its callers.
use maxim_contracts.Common.{
  [], ◌∷◌, ℕ, ◌≡◌, ◌≢◌, refl, ◌⊎◌, true, false, List, some, none, arith, ap, saturating_add,
  u64_max,
}
use maxim_contracts.Errors.{ok}
use maxim_contracts.Events.{policy_violation_recorded, Event}
use maxim_contracts.Platform.{Seeds, Runtime, Env}
use maxim_contracts.State.AgentWallet.{AgentWallet}
use maxim_contracts.State.PaymentRecord.{PaymentRecord, from_discriminant, is_violation, is_chained}
use maxim_contracts.Chain.{Chain, wallet, payment}
use maxim_contracts.Chain.Store.{accounts-set_account, tokens-set_account}
use maxim_contracts.Program.Params.{SettlePaymentParams}
use maxim_contracts.Program.Violation.{
  RecordPolicyViolation, record_policy_violation, violation_record, count_violation,
}
use maxim_contracts.Program.Violation.Effect.{record_policy_violation_lem}

pub record ViolationOutcome (rt : Runtime) (env : Env) (chain : Chain) (ctx : RecordPolicyViolation)
    (sequence : ℕ) (params : SettlePaymentParams) (reason : ℕ) (chain' : Chain)
    (events : List Event) : Type 0 where
  pub before : AgentWallet
  pub entry : PaymentRecord
  pub before_at : chain.accounts ctx.agent_wallet ≡ some (wallet before)
  pub signed : env.is_signer ctx.owner ≡ true
  pub authorised : before.owner ≡ ctx.owner
  pub numbered : sequence ≡ before.payment_sequence
  pub after_at :
      chain'.accounts ctx.agent_wallet
      ≡ some (
          wallet (record before {
            payment_sequence = saturating_add u64_max before.payment_sequence 1;
            total_payments = saturating_add u64_max before.total_payments 1;
          }))
  pub vacant : chain.accounts ctx.payment_record ≡ none
  pub entry_at : chain'.accounts ctx.payment_record ≡ some (payment entry)
  pub entry_wallet : entry.agent_wallet ≡ ctx.agent_wallet
  pub entry_sequence : entry.sequence ≡ sequence
  pub entry_endpoint : entry.endpoint_hash ≡ params.endpoint_hash
  pub entry_memo : entry.memo ≡ params.memo
  pub entry_time : env.clock ≡ ok entry.settled_at
  pub entry_derived :
      rt.find_address (Seeds.payment_record ctx.agent_wallet sequence)
      ≡ some (ctx.payment_record, entry.bump)
  pub entry_amount : entry.amount_usdc ≡ params.amount_usdc
  pub entry_payee : entry.payee ≡ 0
  pub entry_violation : is_violation entry ≡ true
  pub entry_unchained : is_chained entry ≡ false
  pub entry_protocol : from_discriminant params.protocol ≡ some entry.protocol
  pub emitted :
      events
      ≡ policy_violation_recorded (record {
        agent_wallet = ctx.agent_wallet;
        sequence = sequence;
        endpoint_hash = params.endpoint_hash;
        amount_usdc = params.amount_usdc;
        violation_reason = reason;
      })
        ∷ []
  pub tokens_kept : chain'.tokens ≡ chain.tokens
  pub others :
      (k : ℕ)
      → (k ≡ ctx.agent_wallet) ⊎ (k ≡ ctx.payment_record) ⊎ (chain'.accounts k ≡ chain.accounts k)

-- A violation that is recorded was signed by the wallet's owner and carries the wallet's next
-- number. It moves no tokens, raises only the two counters of the wallet, whose spends, windows,
-- volume and status stay, fills the vacant record derived for that number as a violation with the
-- arguments given, its time, no payee and no parent, leaves every other account as it was, and emits
-- one event with the reason.
pub record_policy_violation_outcome :
    (rt : Runtime) (env : Env) (chain : Chain) (ctx : RecordPolicyViolation) (sequence : ℕ)
    (params : SettlePaymentParams) (reason : ℕ) {chain' : Chain} {events : List Event}
    → record_policy_violation rt env chain ctx sequence params reason ≡ ok (chain', events)
    → ViolationOutcome rt env chain ctx sequence params reason chain' events
unfolding violation_record count_violation is_violation is_chained
record_policy_violation_outcome rt env chain ctx sequence params reason {chain'} done =
    let (w, bump, protocol, now, v, e, m) =
      record_policy_violation_lem rt env chain ctx sequence params reason done in
    let apart : ctx.agent_wallet ≢ ctx.payment_record =
      λ same. cc (ap chain.accounts same, v.stored, v.vacant) in
    record {
      before = w;
      entry = violation_record ctx bump sequence params protocol now;
      before_at = v.stored;
      signed = v.signed;
      authorised = v.authorised;
      numbered = v.numbered;
      after_at = rw e (simp accounts-set_account (ground arith));
      vacant = v.vacant;
      entry_at = rw e (simp accounts-set_account (ground arith));
      entry_wallet = refl;
      entry_sequence = refl;
      entry_endpoint = refl;
      entry_memo = refl;
      entry_time = v.clock;
      entry_derived = v.derived;
      emitted = m;
      entry_amount = refl;
      entry_payee = refl;
      entry_violation = refl;
      entry_unchained = refl;
      entry_protocol = v.known;
      tokens_kept = rw e (simp tokens-set_account);
      others = λ k. rw e (simp accounts-set_account (ground arith));
    }
