-- ===== src/Program/Violation/Effect.antt =====
-- `record_policy_violation` as a whole: what it checked, and the chain that it leaves.
use maxim_contracts.Common.{[], ◌∷◌, ℕ, ◌≡◌, true, List, some, none, inl, inr, arith}
use maxim_contracts.Common.Int.{ℤ}
use maxim_contracts.Errors.{ok, Exec-cases}
use maxim_contracts.Events.{policy_violation_recorded, Event}
use maxim_contracts.Platform.{Seeds, Runtime, Env}
use maxim_contracts.State.AgentWallet.{AgentWallet}
use maxim_contracts.State.PaymentRecord.{PaymentProtocol, from_discriminant}
use maxim_contracts.Chain.{
  check_space, Chain, wallet, payment, set_account, load_wallet, check_signer, check_seeds, has_one,
  init,
}
use maxim_contracts.Program.Params.{SettlePaymentParams}
use maxim_contracts.Program.Violation.{
  RecordPolicyViolation, violation_accounts, violation_record, count_violation,
  record_policy_violation,
}

pub record Violated (rt : Runtime) (env : Env) (chain : Chain) (ctx : RecordPolicyViolation)
    (sequence : ℕ) (params : SettlePaymentParams) (w : AgentWallet) (protocol : PaymentProtocol)
    (bump : ℕ) (now : ℤ) : Type 0 where
  pub stored : chain.accounts ctx.agent_wallet ≡ some (wallet w)
  pub vacant : chain.accounts ctx.payment_record ≡ none
  pub derived :
      rt.find_address (Seeds.payment_record ctx.agent_wallet sequence)
      ≡ some (ctx.payment_record, bump)
  pub signed : env.is_signer ctx.owner ≡ true
  pub authorised : w.owner ≡ ctx.owner
  pub known : from_discriminant params.protocol ≡ some protocol
  pub numbered : sequence ≡ w.payment_sequence
  pub clock : env.clock ≡ ok now
  pub accounts : violation_accounts rt env chain ctx sequence params ≡ ok (bump, w)
  pub space : check_space (violation_record ctx bump sequence params protocol now) ≡ ok tt

module _ (rt : Runtime) (env : Env) (chain : Chain) (ctx : RecordPolicyViolation) (sequence : ℕ)
    (params : SettlePaymentParams) (reason : ℕ) {chain' : Chain} {events : List Event}
    (done : record_policy_violation rt env chain ctx sequence params reason
      ≡ ok (chain', events)) where
  accounts_found :
      (r : ℕ × AgentWallet) × (violation_accounts rt env chain ctx sequence params ≡ ok r)
  unfolding record_policy_violation
  accounts_found = elim (Exec-cases (violation_accounts rt env chain ctx sequence params)) [
    | inl (e, failed) ↦ absurd (ground arith)
    | inr r ↦ r
  ]

  protocol_found :
      (r : ℕ × AgentWallet)
      → violation_accounts rt env chain ctx sequence params ≡ ok r
      → (q : PaymentProtocol) × (from_discriminant params.protocol ≡ some q)
  unfolding record_policy_violation
  protocol_found (b, w) found = ground arith

  clock_found :
      (r : ℕ × AgentWallet)
      → violation_accounts rt env chain ctx sequence params ≡ ok r
      → (now : ℤ) × (env.clock ≡ ok now)
  unfolding record_policy_violation
  clock_found (b, w) found = elim (Exec-cases env.clock) [
    | inl (e, failed) ↦ absurd (ground arith)
    | inr r ↦ r
  ]

  accounts_valid :
      (b : ℕ) (w : AgentWallet)
      → violation_accounts rt env chain ctx sequence params ≡ ok (b, w)
      → (chain.accounts ctx.agent_wallet ≡ some (wallet w))
        × (chain.accounts ctx.payment_record ≡ none)
        × (rt.find_address (Seeds.payment_record ctx.agent_wallet sequence)
            ≡ some (ctx.payment_record, b))
        × (env.is_signer ctx.owner ≡ true)
        × (w.owner ≡ ctx.owner)
  unfolding violation_accounts load_wallet check_signer check_seeds has_one init
  accounts_valid b w found = ground arith

  pub record_policy_violation_lem :
      (w : AgentWallet) × (bump : ℕ) × (protocol : PaymentProtocol) × (now : ℤ) × Violated rt env
        chain ctx sequence params w protocol bump now
      × (chain'
          ≡ set_account ctx.agent_wallet (wallet (count_violation w)) (
              set_account ctx.payment_record
                (payment (violation_record ctx bump sequence params protocol now))
                chain))
      × (events
          ≡ policy_violation_recorded (record {
            agent_wallet = ctx.agent_wallet;
            sequence = sequence;
            endpoint_hash = params.endpoint_hash;
            amount_usdc = params.amount_usdc;
            violation_reason = reason;
          })
            ∷ [])
  unfolding record_policy_violation
  record_policy_violation_lem =
      let ((bump, w), found) = accounts_found in
      let (protocol, known) = protocol_found (bump, w) found in
      let (now, read) = clock_found (bump, w) found in
      let (stored, vacant, derived, signed, authorised) = accounts_valid bump w found in
      (
        w,
        bump,
        protocol,
        now,
        record {
          stored = stored;
          vacant = vacant;
          derived = derived;
          signed = signed;
          authorised = authorised;
          known = known;
          numbered = ground arith;
          clock = read;
          accounts = found;
          space = ground arith;
        },
        ground arith,
        ground arith,
      )
