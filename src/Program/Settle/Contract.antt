-- ===== src/Program/Settle/Contract.antt =====
-- What `settle_payment` promises its callers.
use mathlib.Core.List.{Memᴰ}
use maxim_contracts.Common.{
  ◌∷◌, ℕ, ◌≡◌, ◌≤◌, ◌<◌, ◌⊎◌, true, List, [], some, none, arith, inl, inr, subst, sym,
}
use maxim_contracts.Common.Int.{ℤ}
use maxim_contracts.Errors.{ok}
use maxim_contracts.Events.{Event}
use maxim_contracts.Platform.{Runtime, Env}
use maxim_contracts.Platform.Laws.{Moved, TransferLaws, balance}
use maxim_contracts.State.ProtocolConfig.{ProtocolConfig}
use maxim_contracts.State.AgentWallet.{AgentWallet}
use maxim_contracts.State.SpendPolicy.{SpendPolicy}
use maxim_contracts.State.SpendPolicy.Limits.{Within}
use maxim_contracts.State.PaymentRecord.{PaymentRecord, from_discriminant}
use maxim_contracts.Chain.{Chain, wallet, policy, payment, config}
use maxim_contracts.Program.Params.{SettlePaymentParams}
use maxim_contracts.Program.Settle.Facts.{PaidFrom}
use maxim_contracts.Events.{payment_settled}
use maxim_contracts.Platform.{TokenAccount, Seeds}
use maxim_contracts.Program.Settle.{
  settled_event, SettlePayment, settle_payment, check_global_cap, account_payment, settled_record,
  enforce_policy, enforce_limits, pay_payee,
}
use maxim_contracts.Program.Settle.Enforce.{
  Counted, enforce_limits-Permitted, enforce_limits-Counted, enforce_policy_branches,
}
use maxim_contracts.Program.Settle.Effect.{
  Settled, Written, settle_payment-Settled, write_settlement-Written,
}
use maxim_contracts.Program.Settle.Charge.{Charged, account_payment-Charged}

-- The outcome of a settlement, on the chain before and after it.
pub record SettlementOutcome (rt : Runtime) (env : Env) (chain : Chain) (ctx : SettlePayment)
    (sequence : ℕ) (params : SettlePaymentParams) (chain' : Chain) (events : List Event)
    : Type 0 where
  pub before : AgentWallet
  pub after : AgentWallet
  pub entry : PaymentRecord
  pub now : ℤ
  pub clock : env.clock ≡ ok now
  pub before_at : chain.accounts ctx.agent_wallet ≡ some (wallet before)
  pub after_at : chain'.accounts ctx.agent_wallet ≡ some (wallet after)
  pub vacant : chain.accounts ctx.payment_record ≡ none
  pub entry_at : chain'.accounts ctx.payment_record ≡ some (payment entry)
  pub signed : env.is_signer ctx.owner ≡ true
  pub authorised : before.owner ≡ ctx.owner
  pub positive : 0 < params.amount_usdc
  pub numbered : sequence ≡ before.payment_sequence
  pub charged : Charged before params.amount_usdc now after
  pub entry_wallet : entry.agent_wallet ≡ ctx.agent_wallet
  pub entry_sequence : entry.sequence ≡ sequence
  pub entry_endpoint : entry.endpoint_hash ≡ params.endpoint_hash
  pub entry_amount : entry.amount_usdc ≡ params.amount_usdc
  pub entry_protocol : from_discriminant params.protocol ≡ some entry.protocol
  pub entry_time : entry.settled_at ≡ now
  pub entry_passed : entry.policy_passed ≡ true
  pub entry_parent : entry.parent_payment ≡ params.parent_payment
  pub entry_memo : entry.memo ≡ params.memo
  pub payee_account : TokenAccount
  pub payee_stored : chain.tokens.accounts ctx.payee_token_account ≡ some payee_account
  pub entry_payee : entry.payee ≡ payee_account.owner
  pub entry_derived :
      rt.find_address (Seeds.payment_record ctx.agent_wallet sequence)
      ≡ some (ctx.payment_record, entry.bump)
  pub emitted :
      events
      ≡ payment_settled (record {
        agent_wallet = ctx.agent_wallet;
        sequence = sequence;
        endpoint_hash = params.endpoint_hash;
        payee = payee_account.owner;
        amount_usdc = params.amount_usdc;
        protocol = params.protocol;
        settled_at = now;
        parent_payment = params.parent_payment;
        memo = params.memo;
      })
        ∷ []
  pub others :
      (k : ℕ)
      → (k ≡ ctx.agent_wallet)
        ⊎ (k ≡ ctx.spend_policy)
        ⊎ (k ≡ ctx.payment_record)
        ⊎ (chain'.accounts k ≡ chain.accounts k)

module _ (rt : Runtime) (env : Env) (chain : Chain) (ctx : SettlePayment) (sequence : ℕ)
    (params : SettlePaymentParams) {chain' : Chain} {events : List Event}
    (settled : settle_payment rt env chain ctx sequence params ≡ ok (chain', events)) where
  outcome : Settled rt env chain ctx sequence params chain' events
  outcome = settle_payment-Settled rt env chain ctx sequence params settled

  written : Written ctx chain outcome.settlement chain'
  written =
      let o = outcome in
      subst (λ c. Written ctx chain o.settlement c) (sym o.written)
        (write_settlement-Written ctx chain o.settlement o.valid.wallet_stored o.valid.policy_stored
          o.valid.record_vacant)

  -- A settlement that succeeds was signed by the wallet's owner and carries the wallet's next
  -- sequence number and a positive amount; the wallet was active and not frozen; it charges the
  -- windows that hold the present, counts the payment, adds it to the volume, leaves the wallet's
  -- identity alone, fills the vacant record derived for that number with the payment's arguments, its
  -- time and the owner of the payee's token account, leaves every account but the wallet, the policy
  -- and the record as it was, and emits one event with the same data.
  pub settle_payment_outcome : SettlementOutcome rt env chain ctx sequence params chain' events
  unfolding settled_record settled_event
  settle_payment_outcome =
      let o = outcome in
      let b = o.body in
      let v = o.valid in
      let t = written in
      record {
        before = o.accounts.agent_wallet;
        after = o.settlement.agent_wallet;
        entry = o.settlement.payment_record;
        now = b.now;
        clock = b.clock_read;
        before_at = v.wallet_stored;
        after_at = t.wallet_at;
        vacant = v.record_vacant;
        entry_at = t.record_at;
        signed = v.owner_signed;
        authorised = v.owner_matches;
        positive = b.amount_pos;
        numbered = b.sequence_matches;
        charged =
            subst (Charged o.accounts.agent_wallet params.amount_usdc b.now) (sym b.wallet_written)
              (account_payment-Charged o.accounts.agent_wallet b.guarded params.amount_usdc b.now
                b.wallet_guarded);
        entry_wallet = rw b.record_written;
        entry_sequence = rw b.record_written;
        entry_endpoint = rw b.record_written;
        entry_amount = rw b.record_written;
        entry_protocol = rw b.record_written b.protocol_known;
        entry_time = rw b.record_written;
        entry_passed = rw b.record_written;
        entry_parent = rw b.record_written;
        entry_memo = rw b.record_written;
        payee_account = o.accounts.payee_token_account;
        payee_stored = v.payee_stored;
        entry_payee = rw b.record_written;
        entry_derived = rw b.record_written v.record_derived;
        emitted = rw (o.emitted, b.event_written);
        others = t.others;
      }

  -- What the enforcement did, with the policy that was stored.
  enforcement :
      (p : SpendPolicy)
      → chain.accounts ctx.spend_policy ≡ some (policy p)
      → enforce_policy p outcome.body.guarded params outcome.body.now
        ≡ ok outcome.settlement.spend_policy
  enforcement p stored =
      let o = outcome in
      let same : o.accounts.spend_policy ≡ p = cc (stored, o.valid.policy_stored) in
      rw same at o.body.policy_enforced

  module _ (p : SpendPolicy) (stored : chain.accounts ctx.spend_policy ≡ some (policy p))
      (set : 0 < p.high_value_threshold) (high : p.high_value_threshold ≤ params.amount_usdc) where
    limits_enforced :
        enforce_limits p outcome.body.guarded params outcome.body.now
        ≡ ok outcome.settlement.spend_policy
    limits_enforced =
        let o = outcome in
        elim (enforce_policy_branches p o.body.guarded params o.body.now o.settlement.spend_policy
          (enforcement p stored)) [ inl (_, _, run) ↦ run | inr (low, _) ↦ absurd (omega arith) ]

    -- After a payment at or above a positive threshold, the payment is within the per-call limit,
    -- each spend of the wallet that is stored is within its budget, the destination is not on the
    -- blocklist, and it is on the allowlist unless that is empty. A limit of zero is disabled.
    pub settle_payment_limits :
        (after : AgentWallet) × (chain'.accounts ctx.agent_wallet ≡ some (wallet after))
        × Within p.per_call_limit params.amount_usdc
        × Within p.daily_budget after.daily_spend
        × Within p.weekly_budget after.weekly_spend
        × Within p.monthly_budget after.monthly_spend
        × (¬ Memᴰ params.domain_hash p.blocked_domain_hashes)
        × ((p.allowed_domain_hashes ≡ []) ⊎ Memᴰ params.domain_hash p.allowed_domain_hashes)
    unfolding account_payment
    settle_payment_limits =
        let o = outcome in
        let m =
          enforce_limits-Permitted p o.body.guarded params o.body.now o.settlement.spend_policy
            limits_enforced in
        (
          o.settlement.agent_wallet,
          written.wallet_at,
          m.per_call,
          rw o.body.wallet_written m.daily,
          rw o.body.wallet_written m.weekly,
          rw o.body.wallet_written m.monthly,
          m.not_blocked,
          m.listed,
        )

    -- A payment at or above a positive threshold is counted in the rate window of the stored policy,
    -- which begins anew if it had elapsed; the count is within the limit, and the rest of the policy
    -- stays.
    pub settle_payment_rate :
        (q : SpendPolicy) × (now : ℤ) × (env.clock ≡ ok now)
        × (chain'.accounts ctx.spend_policy ≡ some (policy q))
        × Counted p now q
    settle_payment_rate =
        let o = outcome in
        (
          o.settlement.spend_policy,
          o.body.now,
          o.body.clock_read,
          written.policy_at,
          enforce_limits-Counted p o.body.guarded params o.body.now o.settlement.spend_policy
              limits_enforced,
        )

  -- A payment below the threshold, or any payment when the threshold is zero, leaves the stored
  -- policy as it was, its rate count included.
  pub settle_payment_below :
      (p : SpendPolicy)
      → chain.accounts ctx.spend_policy ≡ some (policy p)
      → (p.high_value_threshold ≡ 0) ⊎ (params.amount_usdc < p.high_value_threshold)
      → chain'.accounts ctx.spend_policy ≡ some (policy p)
  settle_payment_below p stored low =
      let o = outcome in
      elim (enforce_policy_branches p o.body.guarded params o.body.now o.settlement.spend_policy
        (enforcement p stored)) [
          | inl (set, high, _) ↦ absurd (omega arith)
          | inr (_, same) ↦ rw (← same) written.policy_at
        ]

  -- A settlement that succeeds is within the protocol-wide cap of the stored configuration; a cap of
  -- zero is disabled.
  pub settle_payment_cap :
      (c : ProtocolConfig)
      → chain.accounts ctx.protocol_config ≡ some (config c)
      → Within c.max_single_payment_usdc params.amount_usdc
  unfolding check_global_cap
  settle_payment_cap c stored =
      let o = outcome in ground (arith, o.valid.config_stored, o.body.cap_passed)

  -- With a token program that keeps the laws of a transfer, the amount of a settlement leaves the
  -- token account that is associated with the agent's wallet and the mint, which the wallet holds and
  -- which held the amount, and arrives at the payee's; from an account to itself nothing moves; no
  -- third token account changes.
  pub settle_payment_transfer :
      TransferLaws rt
      → PaidFrom rt chain ctx
        × (params.amount_usdc ≤ balance chain.tokens ctx.usdc_token_account)
        × Moved chain.tokens ctx.usdc_token_account ctx.payee_token_account params.amount_usdc
            chain'.tokens
  unfolding pay_payee
  settle_payment_transfer laws =
      let o = outcome in
      let t = laws.transfer_lem _ _ _ o.body.paid in
      (
        o.paid_from,
        t.funded,
        subst (Moved chain.tokens ctx.usdc_token_account ctx.payee_token_account params.amount_usdc)
            (sym written.tokens_at) t.moved,
      )
