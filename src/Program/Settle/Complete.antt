-- ===== src/Program/Settle/Complete.antt =====
-- When `settle_payment` succeeds.
use maxim_contracts.Common.{
  ℕ, ◌+◌, ◌≡◌, ◌≤◌, ◌<◌, ◌⊎◌, inl, inr, refl, true, false, List, [], ◌∷◌, some, none, arith,
  Bool-cases, ◌∙◌,
}
use maxim_contracts.Common.Int.{ℤ, pos, ◌+ℤ◌, fits_i64, i64_max}
use maxim_contracts.Errors.{ok}
use maxim_contracts.Events.{Event, payment_settled}
use maxim_contracts.Platform.{Seeds, TokenAccount, Tokens, Runtime, Env}
use maxim_contracts.State.ProtocolConfig.{ProtocolConfig}
use maxim_contracts.State.AgentWallet.{
  AgentWallet, reset_window, reset_daily_window_if_elapsed, reset_weekly_window_if_elapsed,
  reset_monthly_window_if_elapsed, seconds_per_day, seconds_per_week, seconds_per_month,
}
use maxim_contracts.State.AgentWallet.Windows.{reset_window_total}
use maxim_contracts.State.SpendPolicy.{SpendPolicy}
use maxim_contracts.State.SpendPolicy.Limits.{Within}
use maxim_contracts.State.PaymentRecord.{PaymentProtocol, from_discriminant, len}
use maxim_contracts.Chain.{
  check_space, Chain, wallet, policy, config, load_wallet, load_policy, load_token, load_config,
  check_mint, check_signer, check_seeds, has_one, check_associated, init,
}
use maxim_contracts.Program.Params.{SettlePaymentParams}
use maxim_contracts.Program.Settle.{
  SettlePayment, SettleAccounts, Settlement, settle_accounts, settle_body, settle_payment,
  check_global_cap, guard_wallet, enforce_policy, enforce_on_chain, pay_payee, write_settlement,
  account_payment, settled_record, settled_event,
}
use maxim_contracts.Program.Settle.Effect.{write_settlement-Written}
use maxim_contracts.Program.Settle.Guard.{Guarded, guard_wallet-Guarded}
use maxim_contracts.Program.Settle.Enforce.{Permitted, Permitted-enforce_limits}

-- The accounts of a settlement are the right ones, and its owner has signed.
pub record Presented (rt : Runtime) (env : Env) (chain : Chain) (ctx : SettlePayment) (sequence : ℕ)
    (params : SettlePaymentParams) (w : AgentWallet) (p : SpendPolicy) (c : ProtocolConfig)
    : Type 0 where
  pub source : TokenAccount
  pub payee : TokenAccount
  pub record_bump : ℕ
  pub wallet_stored : chain.accounts ctx.agent_wallet ≡ some (wallet w)
  pub policy_stored : chain.accounts ctx.spend_policy ≡ some (policy p)
  pub config_stored : chain.accounts ctx.protocol_config ≡ some (config c)
  pub source_stored : chain.tokens.accounts ctx.usdc_token_account ≡ some source
  pub payee_stored : chain.tokens.accounts ctx.payee_token_account ≡ some payee
  pub real_mint : chain.tokens.is_mint ctx.usdc_mint ≡ true
  pub signed : env.is_signer ctx.owner ≡ true
  pub owner_matches : w.owner ≡ ctx.owner
  pub vacant : chain.accounts ctx.payment_record ≡ none
  pub record_derived :
      rt.find_address (Seeds.payment_record ctx.agent_wallet sequence)
      ≡ some (ctx.payment_record, record_bump)
  pub allocated : rt.allocate ctx.owner ctx.payment_record len ≡ ok tt
  pub wallet_derived :
      rt.create_address (Seeds.agent_wallet params.agent_id) w.bump ≡ some ctx.agent_wallet
  pub policy_derived :
      rt.create_address (Seeds.spend_policy ctx.agent_wallet) p.bump ≡ some ctx.spend_policy
  pub policy_of_wallet : p.agent_wallet ≡ ctx.agent_wallet
  pub config_derived : rt.create_address Seeds.protocol_config c.bump ≡ some ctx.protocol_config
  pub source_held : source.owner ≡ ctx.agent_wallet
  pub source_associated :
      rt.associated_address ctx.agent_wallet ctx.usdc_mint ≡ ctx.usdc_token_account

-- The wallet may pay, its number is given, the record has neither parent nor memo, so that it fits its
-- account, and the windows start at 1970 or later and end within the `i64` range.
pub record Payable (sequence : ℕ) (params : SettlePaymentParams) (w : AgentWallet)
    (c : ProtocolConfig) (now : ℕ) : Type 0 where
  pub day : ℕ
  pub week : ℕ
  pub month : ℕ
  pub protocol : PaymentProtocol
  pub active : w.is_active ≡ true
  pub unfrozen : w.is_frozen ≡ false
  pub positive : 0 < params.amount_usdc
  pub known : from_discriminant params.protocol ≡ some protocol
  pub numbered : sequence ≡ w.payment_sequence
  pub no_parent : params.parent_payment ≡ none
  pub no_memo : params.memo ≡ none
  pub capped : Within c.max_single_payment_usdc params.amount_usdc
  pub daily : w.daily_window_start ≡ pos day
  pub weekly : w.weekly_window_start ≡ pos week
  pub monthly : w.monthly_window_start ≡ pos month
  pub present : now ≤ i64_max
  pub day_fits : day + seconds_per_day ≤ i64_max
  pub week_fits : week + seconds_per_week ≤ i64_max
  pub month_fits : month + seconds_per_month ≤ i64_max

window_resets :
    (period spend start now : ℕ)
    → 0 < period
    → now ≤ i64_max
    → start + period ≤ i64_max
    → (r : ℕ × ℤ) × (reset_window period spend (pos start) (pos now) ≡ ok r)
window_resets period spend start now positive fits inside =
    elim (reset_window_total period spend start now positive fits) [
      | inl (_, r) ↦ r
      | inr (over, _) ↦ absurd (omega arith)
    ]

guard_wallet_total :
    (sequence : ℕ) (params : SettlePaymentParams) (w : AgentWallet) (c : ProtocolConfig) (now : ℕ)
    → Payable sequence params w c now
    → (g : AgentWallet) × (guard_wallet w (pos now) ≡ ok g)
unfolding guard_wallet reset_daily_window_if_elapsed reset_weekly_window_if_elapsed
    reset_monthly_window_if_elapsed
guard_wallet_total sequence params w c now b =
    let ((ds, dt), d) =
      window_resets seconds_per_day w.daily_spend b.day now (omega arith) b.present b.day_fits in
    let ((ws, wt), e) =
      window_resets seconds_per_week w.weekly_spend b.week now (omega arith) b.present
        b.week_fits in
    let ((ms, mt), f) =
      window_resets seconds_per_month w.monthly_spend b.month now (omega arith) b.present
        b.month_fits in
    (
      record w {
        daily_spend = ds;
        daily_window_start = dt;
        weekly_spend = ws;
        weekly_window_start = wt;
        monthly_spend = ms;
        monthly_window_start = mt;
      },
      ground (arith, b.daily, b.weekly, b.monthly, b.active, b.unfrozen),
    )

-- The policy lets a payment pass that it does not check, or that it checks and permits while the end
-- of its rate window is an `i64`.
abbrev pub Admitted : SpendPolicy → SettlePaymentParams → AgentWallet → ℕ → Type 0
Admitted p params w now =
    (p.high_value_threshold ≡ 0)
    ⊎ (params.amount_usdc < p.high_value_threshold)
    ⊎ (Permitted p w params (pos now)
        × (fits_i64 (p.rate_limit_window_start +ℤ pos p.rate_limit_window_secs) ≡ true))

enforce_policy_total :
    (p : SpendPolicy) (params : SettlePaymentParams) (g : AgentWallet) (now : ℕ)
    → Admitted p params g now
    → (q : SpendPolicy) × (enforce_policy p g params (pos now) ≡ ok q)
unfolding enforce_policy
enforce_policy_total p params g now a = elim a [
  | inl unset ↦ (p, ground arith)
  | inr (inl low) ↦ (p, ground arith)
  | inr (inr (permitted, in_range)) ↦ elim (Bool-cases (enforce_on_chain p params.amount_usdc)) [
    | inl on ↦
        let (q, run) = Permitted-enforce_limits p g params (pos now) permitted in_range in
        (q, ground (arith, run))
    | inr off ↦ (p, ground arith)
  ]
]

settle_accounts_total :
    (rt : Runtime) (env : Env) (chain : Chain) (ctx : SettlePayment) (sequence : ℕ)
    (params : SettlePaymentParams) (w : AgentWallet) (p : SpendPolicy) (c : ProtocolConfig)
    → Presented rt env chain ctx sequence params w p c
    → (a : SettleAccounts) × (settle_accounts rt env chain ctx sequence params ≡ ok a)
      × (a.agent_wallet ≡ w)
      × (a.spend_policy ≡ p)
      × (a.protocol_config ≡ c)
unfolding settle_accounts load_wallet load_policy load_token load_config check_mint check_signer
    check_seeds has_one check_associated init
settle_accounts_total rt env chain ctx sequence params w p c v = (
  record {
    record_bump = v.record_bump;
    agent_wallet = w;
    spend_policy = p;
    payee_token_account = v.payee;
    protocol_config = c;
  },
  ground (arith, v.allocated),
  refl,
  refl,
  refl,
)

settle_body_total :
    (rt : Runtime) (env : Env) (tokens : Tokens) (ctx : SettlePayment) (a : SettleAccounts)
    (sequence : ℕ) (params : SettlePaymentParams) (now : ℕ) (tokens' : Tokens)
    → Payable sequence params a.agent_wallet a.protocol_config now
    → ((g : AgentWallet)
        → Guarded a.agent_wallet (pos now) g
        → Admitted a.spend_policy params g now)
    → env.clock ≡ ok (pos now)
    → pay_payee rt tokens ctx a.agent_wallet params.amount_usdc ≡ ok tokens'
    → (s : Settlement) × (settle_body rt env tokens ctx a sequence params ≡ ok s)
      × (s.tokens ≡ tokens')
      × (check_space s.payment_record ≡ ok tt)
unfolding check_space settled_record settle_body check_global_cap pay_payee
settle_body_total rt env tokens ctx a sequence params now tokens' b admits read paid =
    let (g, opened) = guard_wallet_total sequence params a.agent_wallet a.protocol_config now b in
    let guarded = guard_wallet-Guarded a.agent_wallet (pos now) g opened in
    let (q, enforced) = enforce_policy_total a.spend_policy params g now (admits g guarded) in
    let same_id : g.agent_id ≡ a.agent_wallet.agent_id = rw guarded.kept in
    let same_bump : g.bump ≡ a.agent_wallet.bump = rw guarded.kept in
    (
      record {
        agent_wallet = account_payment g params.amount_usdc (pos now);
        spend_policy = q;
        tokens = tokens';
        payment_record = settled_record ctx a sequence params b.protocol (pos now);
        event = settled_event ctx a sequence params (pos now);
      },
      ground (arith, b.positive, b.known, b.numbered, b.capped, same_id, same_bump),
      refl,
      ground (arith, b.no_parent, b.no_memo),
    )

module _ (rt : Runtime) (env : Env) (chain : Chain) (ctx : SettlePayment) (sequence : ℕ)
    (params : SettlePaymentParams) (w : AgentWallet) (p : SpendPolicy) (c : ProtocolConfig) where
  -- With times from 1970 on, a settlement succeeds, and leaves the token balances that the transfer
  -- left, if its accounts are the right ones and its owner has signed, the record's address is vacant
  -- and its space can be allocated, the clock can be read, the wallet is active, not
  -- frozen and given its next number, its windows end within the `i64` range, the amount is positive
  -- and within the protocol's cap, the protocol is known, the payment has neither parent nor memo, the
  -- policy does not check the amount, or permits it over the windows that hold the present while its
  -- rate window ends within the `i64` range, and the token transfer succeeds.
  pub settle_payment_succeeds :
      (now : ℕ) (tokens' : Tokens)
      → Presented rt env chain ctx sequence params w p c
      → Payable sequence params w c now
      → ((g : AgentWallet) → Guarded w (pos now) g → Admitted p params g now)
      → env.clock ≡ ok (pos now)
      → pay_payee rt chain.tokens ctx w params.amount_usdc ≡ ok tokens'
      → (chain' : Chain) × (events : List Event) × (settle_payment rt env chain ctx sequence params
          ≡ ok (chain', events))
        × (chain'.tokens ≡ tokens')
  unfolding settle_payment
  settle_payment_succeeds now tokens' v b admits read paid =
      let (a, checked, same_wallet, same_policy, same_config) =
        settle_accounts_total rt env chain ctx sequence params w p c v in
      let (s, ran, left, fits) =
        settle_body_total rt env chain.tokens ctx a sequence params now tokens'
          (rw (same_wallet, same_config) b) (λ g h. rw same_policy (admits g (rw same_wallet at h)))
          read (rw same_wallet paid) in
      (
        write_settlement ctx s chain,
        payment_settled s.event ∷ [],
        ground arith,
        (write_settlement-Written ctx chain s v.wallet_stored v.policy_stored v.vacant).tokens_at
            ∙ left,
      )
