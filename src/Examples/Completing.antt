-- ===== src/Examples/Completing.antt =====
-- The conditions under which `settle_payment` succeeds, met at a state of the scenario.
use mathlib.Core.List.{Memᴰ}
use maxim_contracts.Common.{◌≡◌, refl, inl, inr, List, arith}
use maxim_contracts.Common.Int.{pos, ◌+ℤ◌}
use maxim_contracts.Errors.{ok}
use maxim_contracts.Events.{Event}
use maxim_contracts.State.AgentWallet.{AgentWallet}
use maxim_contracts.State.PaymentRecord.{mpp}
use maxim_contracts.Chain.{Chain}
use maxim_contracts.Program.Settle
use maxim_contracts.Program.Settle.Enforce.{Permitted}
use maxim_contracts.Program.Settle.Guard.{Guarded}
use maxim_contracts.Program.Settle.Complete.{Presented, Payable, Admitted, settle_payment_succeeds}
use maxim_contracts.Examples.Local.{local}
use maxim_contracts.Examples.Scenario.{
  program, usdc, wallet_key, first_key, at, funded, settle_ctx, payment_of, paid,
}
use maxim_contracts.Examples.Settling.{
  live_config, config_funded, funded_wallet, funded_policy, wallet_funded, policy_funded,
}

presented :
    Presented local
      (at 3_000)
      funded
      (settle_ctx first_key)
      0
      (payment_of 30)
      funded_wallet
      funded_policy
      live_config
unfolding program funded
presented = record {
  source = record { mint = usdc; owner = wallet_key; amount = 100 };
  payee = record { mint = usdc; owner = 13; amount = 0 };
  record_bump = 255;
  wallet_stored = wallet_funded;
  policy_stored = policy_funded;
  config_stored = config_funded;
  source_stored = refl;
  payee_stored = refl;
  real_mint = refl;
  signed = refl;
  owner_matches = refl;
  vacant = refl;
  record_derived = refl;
  allocated = refl;
  wallet_derived = refl;
  policy_derived = refl;
  policy_of_wallet = refl;
  config_derived = refl;
  source_held = refl;
  source_associated = refl;
}

payable : Payable 0 (payment_of 30) funded_wallet live_config 3_000
unfolding program
payable = record {
  day = 2_000;
  week = 2_000;
  month = 2_000;
  protocol = mpp;
  active = refl;
  unfrozen = refl;
  positive = omega arith;
  known = refl;
  numbered = refl;
  no_parent = refl;
  no_memo = refl;
  capped = inl refl;
  daily = refl;
  weekly = refl;
  monthly = refl;
  present = omega arith;
  day_fits = omega arith;
  week_fits = omega arith;
  month_fits = omega arith;
}

Admitted-30 :
    (g : AgentWallet)
    → Guarded funded_wallet (pos 3_000) g
    → Admitted funded_policy (payment_of 30) g 3_000
unfolding ◌+ℤ◌
Admitted-30 g guarded =
    let daily : g.daily_spend ≡ 0 = ground (arith, guarded.daily) in
    let weekly : g.weekly_spend ≡ 0 = ground (arith, guarded.weekly) in
    let permitted : Permitted funded_policy g (payment_of 30) (pos 3_000) = record {
      per_call = inr (omega arith);
      daily = inr (rw daily (omega arith));
      weekly = inr (rw weekly (omega arith));
      monthly = inl refl;
      rate = inr (inr (omega arith));
      not_blocked = λ m. elim m [ Memᴰ.head e ↦ omega (arith, e) | Memᴰ.tail m' ↦ elim m' [ ] ];
      listed = inr (Memᴰ.head refl);
    } in
    inr (inr (permitted, refl))

paid_30 :
    Settle.pay_payee local funded.tokens (settle_ctx first_key) funded_wallet 30 ≡ ok paid.tokens
unfolding paid Settle.pay_payee
paid_30 = refl

settle_payment_succeeds_example :
    (chain' : Chain) × (events : List Event) × (Settle.settle_payment local
        (at 3_000)
        funded
        (settle_ctx first_key)
        0
        (payment_of 30)
      ≡ ok (chain', events))
    × (chain'.tokens ≡ paid.tokens)
settle_payment_succeeds_example =
    settle_payment_succeeds local (at 3_000) funded (settle_ctx first_key) 0 (payment_of 30)
      funded_wallet funded_policy live_config 3_000 paid.tokens presented payable Admitted-30 refl
      paid_30
