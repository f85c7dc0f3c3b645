-- ===== src/Ledger/Wallets.antt =====
-- What holds of every wallet on every chain that the program can lead to.
use maxim_contracts.Common.{
  ℕ, ◌≡◌, ◌≤◌, inl, inr, refl, Bool, List, some, arith, sym, subst, saturating_add, u64_max, ◌∙◌,
}
use maxim_contracts.Common.Int.{ℤ, int_laws}
use maxim_contracts.Platform.{Runtime, Env}
use maxim_contracts.State.AgentWallet.{AgentWallet, seconds_per_day}
use maxim_contracts.State.AgentWallet.Windows.{WindowReset}
use maxim_contracts.Chain.{Chain, wallet}
use maxim_contracts.Program.Register.{RegisterAgent, new_wallet}
use maxim_contracts.Program.Register.Effect.{IsAgentId}
use maxim_contracts.Program.Violation.{count_violation}
use maxim_contracts.Program.Dispatch.{call, outside, Reach, here, next}
use maxim_contracts.Ledger.Slot.{
  WalletStep, charged, counted, activated, transferred, frozen, Slot, kept, config_made,
  config_rotated, config_capped, wallet_made, wallet_changed, wallet_closed, policy_made,
  policy_replaced, policy_counted, policy_closed, payment_made,
}
use maxim_contracts.Ledger.Execute.{execute-Slot}
use maxim_contracts.Program.Settle.Charge.{Charged}
use maxim_contracts.State.AgentWallet.Nested.{Nested, Nested-week, Nested-month}

pub record IsWellFormed (w : AgentWallet) : Type 0 where
  pub valid_id : IsAgentId w.agent_id
  pub counted : w.total_payments ≡ w.payment_sequence
  pub week : Nested seconds_per_day 7 w.weekly_window_start w.daily_window_start
  pub month : Nested seconds_per_day 30 w.monthly_window_start w.daily_window_start
  pub daily_le_weekly : w.daily_spend ≤ w.weekly_spend
  pub daily_le_monthly : w.daily_spend ≤ w.monthly_spend
  pub weekly_le_volume : w.weekly_spend ≤ w.total_volume
  pub monthly_le_volume : w.monthly_spend ≤ w.total_volume
  pub volume_fits : w.total_volume ≤ u64_max
  pub sequence_fits : w.payment_sequence ≤ u64_max

new_wallet-IsWellFormed :
    (ctx : RegisterAgent) (id : List ℕ) (bump : ℕ) (now : ℤ)
    → IsAgentId id
    → IsWellFormed (new_wallet ctx id bump now)
unfolding new_wallet
new_wallet-IsWellFormed ctx id bump now valid = record {
  valid_id = valid;
  counted = refl;
  week = (0, omega arith, omega int_laws);
  month = (0, omega arith, omega int_laws);
  daily_le_weekly = omega arith;
  daily_le_monthly = omega arith;
  weekly_le_volume = omega arith;
  monthly_le_volume = omega arith;
  volume_fits = omega arith;
  sequence_fits = omega arith;
}

reset_le :
    (period s s' : ℕ) (start start' now : ℤ) → WindowReset period s start now s' start' → s' ≤ s
reset_le period s s' start start' now (inl (a, b, c)) = omega arith
reset_le period s s' start start' now (inr (a, b, c, l, u)) = omega arith

sat_mono : (a b n : ℕ) → a ≤ b → saturating_add u64_max a n ≤ saturating_add u64_max b n
sat_mono a b n h = ground arith

sat-le : (a n : ℕ) → saturating_add u64_max a n ≤ u64_max
sat-le a n = ground arith

-- A payment keeps a wallet well formed.
Charged-IsWellFormed :
    (w w' : AgentWallet) (amount : ℕ) (now : ℤ)
    → Charged w amount now w'
    → IsWellFormed w
    → IsWellFormed w'
Charged-IsWellFormed w w' amount now c v =
    let g = c.open_windows in
    let d = c.guarded.daily in
    let k = c.guarded.weekly in
    let m = c.guarded.monthly in
    let (week, dw) = Nested-week _ _ _ _ _ _ _ _ now v.week d k v.daily_le_weekly in
    let (month, dm) = Nested-month _ _ _ _ _ _ _ _ now v.month d m v.daily_le_monthly in
    let kl = reset_le _ _ _ _ _ now k in
    let ml = reset_le _ _ _ _ _ now m in
    record {
      valid_id = rw c.same_id v.valid_id;
      counted = rw (c.payments, c.sequence, v.counted);
      week = rw (c.daily_start, c.weekly_start) week;
      month = rw (c.daily_start, c.monthly_start) month;
      daily_le_weekly = rw (c.daily, c.weekly) (sat_mono g.daily_spend g.weekly_spend amount dw);
      daily_le_monthly = rw (c.daily, c.monthly) (sat_mono g.daily_spend g.monthly_spend amount dm);
      weekly_le_volume =
          rw (c.weekly, c.volume)
            (sat_mono g.weekly_spend w.total_volume amount
              (let u : w.weekly_spend ≤ w.total_volume = v.weekly_le_volume in omega arith));
      monthly_le_volume =
          rw (c.monthly, c.volume)
            (sat_mono g.monthly_spend w.total_volume amount
              (let u : w.monthly_spend ≤ w.total_volume = v.monthly_le_volume in omega arith));
      volume_fits = rw c.volume (sat-le w.total_volume amount);
      sequence_fits = rw c.sequence (sat-le w.payment_sequence 1);
    }

count_violation-IsWellFormed : (w : AgentWallet) → IsWellFormed w → IsWellFormed (count_violation w)
unfolding count_violation
count_violation-IsWellFormed w v = record {
  valid_id = v.valid_id;
  counted = rw v.counted;
  week = v.week;
  month = v.month;
  daily_le_weekly = v.daily_le_weekly;
  daily_le_monthly = v.daily_le_monthly;
  weekly_le_volume = v.weekly_le_volume;
  monthly_le_volume = v.monthly_le_volume;
  volume_fits = v.volume_fits;
  sequence_fits = sat-le w.payment_sequence 1;
}

-- The owner and the two flags play no part in it.
restatused-IsWellFormed :
    (w : AgentWallet) (owner : ℕ) (active stopped : Bool)
    → IsWellFormed w
    → IsWellFormed (record w { owner = owner; is_active = active; is_frozen = stopped })
restatused-IsWellFormed w owner active stopped v = record {
  valid_id = v.valid_id;
  counted = v.counted;
  week = v.week;
  month = v.month;
  daily_le_weekly = v.daily_le_weekly;
  daily_le_monthly = v.daily_le_monthly;
  weekly_le_volume = v.weekly_le_volume;
  monthly_le_volume = v.monthly_le_volume;
  volume_fits = v.volume_fits;
  sequence_fits = v.sequence_fits;
}

WalletStep-IsWellFormed :
    {rt : Runtime} {env : Env} {chain chain' : Chain} {k : ℕ} (w w' : AgentWallet)
    → WalletStep rt env chain chain' k w w'
    → IsWellFormed w
    → IsWellFormed w'
WalletStep-IsWellFormed w w' (charged amount now s c e) v = Charged-IsWellFormed w w' amount now c v
WalletStep-IsWellFormed w w' (counted s e r) v = rw e (count_violation-IsWellFormed w v)
WalletStep-IsWellFormed w w' (activated f s e) v =
    rw e (restatused-IsWellFormed w w.owner f w.is_frozen v)
WalletStep-IsWellFormed w w' (transferred o s n e) v =
    rw e (restatused-IsWellFormed w o w.is_active w.is_frozen v)
WalletStep-IsWellFormed w w' (frozen f a e) v =
    rw e (restatused-IsWellFormed w w.owner w.is_active f v)

Slot-IsWellFormed :
    {rt : Runtime} {env : Env} {chain chain' : Chain} {k : ℕ} (w' : AgentWallet)
    → Slot rt env chain chain' k
    → ((w : AgentWallet) → chain.accounts k ≡ some (wallet w) → IsWellFormed w)
    → chain'.accounts k ≡ some (wallet w')
    → IsWellFormed w'
Slot-IsWellFormed w' (kept e) before h = before w' (sym e ∙ h)
Slot-IsWellFormed w' (config_made c v a b e) before h = cc
Slot-IsWellFormed w' (config_rotated c a b s n e) before h = cc
Slot-IsWellFormed w' (config_capped c a b s e) before h = cc
Slot-IsWellFormed w' (wallet_made ctx id bump now v s valid e) before h =
    let same : new_wallet ctx id bump now ≡ w' = cc in
    subst IsWellFormed same (new_wallet-IsWellFormed ctx id bump now valid)
Slot-IsWellFormed w' (wallet_changed w v b s e) before h =
    let same : v ≡ w' = cc in subst IsWellFormed same (WalletStep-IsWellFormed w v s (before w b))
Slot-IsWellFormed w' (wallet_closed w b s i e) before h = cc
Slot-IsWellFormed w' (policy_made p v f y e) before h = cc
Slot-IsWellFormed w' (policy_replaced p q b f y e) before h = cc
Slot-IsWellFormed w' (policy_counted p q b f y e) before h = cc
Slot-IsWellFormed w' (policy_closed p b y e) before h = cc
Slot-IsWellFormed w' (payment_made q v z e) before h = cc

-- On every chain that the program can lead to, every wallet is well formed: its id is valid, it has
-- counted as many payments as its next number, the daily window lies on the grid of the weekly and
-- of the monthly one and inside both, the daily spend is at most the weekly and the monthly one, and
-- these are at most the lifetime volume, which fits its word as the number does. The clock need not
-- be monotonic.
pub wallets-IsWellFormed :
    {rt : Runtime} {chain : Chain} (k : ℕ) (w : AgentWallet)
    → Reach rt chain
    → chain.accounts k ≡ some (wallet w)
    → IsWellFormed w
wallets-IsWellFormed k w (here fresh) h = cc (fresh.empty k)
wallets-IsWellFormed {rt} k w (next {chain = chain} reach (call env ix events e)) h =
    Slot-IsWellFormed w (execute-Slot rt env chain ix e k) (λ v b. wallets-IsWellFormed k v reach b)
      h
wallets-IsWellFormed k w (next reach (outside tokens e)) h =
    wallets-IsWellFormed k w reach (rw e at h)
