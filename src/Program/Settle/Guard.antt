-- ===== src/Program/Settle/Guard.antt =====
-- The wallet guards and window resets of `settle_payment`.
use maxim_contracts.Common.{◌≡◌, true, false, arith}
use maxim_contracts.Common.Int.{ℤ}
use maxim_contracts.Errors.{ok}
use maxim_contracts.State.AgentWallet.{
  AgentWallet, reset_window, reset_daily_window_if_elapsed, reset_weekly_window_if_elapsed,
  reset_monthly_window_if_elapsed, seconds_per_day, seconds_per_week, seconds_per_month,
}
use maxim_contracts.State.AgentWallet.Windows.{WindowReset, reset_window-WindowReset}
use maxim_contracts.Program.Settle.{guard_wallet}

-- The wallet was usable, its three windows were reset, and nothing else of it changed.
pub record Guarded (w : AgentWallet) (now : ℤ) (g : AgentWallet) : Type 0 where
  pub active : w.is_active ≡ true
  pub unfrozen : w.is_frozen ≡ false
  pub daily :
      WindowReset seconds_per_day w.daily_spend w.daily_window_start now g.daily_spend
        g.daily_window_start
  pub weekly :
      WindowReset seconds_per_week w.weekly_spend w.weekly_window_start now g.weekly_spend
        g.weekly_window_start
  pub monthly :
      WindowReset seconds_per_month w.monthly_spend w.monthly_window_start now g.monthly_spend
        g.monthly_window_start
  pub kept : g ≡ record w {
    daily_spend = g.daily_spend;
    daily_window_start = g.daily_window_start;
    weekly_spend = g.weekly_spend;
    weekly_window_start = g.weekly_window_start;
    monthly_spend = g.monthly_spend;
    monthly_window_start = g.monthly_window_start;
  }

module _ (w : AgentWallet) (now : ℤ) (g : AgentWallet) (passed : guard_wallet w now ≡ ok g) where
  daily_reset :
      reset_window seconds_per_day w.daily_spend w.daily_window_start now
      ≡ ok (g.daily_spend, g.daily_window_start)
  unfolding guard_wallet reset_daily_window_if_elapsed reset_weekly_window_if_elapsed
      reset_monthly_window_if_elapsed
  daily_reset = ground arith

  weekly_reset :
      reset_window seconds_per_week w.weekly_spend w.weekly_window_start now
      ≡ ok (g.weekly_spend, g.weekly_window_start)
  unfolding guard_wallet reset_daily_window_if_elapsed reset_weekly_window_if_elapsed
      reset_monthly_window_if_elapsed
  weekly_reset = ground arith

  monthly_reset :
      reset_window seconds_per_month w.monthly_spend w.monthly_window_start now
      ≡ ok (g.monthly_spend, g.monthly_window_start)
  unfolding guard_wallet reset_daily_window_if_elapsed reset_weekly_window_if_elapsed
      reset_monthly_window_if_elapsed
  monthly_reset = ground arith

  pub guard_wallet-Guarded : Guarded w now g
  unfolding guard_wallet reset_daily_window_if_elapsed reset_weekly_window_if_elapsed
      reset_monthly_window_if_elapsed
  guard_wallet-Guarded = record {
    active = ground arith;
    unfrozen = ground arith;
    daily = reset_window-WindowReset _ _ _ _ (omega arith) daily_reset;
    weekly = reset_window-WindowReset _ _ _ _ (omega arith) weekly_reset;
    monthly = reset_window-WindowReset _ _ _ _ (omega arith) monthly_reset;
    kept = ground arith;
  }
