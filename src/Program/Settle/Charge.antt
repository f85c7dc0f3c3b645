-- ===== src/Program/Settle/Charge.antt =====
-- What the guards and the accounting of `settle_payment` do to the wallet.
use maxim_contracts.Common.{ℕ, ◌≡◌, refl, saturating_add, u64_max}
use maxim_contracts.Common.Int.{ℤ}
use maxim_contracts.Errors.{ok}
use maxim_contracts.State.AgentWallet.{AgentWallet}
use maxim_contracts.Program.Settle.{guard_wallet, account_payment}
use maxim_contracts.Program.Settle.Guard.{Guarded, guard_wallet-Guarded}

-- The wallet `w` allowed the payment, and `w'` is what became of it: the spends are those of the
-- windows that hold `now`, with the payment added, and the identity of the wallet stays.
pub record Charged (w : AgentWallet) (amount : ℕ) (now : ℤ) (w' : AgentWallet) : Type 0 where
  pub open_windows : AgentWallet
  pub guarded : Guarded w now open_windows
  pub daily : w'.daily_spend ≡ saturating_add u64_max open_windows.daily_spend amount
  pub weekly : w'.weekly_spend ≡ saturating_add u64_max open_windows.weekly_spend amount
  pub monthly : w'.monthly_spend ≡ saturating_add u64_max open_windows.monthly_spend amount
  pub daily_start : w'.daily_window_start ≡ open_windows.daily_window_start
  pub weekly_start : w'.weekly_window_start ≡ open_windows.weekly_window_start
  pub monthly_start : w'.monthly_window_start ≡ open_windows.monthly_window_start
  pub volume : w'.total_volume ≡ saturating_add u64_max w.total_volume amount
  pub sequence : w'.payment_sequence ≡ saturating_add u64_max w.payment_sequence 1
  pub payments : w'.total_payments ≡ saturating_add u64_max w.total_payments 1
  pub last : w'.last_payment_at ≡ now
  pub same_id : w'.agent_id ≡ w.agent_id
  pub same_owner : w'.owner ≡ w.owner
  pub same_token_account : w'.usdc_token_account ≡ w.usdc_token_account
  pub same_active : w'.is_active ≡ w.is_active
  pub same_frozen : w'.is_frozen ≡ w.is_frozen
  pub same_bump : w'.bump ≡ w.bump

pub account_payment-Charged :
    (w g : AgentWallet) (amount : ℕ) (now : ℤ)
    → guard_wallet w now ≡ ok g
    → Charged w amount now (account_payment g amount now)
unfolding account_payment
account_payment-Charged w g amount now passed =
    let guarded = guard_wallet-Guarded w now g passed in
    record {
      open_windows = g;
      guarded = guarded;
      daily = refl;
      weekly = refl;
      monthly = refl;
      daily_start = refl;
      weekly_start = refl;
      monthly_start = refl;
      volume = rw guarded.kept;
      sequence = rw guarded.kept;
      payments = rw guarded.kept;
      last = refl;
      same_id = rw guarded.kept;
      same_owner = rw guarded.kept;
      same_token_account = rw guarded.kept;
      same_active = rw guarded.kept;
      same_frozen = rw guarded.kept;
      same_bump = rw guarded.kept;
    }
