-- ===== src/State/AgentWallet.antt =====
-- programs/maxim_protocol/src/state/agent_wallet.rs. Amounts are `u64` and timestamps `i64`; an
-- address is a number, since the program only compares it, and an id is the list of its bytes.
pub mod Windows
pub mod Nested
pub mod Status
use maxim_contracts.Common.{◌*◌, length, ℕ, ◌+◌, Bool, not, ◌&&◌, List, if◌then◌else◌}
use maxim_contracts.Common.Int.{ℤ, pos, leb_ℤ, ◌+ℤ◌, ◌-ℤ◌, ◌*ℤ◌, div_ℤ, fits_i64}
use maxim_contracts.Errors.{Exec, ok, ◌>>=◌, ◌>>◌, ensure, arithmetic_overflow}

-- `MAX_AGENT_ID_LEN`
abbrev pub max_agent_id_len : ℕ
max_agent_id_len = 64

-- `SECONDS_PER_DAY`, `SECONDS_PER_WEEK` and `SECONDS_PER_MONTH`
abbrev pub seconds_per_day : ℕ
seconds_per_day = 86_400

abbrev pub seconds_per_week : ℕ
seconds_per_week = 604_800

abbrev pub seconds_per_month : ℕ
seconds_per_month = 2_592_000

pub record AgentWallet : Type 0 where
  pub agent_id : List ℕ
  pub owner : ℕ
  pub usdc_token_account : ℕ
  pub daily_spend : ℕ
  pub daily_window_start : ℤ
  pub weekly_spend : ℕ
  pub weekly_window_start : ℤ
  pub monthly_spend : ℕ
  pub monthly_window_start : ℤ
  pub payment_sequence : ℕ
  pub total_payments : ℕ
  pub total_volume : ℕ
  pub last_payment_at : ℤ
  pub is_active : Bool
  pub is_frozen : Bool
  pub bump : ℕ

-- `AgentWallet::LEN`
abbrev pub len : ℕ
len = 8 + 4 + max_agent_id_len + 32 + 32 + 8 + 8 + 8 + 8 + 8 + 8 + 8 + 8 + 8 + 8 + 1 + 1 + 1

-- The bytes of a wallet with its discriminator in Borsh: a string is its length in four bytes and then
-- its own.
abbrev pub serialized_len : AgentWallet → ℕ
serialized_len w =
    8 + (4 + length w.agent_id) + 32 + 32 + 8 + 8 + 8 + 8 + 8 + 8 + 8 + 8 + 8 + 8 + 1 + 1 + 1

-- `AgentWallet::is_operational`
unfoldable pub is_operational : AgentWallet → Bool
is_operational w = w.is_active && not w.is_frozen

-- An `i64` result outside the type's range panics (`overflow-checks = true`).
checked_i64 : ℤ → Exec ℤ
checked_i64 a = ensure (fits_i64 a) arithmetic_overflow >> ok a

-- The body of the three functions below, which differ in the period and in the fields alone. A
-- window that has not elapsed keeps its spend and its start; `advance_window` is the other branch.
advance_window : ℕ → ℤ → ℤ → Exec (ℕ × ℤ)
unfolding checked_i64
advance_window period start now = do
  elapsed ← checked_i64 (now -ℤ start)
  shift ← checked_i64 (div_ℤ elapsed period *ℤ pos period)
  start' ← checked_i64 (start +ℤ shift)
  ok (0, start')

unfoldable pub reset_window : ℕ → ℕ → ℤ → ℤ → Exec (ℕ × ℤ)
unfolding checked_i64 advance_window
reset_window period spend start now = do
  end ← checked_i64 (start +ℤ pos period)
  if leb_ℤ end now then advance_window period start now else ok (spend, start)

-- `AgentWallet::reset_daily_window_if_elapsed`
unfoldable pub reset_daily_window_if_elapsed : AgentWallet → ℤ → Exec AgentWallet
reset_daily_window_if_elapsed w now = do
  (spend, start) ← reset_window seconds_per_day w.daily_spend w.daily_window_start now
  ok (record w { daily_spend = spend; daily_window_start = start })

-- `AgentWallet::reset_weekly_window_if_elapsed`
unfoldable pub reset_weekly_window_if_elapsed : AgentWallet → ℤ → Exec AgentWallet
reset_weekly_window_if_elapsed w now = do
  (spend, start) ← reset_window seconds_per_week w.weekly_spend w.weekly_window_start now
  ok (record w { weekly_spend = spend; weekly_window_start = start })

-- `AgentWallet::reset_monthly_window_if_elapsed`
unfoldable pub reset_monthly_window_if_elapsed : AgentWallet → ℤ → Exec AgentWallet
reset_monthly_window_if_elapsed w now = do
  (spend, start) ← reset_window seconds_per_month w.monthly_spend w.monthly_window_start now
  ok (record w { monthly_spend = spend; monthly_window_start = start })
