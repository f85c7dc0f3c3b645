-- ===== src/State/SpendPolicy.antt =====
-- programs/maxim_protocol/src/state/spend_policy.rs. Amounts are `u64`, counts and durations `u32`,
-- and a SHA-256 hash is a number, since the program only compares it.
pub mod Limits
use maxim_contracts.Common.{
  length, ℕ, ◌+◌, ◌*◌, Bool, ◌&&◌, ◌||◌, List, ltb, leb, ◌==◌, if◌then◌else◌, u64_max,
  saturating_add,
}
use maxim_contracts.Common.Int.{ℤ, pos, leb_ℤ, ◌+ℤ◌, fits_i64}
use maxim_contracts.Errors.{Exec, ok, ◌>>◌, ensure, arithmetic_overflow}

-- `MAX_DOMAIN_ENTRIES`
abbrev pub max_domain_entries : ℕ
max_domain_entries = 32

pub record SpendPolicy : Type 0 where
  pub agent_wallet : ℕ
  pub daily_budget : ℕ
  pub weekly_budget : ℕ
  pub monthly_budget : ℕ
  pub per_call_limit : ℕ
  pub rate_limit_calls : ℕ
  pub rate_limit_window_secs : ℕ
  pub rate_limit_call_count : ℕ
  pub rate_limit_window_start : ℤ
  pub high_value_threshold : ℕ
  pub allowed_domain_hashes : List ℕ
  pub blocked_domain_hashes : List ℕ
  pub bump : ℕ

-- `SpendPolicy::LEN`
abbrev pub len : ℕ
len =
    8
    + 32
    + 8
    + 8
    + 8
    + 8
    + 4
    + 4
    + 4
    + 8
    + 8
    + 4
    + max_domain_entries * 32
    + 4
    + max_domain_entries * 32
    + 1

-- The bytes of a policy with its discriminator in Borsh: a vector is its length in four bytes and then
-- its elements, here hashes of 32 bytes.
abbrev pub serialized_len : SpendPolicy → ℕ
serialized_len p =
    8
    + 32
    + 8
    + 8
    + 8
    + 8
    + 4
    + 4
    + 4
    + 8
    + 8
    + (4 + length p.allowed_domain_hashes * 32)
    + (4 + length p.blocked_domain_hashes * 32)
    + 1

-- `SpendPolicy::within_per_call_limit`
unfoldable pub within_per_call_limit : SpendPolicy → ℕ → Bool
within_per_call_limit p amount = p.per_call_limit == 0 || leb amount p.per_call_limit

-- `SpendPolicy::within_daily_budget`
unfoldable pub within_daily_budget : SpendPolicy → ℕ → ℕ → Bool
within_daily_budget p current_spend amount =
    p.daily_budget == 0 || leb (saturating_add u64_max current_spend amount) p.daily_budget

-- `SpendPolicy::within_weekly_budget`
unfoldable pub within_weekly_budget : SpendPolicy → ℕ → ℕ → Bool
within_weekly_budget p current_spend amount =
    p.weekly_budget == 0 || leb (saturating_add u64_max current_spend amount) p.weekly_budget

-- `SpendPolicy::within_monthly_budget`
unfoldable pub within_monthly_budget : SpendPolicy → ℕ → ℕ → Bool
within_monthly_budget p current_spend amount =
    p.monthly_budget == 0 || leb (saturating_add u64_max current_spend amount) p.monthly_budget

-- `SpendPolicy::within_rate_limit`
unfoldable pub within_rate_limit : SpendPolicy → Bool
within_rate_limit p = p.rate_limit_calls == 0 || ltb p.rate_limit_call_count p.rate_limit_calls

-- `SpendPolicy::reset_rate_window_if_elapsed`. The sum is only formed when the window has a length.
unfoldable pub reset_rate_window_if_elapsed : SpendPolicy → ℤ → Exec SpendPolicy
reset_rate_window_if_elapsed p now =
    if ltb 0 p.rate_limit_window_secs
    then ensure (fits_i64 end) arithmetic_overflow
      >> ok (
          if leb_ℤ end now
          then record p { rate_limit_call_count = 0; rate_limit_window_start = now }
          else p)
    else ok p
  where
    end : ℤ
    end = p.rate_limit_window_start +ℤ pos p.rate_limit_window_secs
