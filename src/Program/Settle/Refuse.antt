-- ===== src/Program/Settle/Refuse.antt =====
-- Why the on-chain enforcement of `settle_payment` refuses a payment.
use mathlib.Core.List.{Memᴰ}
use maxim_contracts.Common.{
  ℕ, ◌≡◌, ◌≢◌, ◌≤◌, ◌<◌, ◌⊎◌, inl, inr, true, false, List, [], ◌∷◌, arith, contains, is_empty,
  u64_max, saturating_add, Bool-cases,
}
use maxim_contracts.Common.Int.{ℤ, pos, ◌+ℤ◌, fits_i64}
use maxim_contracts.Errors.{
  Failure, ok, err, maxim, arithmetic_overflow, per_call_limit_exceeded, daily_budget_exceeded,
  weekly_budget_exceeded, monthly_budget_exceeded, rate_limit_exceeded, domain_blocked,
  domain_not_allowed, Exec-cases,
}
use maxim_contracts.State.AgentWallet.{AgentWallet}
use maxim_contracts.State.SpendPolicy.{
  SpendPolicy, within_per_call_limit, within_daily_budget, within_weekly_budget,
  within_monthly_budget, within_rate_limit, reset_rate_window_if_elapsed,
}
use maxim_contracts.State.SpendPolicy.Limits.{
  Within, RateWindowElapsed, contains→mem, mem→contains, reset_rate_window_lem,
}
use maxim_contracts.Program.Params.{SettlePaymentParams}
use maxim_contracts.Program.Settle.{enforce_limits}

-- The error of a refusal, with the demand that the payment broke.
pub data Refusal (p : SpendPolicy) (w : AgentWallet) (params : SettlePaymentParams) (now : ℤ)
    (e : Failure) : Type 0 where
  over_call :
      e ≡ maxim per_call_limit_exceeded
      → ¬ Within p.per_call_limit params.amount_usdc
      → Refusal p w params now e
  over_day :
      e ≡ maxim daily_budget_exceeded
      → ¬ Within p.daily_budget (saturating_add u64_max w.daily_spend params.amount_usdc)
      → Refusal p w params now e
  over_week :
      e ≡ maxim weekly_budget_exceeded
      → ¬ Within p.weekly_budget (saturating_add u64_max w.weekly_spend params.amount_usdc)
      → Refusal p w params now e
  over_month :
      e ≡ maxim monthly_budget_exceeded
      → ¬ Within p.monthly_budget (saturating_add u64_max w.monthly_spend params.amount_usdc)
      → Refusal p w params now e
  out_of_range :
      e ≡ arithmetic_overflow
      → fits_i64 (p.rate_limit_window_start +ℤ pos p.rate_limit_window_secs) ≡ false
      → Refusal p w params now e
  over_rate :
      e ≡ maxim rate_limit_exceeded
      → ¬ RateWindowElapsed p now
      → 0 < p.rate_limit_calls
      → p.rate_limit_calls ≤ p.rate_limit_call_count
      → Refusal p w params now e
  blocked :
      e ≡ maxim domain_blocked
      → Memᴰ params.domain_hash p.blocked_domain_hashes
      → Refusal p w params now e
  unlisted :
      e ≡ maxim domain_not_allowed
      → p.allowed_domain_hashes ≢ []
      → ¬ Memᴰ params.domain_hash p.allowed_domain_hashes
      → Refusal p w params now e

reset_refused :
    (p : SpendPolicy) (now : ℤ) (e : Failure)
    → reset_rate_window_if_elapsed p now ≡ err e
    → (e ≡ arithmetic_overflow)
      × (fits_i64 (p.rate_limit_window_start +ℤ pos p.rate_limit_window_secs) ≡ false)
unfolding reset_rate_window_if_elapsed
reset_refused p now e h = ground arith

-- The four limits on amounts, as tests.
limits_or_refused :
    (p : SpendPolicy) (w : AgentWallet) (params : SettlePaymentParams) (now : ℤ) (e : Failure)
    → enforce_limits p w params now ≡ err e
    → Refusal p w params now e
      ⊎ ((within_per_call_limit p params.amount_usdc ≡ true)
          × (within_daily_budget p w.daily_spend params.amount_usdc ≡ true)
          × (within_weekly_budget p w.weekly_spend params.amount_usdc ≡ true)
          × (within_monthly_budget p w.monthly_spend params.amount_usdc ≡ true))
unfolding enforce_limits within_per_call_limit within_daily_budget within_weekly_budget
    within_monthly_budget
limits_or_refused p w params now e h =
    elim (Bool-cases (within_per_call_limit p params.amount_usdc)) [
      | inr call ↦ inl (over_call (ground arith) (λ k. ground (arith, k)))
      | inl a ↦ elim (Bool-cases (within_daily_budget p w.daily_spend params.amount_usdc)) [
        | inr day ↦ inl (over_day (ground arith) (λ k. ground (arith, k)))
        | inl b ↦ elim (Bool-cases (within_weekly_budget p w.weekly_spend params.amount_usdc)) [
          | inr week ↦ inl (over_week (ground arith) (λ k. ground (arith, k)))
          | inl c ↦ elim (Bool-cases (within_monthly_budget p w.monthly_spend params.amount_usdc)) [
            | inr month ↦ inl (over_month (ground arith) (λ k. ground (arith, k)))
            | inl d ↦ inr (a, b, c, d)
          ]
        ]
      ]
    ]

module _ (p : SpendPolicy) (w : AgentWallet) (params : SettlePaymentParams) (now : ℤ) (e : Failure)
    (refused : enforce_limits p w params now ≡ err e)
    (a : within_per_call_limit p params.amount_usdc ≡ true)
    (b : within_daily_budget p w.daily_spend params.amount_usdc ≡ true)
    (c : within_weekly_budget p w.weekly_spend params.amount_usdc ≡ true)
    (d : within_monthly_budget p w.monthly_spend params.amount_usdc ≡ true) where
  -- The rest of the tests, over the policy `r` whose rate window was reset.
  rate_or_domain :
      (r : SpendPolicy)
      → reset_rate_window_if_elapsed p now ≡ ok r
      → ((within_rate_limit r ≡ false) × (e ≡ maxim rate_limit_exceeded))
        ⊎ ((contains params.domain_hash r.blocked_domain_hashes ≡ true)
            × (e ≡ maxim domain_blocked))
        ⊎ ((is_empty r.allowed_domain_hashes ≡ false)
            × (contains params.domain_hash r.allowed_domain_hashes ≡ false)
            × (e ≡ maxim domain_not_allowed))
  unfolding enforce_limits
  rate_or_domain r reset = ground arith

nonempty_lem : (xs : List ℕ) → is_empty xs ≡ false → xs ≢ []
nonempty_lem [] h e = cc
nonempty_lem (x ∷ xs) h e = cc

mem-absent : (k : ℕ) (xs : List ℕ) → contains k xs ≡ false → ¬ Memᴰ k xs
mem-absent k xs h m = cc (mem→contains k xs m)

-- A payment that the enforcement refuses breaks a demand of the policy, and the error names it: a
-- limit, a budget, the rate in a window that has not run out, the blocklist or the allowlist; or the
-- end of the rate window is no `i64`.
pub enforce_limits-Refusal :
    (p : SpendPolicy) (w : AgentWallet) (params : SettlePaymentParams) (now : ℤ) (e : Failure)
    → enforce_limits p w params now ≡ err e
    → Refusal p w params now e
unfolding within_rate_limit enforce_limits
enforce_limits-Refusal p w params now e h = elim (limits_or_refused p w params now e h) [
  | inl refusal ↦ refusal
  | inr (a, b, c, d) ↦ elim (Exec-cases (reset_rate_window_if_elapsed p now)) [
    | inl (f, failed) ↦
        let (overflow, over) = reset_refused p now f failed in
        let same : e ≡ f = ground arith in out_of_range (cc (same, overflow)) over
    | inr (r, reset) ↦ elim (rate_or_domain p w params now e h a b c d r reset) [
      | inl (rate, error) ↦ elim (reset_rate_window_lem p now reset) [
        | inl (elapsed, q) ↦ absurd (ground arith)
        | inr (open_window, q) ↦ over_rate error open_window (ground arith) (ground arith)
      ]
      | inr (inl (found, error)) ↦ blocked error (
          contains→mem params.domain_hash p.blocked_domain_hashes
            (ground (arith, reset_rate_window_lem p now reset)))
      | inr (inr (listed, missing, error)) ↦
          unlisted error
            (nonempty_lem p.allowed_domain_hashes
              (ground (arith, reset_rate_window_lem p now reset)))
            (mem-absent params.domain_hash p.allowed_domain_hashes
              (ground (arith, reset_rate_window_lem p now reset)))
    ]
  ]
]
