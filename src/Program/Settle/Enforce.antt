-- ===== src/Program/Settle/Enforce.antt =====
-- The on-chain enforcement of `settle_payment`.
use mathlib.Core.List.{Memᴰ}
use maxim_contracts.Common.{
  ℕ, ◌≤◌, ◌<◌, ◌≡◌, refl, ◌⊎◌, inl, inr, true, false, List, [], ◌∷◌, arith, contains, is_empty,
  u32_max, u64_max, saturating_add, Bool-cases, subst, ltb,
}
use maxim_contracts.Common.Int.{ℤ, pos, ◌+ℤ◌, fits_i64, leb_ℤ}
use maxim_contracts.Errors.{ok, Exec-cases}
use maxim_contracts.State.AgentWallet.{AgentWallet}
use maxim_contracts.State.SpendPolicy.{
  SpendPolicy, within_per_call_limit, within_daily_budget, within_weekly_budget,
  within_monthly_budget, within_rate_limit, reset_rate_window_if_elapsed,
}
use maxim_contracts.State.SpendPolicy.Limits.{
  Within, RateWindowElapsed, contains→mem, mem→contains, reset_rate_window_lem,
}
use maxim_contracts.Program.Params.{SettlePaymentParams}
use maxim_contracts.Program.Settle.{enforce_limits, enforce_policy, enforce_on_chain}

-- What the policy demands of a payment, without reference to the code's tests.
pub record Permitted (p : SpendPolicy) (w : AgentWallet) (params : SettlePaymentParams) (now : ℤ)
    : Type 0 where
  pub per_call : Within p.per_call_limit params.amount_usdc
  pub daily : Within p.daily_budget (saturating_add u64_max w.daily_spend params.amount_usdc)
  pub weekly : Within p.weekly_budget (saturating_add u64_max w.weekly_spend params.amount_usdc)
  pub monthly : Within p.monthly_budget (saturating_add u64_max w.monthly_spend params.amount_usdc)
  pub rate :
      (p.rate_limit_calls ≡ 0)
      ⊎ RateWindowElapsed p now
      ⊎ (p.rate_limit_call_count < p.rate_limit_calls)
  pub not_blocked : ¬ Memᴰ params.domain_hash p.blocked_domain_hashes
  pub listed : (p.allowed_domain_hashes ≡ []) ⊎ Memᴰ params.domain_hash p.allowed_domain_hashes

-- The test for an empty list is the list's own shape.
is_empty→nil {ℓ} : {A : Type ℓ} (xs : List A) → is_empty xs ≡ true → xs ≡ []
is_empty→nil [] h = refl
is_empty→nil (x ∷ xs) h = cc

module _ (p : SpendPolicy) (w : AgentWallet) (params : SettlePaymentParams) (now : ℤ)
    (q : SpendPolicy) (passed : enforce_limits p w params now ≡ ok q) where
  reset_passed : (r : SpendPolicy) × (reset_rate_window_if_elapsed p now ≡ ok r)
  unfolding enforce_limits
  reset_passed = elim (Exec-cases (reset_rate_window_if_elapsed p now)) [
    | inl (e, failed) ↦ absurd (ground arith)
    | inr r ↦ r
  ]

  domains_passed :
      (r : SpendPolicy)
      → reset_rate_window_if_elapsed p now ≡ ok r
      → ((is_empty r.blocked_domain_hashes ≡ true)
          ⊎ (contains params.domain_hash r.blocked_domain_hashes ≡ false))
        × ((is_empty r.allowed_domain_hashes ≡ true)
            ⊎ (contains params.domain_hash r.allowed_domain_hashes ≡ true))
  unfolding enforce_limits
  domains_passed r e = ground arith

  rate_passed :
      (r : SpendPolicy)
      → reset_rate_window_if_elapsed p now ≡ ok r
      → ((r.rate_limit_calls ≡ 0) ⊎ (r.rate_limit_call_count < r.rate_limit_calls))
        × (q
            ≡ record r { rate_limit_call_count = saturating_add u32_max r.rate_limit_call_count 1 })
  unfolding enforce_limits within_rate_limit
  rate_passed r e = ground arith

  pub limits_passed :
      Within p.per_call_limit params.amount_usdc
      × Within p.daily_budget (saturating_add u64_max w.daily_spend params.amount_usdc)
      × Within p.weekly_budget (saturating_add u64_max w.weekly_spend params.amount_usdc)
      × Within p.monthly_budget (saturating_add u64_max w.monthly_spend params.amount_usdc)
  unfolding enforce_limits within_per_call_limit within_daily_budget within_weekly_budget
      within_monthly_budget
  limits_passed = ground arith

-- The two domain tests, read as statements about membership.
not-mem_of_tests :
    (a : ℕ) (xs : List ℕ) → (is_empty xs ≡ true) ⊎ (contains a xs ≡ false) → ¬ Memᴰ a xs
not-mem_of_tests a [] h m = elim m [ ]
not-mem_of_tests a (x ∷ xs) (inl e) m = cc
not-mem_of_tests a (x ∷ xs) (inr e) m = cc (mem→contains a (x ∷ xs) m)

tests_of_not-mem : (a : ℕ) (xs : List ℕ) → ¬ Memᴰ a xs → contains a xs ≡ false
tests_of_not-mem a xs h = elim (Bool-cases (contains a xs)) [
  | inl found ↦ absurd (h (contains→mem a xs found))
  | inr missing ↦ missing
]

listed_of_tests :
    (a : ℕ) (xs : List ℕ) → (is_empty xs ≡ true) ⊎ (contains a xs ≡ true) → (xs ≡ []) ⊎ Memᴰ a xs
listed_of_tests a xs (inl e) = inl (is_empty→nil xs e)
listed_of_tests a xs (inr e) = inr (contains→mem a xs e)

tests_of_listed :
    (a : ℕ) (xs : List ℕ) → (xs ≡ []) ⊎ Memᴰ a xs → (is_empty xs ≡ true) ⊎ (contains a xs ≡ true)
tests_of_listed a xs (inl e) = inl (rw e)
tests_of_listed a xs (inr m) = inr (mem→contains a xs m)

-- The policy after a payment that it permitted: its limits stay, and the payment is counted in the
-- rate window, which begins anew at `now` if it had elapsed.
pub record Counted (p : SpendPolicy) (now : ℤ) (q : SpendPolicy) : Type 0 where
  pub kept : q ≡ record p {
    rate_limit_call_count = q.rate_limit_call_count;
    rate_limit_window_start = q.rate_limit_window_start;
  }
  pub window :
      (RateWindowElapsed p now × (q.rate_limit_window_start ≡ now) × (q.rate_limit_call_count ≡ 1))
      ⊎ ((¬ RateWindowElapsed p now)
          × (q.rate_limit_window_start ≡ p.rate_limit_window_start)
          × (q.rate_limit_call_count ≡ saturating_add u32_max p.rate_limit_call_count 1))
  pub within : Within p.rate_limit_calls q.rate_limit_call_count

module _ (p : SpendPolicy) (w : AgentWallet) (params : SettlePaymentParams) (now : ℤ)
    (q : SpendPolicy) (passed : enforce_limits p w params now ≡ ok q) where
  pub enforce_limits-Permitted : Permitted p w params now
  enforce_limits-Permitted =
      let (r, reset) = reset_passed p w params now q passed in
      let (blocked, allowed) = domains_passed p w params now q passed r reset in
      let (rate, same) = rate_passed p w params now q passed r reset in
      let (a, b, c, d) = limits_passed p w params now q passed in
      let not_blocked = not-mem_of_tests params.domain_hash r.blocked_domain_hashes blocked in
      let listed = listed_of_tests params.domain_hash r.allowed_domain_hashes allowed in
      elim (reset_rate_window_lem p now reset) [
        | inl (elapsed, e) ↦ record {
          per_call = a;
          daily = b;
          weekly = c;
          monthly = d;
          rate = inr (inl elapsed);
          not_blocked =
              subst (λ (s : SpendPolicy). ¬ Memᴰ params.domain_hash s.blocked_domain_hashes) e
                not_blocked;
          listed =
              subst
                (λ (s : SpendPolicy).
                  (s.allowed_domain_hashes ≡ []) ⊎ Memᴰ params.domain_hash s.allowed_domain_hashes)
                e listed;
        }
        | inr (open_window, e) ↦ record {
          per_call = a;
          daily = b;
          weekly = c;
          monthly = d;
          rate = ground arith;
          not_blocked =
              subst (λ (s : SpendPolicy). ¬ Memᴰ params.domain_hash s.blocked_domain_hashes) e
                not_blocked;
          listed =
              subst
                (λ (s : SpendPolicy).
                  (s.allowed_domain_hashes ≡ []) ⊎ Memᴰ params.domain_hash s.allowed_domain_hashes)
                e listed;
        }
      ]

  pub enforce_limits-Counted : Counted p now q
  enforce_limits-Counted =
      let (r, reset) = reset_passed p w params now q passed in
      let (rate, same) = rate_passed p w params now q passed r reset in
      ground (arith, reset_rate_window_lem p now reset)

-- The converse: what the policy demands is enough, if the end of the rate window is in range.
module _ (p : SpendPolicy) (w : AgentWallet) (params : SettlePaymentParams) (now : ℤ)
    (permitted : Permitted p w params now)
    (in_range : fits_i64 (p.rate_limit_window_start +ℤ pos p.rate_limit_window_secs) ≡ true) where
  reset_in_range :
      (r : SpendPolicy) × (reset_rate_window_if_elapsed p now ≡ ok r)
      × (r.blocked_domain_hashes ≡ p.blocked_domain_hashes)
      × (r.allowed_domain_hashes ≡ p.allowed_domain_hashes)
      × (within_rate_limit r ≡ true)
  unfolding reset_rate_window_if_elapsed within_rate_limit
  reset_in_range =
      elim (Bool-cases (leb_ℤ (p.rate_limit_window_start +ℤ pos p.rate_limit_window_secs) now)) [
        | inl elapsed ↦ elim (Bool-cases (ltb 0 p.rate_limit_window_secs)) [
          | inl timed ↦ (
            record p { rate_limit_call_count = 0; rate_limit_window_start = now },
            ground arith,
            refl,
            refl,
            ground arith,
          )
          | inr untimed ↦ (p, ground arith, refl, refl, ground (arith, permitted.rate))
        ]
        | inr before ↦ (p, ground arith, refl, refl, ground (arith, permitted.rate))
      ]

  limits_in_range :
      (within_per_call_limit p params.amount_usdc ≡ true)
      × (within_daily_budget p w.daily_spend params.amount_usdc ≡ true)
      × (within_weekly_budget p w.weekly_spend params.amount_usdc ≡ true)
      × (within_monthly_budget p w.monthly_spend params.amount_usdc ≡ true)
  unfolding within_per_call_limit within_daily_budget within_weekly_budget within_monthly_budget
  limits_in_range = ground arith

  -- Enforcement lets every payment pass that the limits, the rate and the domain lists permit, if
  -- the end of the rate window is an `i64`.
  pub Permitted-enforce_limits : (q : SpendPolicy) × (enforce_limits p w params now ≡ ok q)
  unfolding enforce_limits
  Permitted-enforce_limits =
      let (r, reset, blocked, allowed, rate) = reset_in_range in
      let (a, b, c, d) = limits_in_range in
      let free =
        tests_of_not-mem params.domain_hash p.blocked_domain_hashes permitted.not_blocked in
      let listed = tests_of_listed params.domain_hash p.allowed_domain_hashes permitted.listed in
      (
        record r { rate_limit_call_count = saturating_add u32_max r.rate_limit_call_count 1 },
        ground arith,
      )

-- Enforcement runs at or above a positive threshold, and else leaves the policy alone.
pub enforce_policy_branches :
    (p : SpendPolicy) (w : AgentWallet) (params : SettlePaymentParams) (now : ℤ) (q : SpendPolicy)
    → enforce_policy p w params now ≡ ok q
    → ((0 < p.high_value_threshold)
        × (p.high_value_threshold ≤ params.amount_usdc)
        × (enforce_limits p w params now ≡ ok q))
      ⊎ (((p.high_value_threshold ≡ 0) ⊎ (params.amount_usdc < p.high_value_threshold)) × (q ≡ p))
unfolding enforce_policy
enforce_policy_branches p w params now q h =
    elim (Bool-cases (enforce_on_chain p params.amount_usdc)) [
      | inl on ↦ inl (ground arith, ground arith, ground arith)
      | inr off ↦ inr (ground arith, ground arith)
    ]

-- Whether or not it ran, enforcement changes nothing of the policy but its rate window.
pub enforce_policy_kept :
    (p : SpendPolicy) (w : AgentWallet) (params : SettlePaymentParams) (now : ℤ) (q : SpendPolicy)
    → enforce_policy p w params now ≡ ok q
    → q ≡ record p {
      rate_limit_call_count = q.rate_limit_call_count;
      rate_limit_window_start = q.rate_limit_window_start;
    }
enforce_policy_kept p w params now q h = elim (enforce_policy_branches p w params now q h) [
  | inl (_, _, run) ↦ (enforce_limits-Counted p w params now q run).kept
  | inr (_, same) ↦ rw same
]
