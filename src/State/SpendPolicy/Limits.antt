-- ===== src/State/SpendPolicy/Limits.antt =====
-- The limits of programs/maxim_protocol/src/state/spend_policy.rs as conditions on numbers and lists.
use mathlib.Core.List.{Memᴰ}
use maxim_contracts.Common.{
  ℕ, ◌≤◌, ◌<◌, ◌≡◌, ◌⊎◌, inl, inr, true, List, [], ◌∷◌, arith, ◌==◌, contains, Bool-cases,
}
use maxim_contracts.Common.Int.{ℤ, pos, ◌+ℤ◌, ◌≤ℤ◌}
use maxim_contracts.Errors.{ok}
use maxim_contracts.State.SpendPolicy.{SpendPolicy, reset_rate_window_if_elapsed}

-- A limit of zero is disabled.
abbrev pub Within : ℕ → ℕ → Type 0
Within limit n = (limit ≡ 0) ⊎ (n ≤ limit)

pub contains→mem : (a : ℕ) (xs : List ℕ) → contains a xs ≡ true → Memᴰ a xs
contains→mem a [] h = cc
contains→mem a (x ∷ xs) h = elim (Bool-cases (x == a)) [
  | inl same ↦ let e : a ≡ x = ground arith in Memᴰ.head e
  | inr other ↦ Memᴰ.tail (contains→mem a xs (ground arith))
]

pub mem→contains : (a : ℕ) (xs : List ℕ) → Memᴰ a xs → contains a xs ≡ true
mem→contains a [] m = elim m [ ]
mem→contains a (x ∷ xs) (Memᴰ.head e) = ground arith
mem→contains a (x ∷ xs) (Memᴰ.tail m) = ground (arith, mem→contains a xs m)

-- The window of the rate limit has run out at `now`.
abbrev pub RateWindowElapsed : SpendPolicy → ℤ → Type 0
RateWindowElapsed p now =
    (0 < p.rate_limit_window_secs)
    × (p.rate_limit_window_start +ℤ pos p.rate_limit_window_secs ≤ℤ now)

-- A reset that succeeds restarts the rate window at the present with a count of zero when the window
-- is timed and has run out, and leaves the policy as it is when not.
pub reset_rate_window_lem :
    (p : SpendPolicy) (now : ℤ) {q : SpendPolicy}
    → reset_rate_window_if_elapsed p now ≡ ok q
    → (RateWindowElapsed p now
        × (q ≡ record p { rate_limit_call_count = 0; rate_limit_window_start = now }))
      ⊎ ((¬ RateWindowElapsed p now) × (q ≡ p))
unfolding reset_rate_window_if_elapsed
reset_rate_window_lem p now h = ground arith
