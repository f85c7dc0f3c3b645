-- ===== src/State/AgentWallet/Windows.antt =====
-- The accounting windows of programs/maxim_protocol/src/state/agent_wallet.rs: what a reset does on
-- either branch, and when its `i64` arithmetic stays in range.
use native.Mathlib.Nat.{div-add-mod', mod-lt}
use maxim_contracts.Common.{
  ℕ, ◌+◌, ◌-◌, ◌*◌, ◌/◌, ◌≤◌, ◌<◌, ◌≡◌, ◌⊎◌, inl, inr, arith, Bool-cases, leb,
}
use maxim_contracts.Common.Int.{
  ℤ, pos, pos_part, neg_part, ◌+ℤ◌, ◌-ℤ◌, ◌*ℤ◌, div_ℤ, ◌≤ℤ◌, ◌<ℤ◌, leb_ℤ, i64_max, int_laws,
}
use maxim_contracts.Errors.{ok, err, arithmetic_overflow}
use maxim_contracts.State.AgentWallet.{advance_window, reset_window}

-- The seconds from `start` to a later `now`.
abbrev pub seconds_between : ℤ → ℤ → ℕ
seconds_between start now = pos_part now + neg_part start - (pos_part start + neg_part now)

-- What a reset with this period does: nothing before the window's end; from then on the spend is
-- cleared and the start moves by whole periods to the window that holds `now`.
abbrev pub WindowReset : ℕ → ℕ → ℤ → ℤ → ℕ → ℤ → Type 0
WindowReset period spend start now spend' start' =
    ((now <ℤ start +ℤ pos period) × (spend' ≡ spend) × (start' ≡ start))
    ⊎ ((start +ℤ pos period ≤ℤ now)
        × (spend' ≡ 0)
        × (start' ≡ start +ℤ pos (seconds_between start now / period * period))
        × (start' ≤ℤ now)
        × (now <ℤ start' +ℤ pos period))

sub-eq-pos : (a b : ℤ) → a ≤ℤ b → b -ℤ a ≡ pos (seconds_between a b)
sub-eq-pos a b h = omega int_laws

div-pos : (e p : ℕ) → div_ℤ (pos e) p ≡ pos (e / p)
unfolding div_ℤ
div-pos e p = ground arith

mul-pos : (q p : ℕ) → pos q *ℤ pos p ≡ pos (q * p)
unfolding ◌*ℤ◌
mul-pos q p = ground arith

elapsed_bounds :
    (period e : ℕ) → 0 < period → (e / period * period ≤ e) × (e < e / period * period + period)
elapsed_bounds period e h = omega (arith, div-add-mod' e period, mod-lt e {m = period} h)

advance_window_start :
    (period : ℕ) (start now : ℤ) {spend' : ℕ} {start' : ℤ}
    → start ≤ℤ now
    → advance_window period start now ≡ ok (spend', start')
    → (spend' ≡ 0) × (start' ≡ start +ℤ pos (seconds_between start now / period * period))
unfolding advance_window
advance_window_start period start now le h = ground (
  arith,
  sub-eq-pos start now le,
  div-pos (seconds_between start now) period,
  mul-pos (seconds_between start now / period) period,
)

reset_window_branches :
    (period spend : ℕ) (start now : ℤ) {spend' : ℕ} {start' : ℤ}
    → reset_window period spend start now ≡ ok (spend', start')
    → ((now <ℤ start +ℤ pos period) × (spend' ≡ spend) × (start' ≡ start))
      ⊎ ((start +ℤ pos period ≤ℤ now) × (advance_window period start now ≡ ok (spend', start')))
unfolding reset_window
reset_window_branches period spend start now h =
    elim (Bool-cases (leb_ℤ (start +ℤ pos period) now)) [
      | inl reached ↦ inr (ground arith, ground arith)
      | inr before ↦ inl (ground arith, ground arith, ground arith)
    ]

-- With a positive period, a reset that succeeds does one of two things: before the window's end it
-- leaves spend and start; from then on it clears the spend and moves the start by whole periods to
-- the window that holds the present.
pub reset_window-WindowReset :
    (period spend : ℕ) (start now : ℤ) {spend' : ℕ} {start' : ℤ}
    → 0 < period
    → reset_window period spend start now ≡ ok (spend', start')
    → WindowReset period spend start now spend' start'
reset_window-WindowReset period spend start now {spend'} {start'} positive h =
    elim (reset_window_branches period spend start now h) [
      | inl before ↦ inl before
      | inr (reached, advanced) ↦
          let (cleared, moved) = advance_window_start period start now (omega int_laws) advanced in
          let (low, high) = elapsed_bounds period (seconds_between start now) positive in
          inr (reached, cleared, moved, rw moved (omega int_laws), rw moved (omega int_laws))
    ]

add-pos : (a b : ℕ) → pos a +ℤ pos b ≡ pos (a + b)
unfolding ◌+ℤ◌
add-pos a b = ground arith

sub-pos : (a b : ℕ) → b ≤ a → pos a -ℤ pos b ≡ pos (a - b)
sub-pos a b h = omega int_laws

advance_window_total :
    (period start now : ℕ)
    → 0 < period
    → start ≤ now
    → now ≤ i64_max
    → advance_window period (pos start) (pos now)
      ≡ ok (0, pos (start + (now - start) / period * period))
unfolding advance_window
advance_window_total period start now positive le fits =
    let periods : ℕ = (now - start) / period in
    let bounds : (periods * period ≤ now - start) × (now - start < periods * period + period) =
      elapsed_bounds period (now - start) positive in
    ground (
      arith,
      sub-pos now start le,
      div-pos (now - start) period,
      mul-pos periods period,
      add-pos start (periods * period),
      bounds,
    )

-- With times from 1970 on and a positive period, a reset succeeds when the window's end is at most
-- `i64::MAX`, and fails with an arithmetic overflow when it is above.
pub reset_window_total :
    (period spend start now : ℕ)
    → 0 < period
    → now ≤ i64_max
    → ((start + period ≤ i64_max)
        × ((r : ℕ × ℤ) × (reset_window period spend (pos start) (pos now) ≡ ok r)))
      ⊎ ((i64_max < start + period)
          × (reset_window period spend (pos start) (pos now) ≡ err arithmetic_overflow))
unfolding reset_window
reset_window_total period spend start now positive fits =
    elim (Bool-cases (leb (start + period) i64_max)) [
      | inl inside ↦ inl (
        ground arith,
        elim (Bool-cases (leb (start + period) now)) [
          | inl reached ↦ (
            (0, pos (start + (now - start) / period * period)),
            ground (
              arith,
              add-pos start period,
              advance_window_total period start now positive (ground arith) fits,
            ),
          )
          | inr before ↦ ((spend, pos start), ground (arith, add-pos start period))
        ],
      )
      | inr outside ↦ inr (ground arith, ground (arith, add-pos start period))
    ]
