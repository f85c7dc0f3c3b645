-- ===== src/State/AgentWallet/Nested.antt =====
-- Accounting windows on one grid: the windows of programs/maxim_protocol/src/state/agent_wallet.rs
-- start together, and resets at one time keep the shorter one inside the longer one.
use maxim_contracts.Common.{ℕ, ◌+◌, ◌*◌, ◌/◌, ◌-◌, ◌≡◌, ◌≤◌, ◌<◌, inl, inr, arith}
use maxim_contracts.Common.Int.{ℤ, pos, ◌+ℤ◌, int_laws, parts_of_eq}
use maxim_contracts.State.AgentWallet.Windows.{WindowReset, seconds_between}

-- The inner window starts `k` inner periods after the outer one, within the outer window.
abbrev pub Nested : ℕ → ℕ → ℤ → ℤ → Type 0
Nested period count outer inner = (k : ℕ) × (k < count) × (inner ≡ outer +ℤ pos (k * period))

-- Two windows on one grid stay so when both are reset at one time.
pub Nested-week :
    (s s' t t' : ℕ) (outer outer' inner inner' now : ℤ)
    → Nested 86_400 7 outer inner
    → WindowReset 86_400 s inner now s' inner'
    → WindowReset 604_800 t outer now t' outer'
    → s ≤ t
    → Nested 86_400 7 outer' inner' × (s' ≤ t')
Nested-week s s' t t' outer outer' inner inner' now (k, small, e) (inl (a, b, c)) (inl (x, y, z))
      le =
    ((k, small, rw (c, z) e), omega arith)
Nested-week s s' t t' outer outer' inner inner' now (k, small, e) (inr (a, b, c, l, u))
      (inl (x, y, z)) le =
    let e' = parts_of_eq e in
    let c' = parts_of_eq c in
    let z' = parts_of_eq z in
    ((k + seconds_between inner now / 86_400, omega int_laws, omega int_laws), omega arith)
Nested-week s s' t t' outer outer' inner inner' now (k, small, e) (inl (a, b, c))
      (inr (x, y, z, l, u)) le =
    let e' = parts_of_eq e in absurd (omega int_laws)
Nested-week s s' t t' outer outer' inner inner' now (k, small, e) (inr (a, b, c, l, u))
      (inr (x, y, z, m, v)) le =
    let e' = parts_of_eq e in
    let c' = parts_of_eq c in
    let z' = parts_of_eq z in
    (
      (
        k + seconds_between inner now / 86_400 - 7 * (seconds_between outer now / 604_800),
        omega int_laws,
        omega int_laws,
      ),
      omega arith,
    )

pub Nested-month :
    (s s' t t' : ℕ) (outer outer' inner inner' now : ℤ)
    → Nested 86_400 30 outer inner
    → WindowReset 86_400 s inner now s' inner'
    → WindowReset 2_592_000 t outer now t' outer'
    → s ≤ t
    → Nested 86_400 30 outer' inner' × (s' ≤ t')
Nested-month s s' t t' outer outer' inner inner' now (k, small, e) (inl (a, b, c)) (inl (x, y, z))
      le =
    ((k, small, rw (c, z) e), omega arith)
Nested-month s s' t t' outer outer' inner inner' now (k, small, e) (inr (a, b, c, l, u))
      (inl (x, y, z)) le =
    let e' = parts_of_eq e in
    let c' = parts_of_eq c in
    let z' = parts_of_eq z in
    ((k + seconds_between inner now / 86_400, omega int_laws, omega int_laws), omega arith)
Nested-month s s' t t' outer outer' inner inner' now (k, small, e) (inl (a, b, c))
      (inr (x, y, z, l, u)) le =
    let e' = parts_of_eq e in absurd (omega int_laws)
Nested-month s s' t t' outer outer' inner inner' now (k, small, e) (inr (a, b, c, l, u))
      (inr (x, y, z, m, v)) le =
    let e' = parts_of_eq e in
    let c' = parts_of_eq c in
    let z' = parts_of_eq z in
    (
      (
        k + seconds_between inner now / 86_400 - 30 * (seconds_between outer now / 2_592_000),
        omega int_laws,
        omega int_laws,
      ),
      omega arith,
    )
