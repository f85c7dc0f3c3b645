-- ===== src/Common/Map.antt =====
-- Finite maps keyed by numbers, as functions.
use Prim.Native.Nat.{ℕ}
use mathlib.Core.Path.{◌≡◌, refl}
use mathlib.Core.Logic.{◌≢◌}
use native.Mathlib.Omega.{arith}
use maxim_contracts.Common.Tests.{◌==◌, if◌then◌else◌}

module _ {ℓ} {V : Type ℓ} where
  -- The map `m` with the value `v` at `k`.
  unfoldable pub update : (ℕ → V) → ℕ → V → ℕ → V
  update m k v j = if k == j then v else m j

  pub update_lem :
      (m : ℕ → V) (k : ℕ) (v : V) (j : ℕ) → update m k v j ≡ (if k == j then v else m j)
  unfolding update
  update_lem m k v j = refl

  pub update_self : (m : ℕ → V) (k : ℕ) (v : V) → update m k v k ≡ v
  unfolding update
  update_self m k v = ground arith

  pub update_ne : (m : ℕ → V) (k : ℕ) (v : V) (j : ℕ) → j ≢ k → update m k v j ≡ m j
  unfolding update
  update_ne m k v j ne = ground arith
