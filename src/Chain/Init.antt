-- ===== src/Chain/Init.antt =====
-- What `init` has checked when it succeeds, and when it succeeds.
use maxim_contracts.Common.{ℕ, ◌≡◌, some, none, arith}
use maxim_contracts.Errors.{ok}
use maxim_contracts.Platform.{Seeds, Runtime}
use maxim_contracts.Chain.{Chain, init}

pub init-eq-ok :
    (rt : Runtime) (chain : Chain) (payer k : ℕ) (seeds : Seeds) (space : ℕ) {bump : ℕ}
    → init rt chain payer k seeds space ≡ ok bump
    → (rt.find_address seeds ≡ some (k, bump)) × (chain.accounts k ≡ none)
unfolding init
init-eq-ok rt chain payer k seeds space h = (ground arith, ground arith)

pub init_succeeds :
    (rt : Runtime) (chain : Chain) (payer k : ℕ) (seeds : Seeds) (space bump : ℕ)
    → rt.find_address seeds ≡ some (k, bump)
    → chain.accounts k ≡ none
    → rt.allocate payer k space ≡ ok tt
    → init rt chain payer k seeds space ≡ ok bump
unfolding init
init_succeeds rt chain payer k seeds space bump found vacant allocated = ground arith

-- `init` looks at no account but the one that it makes.
pub init_local :
    (rt : Runtime) (chain other : Chain) (payer k : ℕ) (seeds : Seeds) (space : ℕ)
    → other.accounts k ≡ chain.accounts k
    → init rt other payer k seeds space ≡ init rt chain payer k seeds space
unfolding init
init_local rt chain other payer k seeds space same = rw same
