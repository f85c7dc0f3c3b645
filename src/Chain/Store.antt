-- ===== src/Chain/Store.antt =====
-- Reading an account after others were written or closed.
use maxim_contracts.Common.{ℕ, ◌≡◌, refl, none, some, ◌==◌, if◌then◌else◌, update}
use maxim_contracts.Chain.{Account, Chain, set_account, close_account}

pub accounts-set_account :
    (k : ℕ) (a : Account) (chain : Chain) (j : ℕ)
    → (set_account k a chain).accounts j ≡ (if k == j then some a else chain.accounts j)
unfolding set_account update
accounts-set_account k a chain j = refl

pub tokens-set_account :
    (k : ℕ) (a : Account) (chain : Chain) → (set_account k a chain).tokens ≡ chain.tokens
unfolding set_account
tokens-set_account k a chain = refl

pub accounts-close_account :
    (k : ℕ) (chain : Chain) (j : ℕ)
    → (close_account k chain).accounts j ≡ (if k == j then none else chain.accounts j)
unfolding close_account update
accounts-close_account k chain j = refl

pub tokens-close_account : (k : ℕ) (chain : Chain) → (close_account k chain).tokens ≡ chain.tokens
unfolding close_account
tokens-close_account k chain = refl
