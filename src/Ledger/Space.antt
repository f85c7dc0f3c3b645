-- ===== src/Ledger/Space.antt =====
-- The accounts of the program fit the space that is allocated for them.
use maxim_contracts.Common.{ℕ, ◌≡◌, ◌≤◌, some, length, arith, sym, subst, ◌∙◌}
use maxim_contracts.Errors.{ok}
use maxim_contracts.Platform.{Runtime, Env}
use maxim_contracts.State.ProtocolConfig.{serialized_len as config_len, len as config_space}
use maxim_contracts.State.AgentWallet.{
  AgentWallet, max_agent_id_len, serialized_len as wallet_len, len as wallet_space,
}
use maxim_contracts.State.SpendPolicy.{
  SpendPolicy, serialized_len as policy_len, len as policy_space,
}
use maxim_contracts.State.PaymentRecord.{
  PaymentRecord, serialized_len as payment_len, len as payment_space,
}
use maxim_contracts.Chain.{Chain, Account, config, wallet, policy, payment, check_space}
use maxim_contracts.Program.Dispatch.{call, outside, Reach, here, next}
use maxim_contracts.Ledger.Slot.{
  FitsDomains, Slot, kept, config_made, config_rotated, config_capped, wallet_made, wallet_changed,
  wallet_closed, policy_made, policy_replaced, policy_counted, policy_closed, payment_made,
}
use maxim_contracts.Ledger.Execute.{execute-Slot}
use maxim_contracts.Ledger.Wallets.{wallets-IsWellFormed}
use maxim_contracts.Ledger.Policies.{policies_fit}

-- The bytes that an account has, and those that `init` allocated for it.
abbrev pub account_len : Account → ℕ
account_len (config c) = config_len c
account_len (wallet w) = wallet_len w
account_len (policy p) = policy_len p
account_len (payment r) = payment_len r

abbrev pub account_space : Account → ℕ
account_space (config c) = config_space
account_space (wallet w) = wallet_space
account_space (policy p) = policy_space
account_space (payment r) = payment_space

wallet-fits : (w : AgentWallet) → length w.agent_id ≤ max_agent_id_len → wallet_len w ≤ wallet_space
wallet-fits w h = omega (arith, h)

policy-fits : (p : SpendPolicy) → FitsDomains p → policy_len p ≤ policy_space
policy-fits p f = omega (arith, f.allowed, f.blocked)

payment-fits : (r : PaymentRecord) → check_space r ≡ ok tt → payment_len r ≤ payment_space
unfolding check_space
payment-fits r h = ground arith

Slot-payment_fits :
    {rt : Runtime} {env : Env} {chain chain' : Chain} {k : ℕ} (r : PaymentRecord)
    → Slot rt env chain chain' k
    → ((q : PaymentRecord) → chain.accounts k ≡ some (payment q) → payment_len q ≤ payment_space)
    → chain'.accounts k ≡ some (payment r)
    → payment_len r ≤ payment_space
Slot-payment_fits r (kept e) before h = before r (sym e ∙ h)
Slot-payment_fits r (config_made d v a b e) before h = cc
Slot-payment_fits r (config_rotated d a b s n e) before h = cc
Slot-payment_fits r (config_capped d a b s e) before h = cc
Slot-payment_fits r (wallet_made x i b n v s d e) before h = cc
Slot-payment_fits r (wallet_changed v v' b s e) before h = cc
Slot-payment_fits r (wallet_closed v b s i e) before h = cc
Slot-payment_fits r (policy_made p v f y e) before h = cc
Slot-payment_fits r (policy_replaced p q b f y e) before h = cc
Slot-payment_fits r (policy_counted p q b s y e) before h = cc
Slot-payment_fits r (policy_closed p b y e) before h = cc
Slot-payment_fits r (payment_made q v z e) before h =
    let same : q ≡ r = cc in
    subst (λ (p : PaymentRecord). payment_len p ≤ payment_space) same (payment-fits q z)

payments_fit :
    {rt : Runtime} {chain : Chain} (k : ℕ) (r : PaymentRecord)
    → Reach rt chain
    → chain.accounts k ≡ some (payment r)
    → payment_len r ≤ payment_space
payments_fit k r (here fresh) h = cc (fresh.empty k)
payments_fit {rt} k r (next {chain = chain} reach (call env ix events e)) h =
    Slot-payment_fits r (execute-Slot rt env chain ix e k) (λ q b. payments_fit k q reach b) h
payments_fit k r (next reach (outside tokens e)) h = payments_fit k r reach (rw e at h)

-- On every chain that the program can lead to, every account, of whichever kind, has at most the
-- bytes that its `LEN` allocated for it.
pub accounts_fit :
    {rt : Runtime} {chain : Chain} (k : ℕ) (a : Account)
    → Reach rt chain
    → chain.accounts k ≡ some a
    → account_len a ≤ account_space a
accounts_fit k (config c) reach h = omega arith
accounts_fit k (wallet w) reach h = wallet-fits w (wallets-IsWellFormed k w reach h).valid_id.fits
accounts_fit k (policy p) reach h = policy-fits p (policies_fit k p reach h)
accounts_fit k (payment r) reach h = payments_fit k r reach h
