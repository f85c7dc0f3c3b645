-- ===== src/Ledger/Policies.antt =====
-- What holds of every spend policy on every chain that the program can lead to, and who can change
-- one.
use maxim_contracts.Common.{List, ◌⊎◌, inl, inr, true, false, ℕ, ◌≡◌, some, sym, subst, ◌∙◌}
use maxim_contracts.Platform.{Runtime, Env}
use maxim_contracts.State.SpendPolicy.{SpendPolicy}
use maxim_contracts.Chain.{wallet, Chain, policy}
use maxim_contracts.Program.Dispatch.{call, outside, Reach, here, next}
use maxim_contracts.Errors.{ok}
use maxim_contracts.Events.{Event}
use maxim_contracts.Platform.{Seeds}
use maxim_contracts.Platform.Laws.{AddressLaws}
use maxim_contracts.State.AgentWallet.{AgentWallet}
use maxim_contracts.Program.Dispatch.{Instruction, execute}
use maxim_contracts.Ledger.Slot.{
  PolicySigned, FitsDomains, SameLimits, Slot, kept, config_made, config_rotated, config_capped,
  wallet_made, wallet_changed, wallet_closed, policy_made, policy_replaced, policy_counted,
  policy_closed, payment_made,
}
use maxim_contracts.Ledger.Execute.{execute-Slot}

SameLimits-FitsDomains : (p q : SpendPolicy) → SameLimits p q → FitsDomains p → FitsDomains q
SameLimits-FitsDomains p q e f =
    subst FitsDomains (sym e) (record { allowed = f.allowed; blocked = f.blocked })

Slot-FitsDomains :
    {rt : Runtime} {env : Env} {chain chain' : Chain} {k : ℕ} (q' : SpendPolicy)
    → Slot rt env chain chain' k
    → ((p : SpendPolicy) → chain.accounts k ≡ some (policy p) → FitsDomains p)
    → chain'.accounts k ≡ some (policy q')
    → FitsDomains q'
Slot-FitsDomains q' (kept e) before h = before q' (sym e ∙ h)
Slot-FitsDomains q' (config_made d v a b e) before h = cc
Slot-FitsDomains q' (config_rotated d a b s n e) before h = cc
Slot-FitsDomains q' (config_capped d a b s e) before h = cc
Slot-FitsDomains q' (wallet_made x i b n v s d e) before h = cc
Slot-FitsDomains q' (wallet_changed v v' b s e) before h = cc
Slot-FitsDomains q' (wallet_closed v b s i e) before h = cc
Slot-FitsDomains q' (policy_made p v f y e) before h =
    let same : p ≡ q' = cc in subst FitsDomains same f
Slot-FitsDomains q' (policy_replaced p q b f y e) before h =
    let same : q ≡ q' = cc in subst FitsDomains same f
Slot-FitsDomains q' (policy_counted p q b s y e) before h =
    let same : q ≡ q' = cc in subst FitsDomains same (SameLimits-FitsDomains p q s (before p b))
Slot-FitsDomains q' (policy_closed p b y e) before h = cc
Slot-FitsDomains q' (payment_made r v z e) before h = cc

-- On every chain that the program can lead to, no policy lists more than 32 allowed or more than 32
-- blocked domains.
pub policies_fit :
    {rt : Runtime} {chain : Chain} (k : ℕ) (p : SpendPolicy)
    → Reach rt chain
    → chain.accounts k ≡ some (policy p)
    → FitsDomains p
policies_fit k p (here fresh) h = cc (fresh.empty k)
policies_fit {rt} k p (next {chain = chain} reach (call env ix events e)) h =
    Slot-FitsDomains p (execute-Slot rt env chain ix e k) (λ q b. policies_fit k q reach b) h
policies_fit k p (next reach (outside tokens e)) h = policies_fit k p reach (rw e at h)

-- What the owner of another wallet signs does not reach a policy.
spend_policy-injective : (j k : ℕ) → Seeds.spend_policy j ≡ Seeds.spend_policy k → j ≡ k
spend_policy-injective j k e = cc

PolicySigned-signed :
    {rt : Runtime} {env : Env} {chain : Chain} {k : ℕ} (j b : ℕ) (w : AgentWallet)
    → AddressLaws rt
    → PolicySigned rt env chain k
    → rt.create_address (Seeds.spend_policy j) b ≡ some k
    → chain.accounts j ≡ some (wallet w)
    → env.is_signer w.owner ≡ true
PolicySigned-signed {rt} {env} {chain} {k} j b w laws y derived stored =
    let created : (b' : ℕ) × (rt.create_address (Seeds.spend_policy y.holder) b' ≡ some k) =
      elim y.derived [
        | inl found ↦ (y.bump, laws.canonical (Seeds.spend_policy y.holder) k y.bump found)
        | inr given ↦ (y.bump, given)
      ] in
    let (b', at) = created in
    let same : y.holder ≡ j =
      spend_policy-injective y.holder j (laws.collision_free _ _ b' b k at derived) in
    let one : y.holder_wallet ≡ w = cc (rw same at y.stored, stored) in rw one at y.signed

Slot-policy :
    {rt : Runtime} {env : Env} {chain chain' : Chain} {k : ℕ} (p' : SpendPolicy)
    → Slot rt env chain chain' k
    → chain.accounts k ≡ some (policy p')
    → (chain'.accounts k ≡ some (policy p')) ⊎ PolicySigned rt env chain k
Slot-policy p' (kept e) h = inl (e ∙ h)
Slot-policy p' (config_made d v a b e) h = cc
Slot-policy p' (config_rotated d a b s n e) h = cc
Slot-policy p' (config_capped d a b s e) h = cc
Slot-policy p' (wallet_made x i b n v s d e) h = cc
Slot-policy p' (wallet_changed v v' b s e) h = cc
Slot-policy p' (wallet_closed v b s i e) h = cc
Slot-policy p' (policy_made p v f y e) h = cc
Slot-policy p' (policy_replaced p q b f y e) h = inr y
Slot-policy p' (policy_counted p q b s y e) h = inr y
Slot-policy p' (policy_closed p b y e) h = inr y
Slot-policy p' (payment_made r v z e) h = cc

-- When derived addresses do not collide, an instruction that the owner of a wallet has not signed
-- leaves the policy at the address derived for that wallet as it is.
pub policy_authority :
    (rt : Runtime) (env : Env) (chain : Chain) (instruction : Instruction) {chain' : Chain}
    {events : List Event} (j k b : ℕ) (w : AgentWallet) (p : SpendPolicy)
    → AddressLaws rt
    → execute rt env chain instruction ≡ ok (chain', events)
    → chain.accounts j ≡ some (wallet w)
    → chain.accounts k ≡ some (policy p)
    → rt.create_address (Seeds.spend_policy j) b ≡ some k
    → env.is_signer w.owner ≡ false
    → chain'.accounts k ≡ some (policy p)
policy_authority rt env chain instruction j k b w p laws run stored ruled derived unsigned =
    elim (Slot-policy p (execute-Slot rt env chain instruction run k) ruled) [
      | inl same ↦ same
      | inr y ↦ let signed = PolicySigned-signed j b w laws y derived stored in cc
    ]
