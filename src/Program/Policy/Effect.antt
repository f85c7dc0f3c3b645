-- ===== src/Program/Policy/Effect.antt =====
-- `set_spend_policy` as a whole: what it checked, and the chain that it leaves.
use maxim_contracts.Common.{
  [], ◌∷◌, ℕ, ◌≡◌, ◌≤◌, ◌⊎◌, refl, true, List, some, none, inl, inr, arith, length, Option,
}
use maxim_contracts.Common.Int.{ℤ}
use maxim_contracts.Errors.{ok, Exec-cases}
use maxim_contracts.Events.{spend_policy_updated, Event}
use maxim_contracts.Platform.{Seeds, Runtime, Env}
use maxim_contracts.State.AgentWallet.{AgentWallet}
use maxim_contracts.State.SpendPolicy.{SpendPolicy, max_domain_entries, len}
use maxim_contracts.Chain.{
  Chain, Account, wallet, policy, set_account, load_wallet, check_signer, has_one,
  init_policy_if_needed, allocate_or_check,
}
use maxim_contracts.Program.Params.{SetSpendPolicyParams}
use maxim_contracts.Program.Policy.{SetSpendPolicy, set_spend_policy, new_policy, updated}

pub record PolicySet (rt : Runtime) (env : Env) (chain : Chain) (ctx : SetSpendPolicy)
    (params : SetSpendPolicyParams) (w : AgentWallet) (bump : ℕ) (now : ℤ) : Type 0 where
  pub wallet_stored : chain.accounts ctx.agent_wallet ≡ some (wallet w)
  pub signed : env.is_signer ctx.owner ≡ true
  pub authorised : w.owner ≡ ctx.owner
  pub derived :
      rt.find_address (Seeds.spend_policy ctx.agent_wallet) ≡ some (ctx.spend_policy, bump)
  pub replaced :
      (chain.accounts ctx.spend_policy ≡ none)
      ⊎ ((p : SpendPolicy) × (chain.accounts ctx.spend_policy ≡ some (policy p)))
  pub allowed_fits : length params.allowed_domain_hashes ≤ max_domain_entries
  pub blocked_fits : length params.blocked_domain_hashes ≤ max_domain_entries
  pub clock : env.clock ≡ ok now

allocate_or_check_lem :
    (rt : Runtime) (payer k space : ℕ) (o : Option Account)
    → allocate_or_check rt payer k space o ≡ ok tt
    → (o ≡ none) ⊎ ((p : SpendPolicy) × (o ≡ some (policy p)))
allocate_or_check_lem rt payer k space none h = inl refl
allocate_or_check_lem rt payer k space (some (Account.config c)) h = cc
allocate_or_check_lem rt payer k space (some (Account.wallet w)) h = cc
allocate_or_check_lem rt payer k space (some (Account.policy p)) h = inr (p, refl)
allocate_or_check_lem rt payer k space (some (Account.payment r)) h = cc

module _ (rt : Runtime) (env : Env) (chain : Chain) (ctx : SetSpendPolicy)
    (params : SetSpendPolicyParams) {chain' : Chain} {events : List Event}
    (done : set_spend_policy rt env chain ctx params ≡ ok (chain', events)) where
  wallet_found : (w : AgentWallet) × (load_wallet chain ctx.agent_wallet ≡ ok w)
  unfolding set_spend_policy
  wallet_found = elim (Exec-cases (load_wallet chain ctx.agent_wallet)) [
    | inl (e, failed) ↦ absurd (ground arith)
    | inr r ↦ r
  ]

  bump_found :
      (b : ℕ) × (init_policy_if_needed rt chain ctx.owner ctx.spend_policy
          (Seeds.spend_policy ctx.agent_wallet)
          len
        ≡ ok b)
  unfolding set_spend_policy
  bump_found =
      elim (Exec-cases (
        init_policy_if_needed rt chain ctx.owner ctx.spend_policy
          (Seeds.spend_policy ctx.agent_wallet) len)) [
            | inl (e, failed) ↦ absurd (ground arith)
            | inr r ↦ r
          ]

  clock_found : (now : ℤ) × (env.clock ≡ ok now)
  unfolding set_spend_policy
  clock_found = elim (Exec-cases env.clock) [ inl (e, failed) ↦ absurd (ground arith) | inr r ↦ r ]

  slot_checked :
      (b : ℕ)
      → init_policy_if_needed rt chain ctx.owner ctx.spend_policy
          (Seeds.spend_policy ctx.agent_wallet)
          len
        ≡ ok b
      → allocate_or_check rt ctx.owner ctx.spend_policy len (chain.accounts ctx.spend_policy)
        ≡ ok tt
  unfolding init_policy_if_needed
  slot_checked b made = ground arith

  pub set_spend_policy_lem :
      (w : AgentWallet) × (bump : ℕ) × (now : ℤ) × PolicySet rt env chain ctx params w bump now
      × (chain' ≡ set_account ctx.spend_policy (policy (new_policy ctx params bump now)) chain)
      × (events ≡ spend_policy_updated (updated ctx params now) ∷ [])
  unfolding set_spend_policy load_wallet check_signer has_one init_policy_if_needed
  set_spend_policy_lem =
      let (w, found) = wallet_found in
      let (bump, made) = bump_found in
      let (now, read) = clock_found in
      (
        w,
        bump,
        now,
        record {
          wallet_stored = ground arith;
          signed = ground arith;
          authorised = ground arith;
          derived = ground arith;
          replaced =
              allocate_or_check_lem rt ctx.owner ctx.spend_policy len
                (chain.accounts ctx.spend_policy) (slot_checked bump made);
          allowed_fits = ground arith;
          blocked_fits = ground arith;
          clock = read;
        },
        ground arith,
        ground arith,
      )
