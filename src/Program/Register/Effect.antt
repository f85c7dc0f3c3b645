-- ===== src/Program/Register/Effect.antt =====
-- `register_agent` as a whole: what it checked, and the chain that it leaves.
use maxim_contracts.Common.{
  some, ℕ, ◌≡◌, ◌≤◌, ◌<◌, true, false, List, [], ◌∷◌, none, inl, inr, arith, all, length, is_empty,
}
use maxim_contracts.Common.Int.{ℤ}
use maxim_contracts.Errors.{ok, Exec-cases}
use maxim_contracts.Events.{Event}
use maxim_contracts.Platform.{Seeds, Tokens, Runtime, Env}
use maxim_contracts.State.AgentWallet.{len, max_agent_id_len}
use maxim_contracts.Chain.{Chain, wallet, set_account, check_mint, check_signer, init}
use maxim_contracts.Program.Register.{RegisterAgent, register_agent, new_wallet, is_id_byte}

-- One to 64 bytes, each an ASCII letter or digit, a hyphen or an underscore.
pub record IsAgentId (id : List ℕ) : Type 0 where
  pub nonempty : 0 < length id
  pub fits : length id ≤ max_agent_id_len
  pub alphabet : all is_id_byte id ≡ true

pub record Registered (rt : Runtime) (env : Env) (chain : Chain) (ctx : RegisterAgent) (id : List ℕ)
    (bump : ℕ) (now : ℤ) (tokens : Tokens) : Type 0 where
  pub vacant : chain.accounts ctx.agent_wallet ≡ none
  pub derived : rt.find_address (Seeds.agent_wallet id) ≡ some (ctx.agent_wallet, bump)
  pub associated : rt.associated_address ctx.agent_wallet ctx.usdc_mint ≡ ctx.usdc_token_account
  pub token_account_made :
      rt.create_associated chain.tokens ctx.owner ctx.agent_wallet ctx.usdc_mint ≡ ok tokens
  pub signed : env.is_signer ctx.owner ≡ true
  pub valid_id : IsAgentId id
  pub clock : env.clock ≡ ok now

nonempty_of_test : (id : List ℕ) → is_empty id ≡ false → 0 < length id
nonempty_of_test [] h = cc
nonempty_of_test (b ∷ id) h = omega arith

module _ (rt : Runtime) (env : Env) (chain : Chain) (ctx : RegisterAgent) (id : List ℕ)
    {chain' : Chain} {events : List Event}
    (done : register_agent rt env chain ctx id ≡ ok (chain', events)) where
  bump_found :
      (b : ℕ) × (init rt chain ctx.owner ctx.agent_wallet (Seeds.agent_wallet id) len ≡ ok b)
  unfolding register_agent
  bump_found =
      elim (Exec-cases (init rt chain ctx.owner ctx.agent_wallet (Seeds.agent_wallet id) len)) [
        | inl (e, failed) ↦ absurd (ground arith)
        | inr r ↦ r
      ]

  tokens_found :
      (t : Tokens) × (rt.create_associated chain.tokens ctx.owner ctx.agent_wallet ctx.usdc_mint
        ≡ ok t)
  unfolding register_agent
  tokens_found =
      elim (Exec-cases
        (rt.create_associated chain.tokens ctx.owner ctx.agent_wallet ctx.usdc_mint)) [
          | inl (e, failed) ↦ absurd (ground arith)
          | inr r ↦ r
        ]

  clock_found : (now : ℤ) × (env.clock ≡ ok now)
  unfolding register_agent
  clock_found = elim (Exec-cases env.clock) [ inl (e, failed) ↦ absurd (ground arith) | inr r ↦ r ]

  id_tests : (is_empty id ≡ false) × (length id ≤ max_agent_id_len) × (all is_id_byte id ≡ true)
  unfolding register_agent
  id_tests = ground arith

  pub register_agent_lem :
      (bump : ℕ) × (now : ℤ) × (tokens : Tokens) × Registered rt env chain ctx id bump now tokens
      × (chain'
          ≡ set_account ctx.agent_wallet
              (wallet (new_wallet ctx id bump now))
              (record chain { tokens = tokens }))
      × (events ≡ [])
  unfolding register_agent check_mint check_signer init
  register_agent_lem =
      let (bump, made) = bump_found in
      let (tokens, created) = tokens_found in
      let (now, read) = clock_found in
      let (nonempty, fits, alphabet) = id_tests in
      (
        bump,
        now,
        tokens,
        record {
          vacant = ground arith;
          derived = ground arith;
          associated = ground arith;
          token_account_made = created;
          signed = ground arith;
          valid_id = record {
            nonempty = nonempty_of_test id nonempty;
            fits = fits;
            alphabet = alphabet;
          };
          clock = read;
        },
        ground arith,
        ground arith,
      )
