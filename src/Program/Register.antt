-- ===== src/Program/Register.antt =====
-- `register_agent` of programs/maxim_protocol/src/lib.rs and its account context.
pub mod Effect
pub mod Contract
use maxim_contracts.Common.{
  ℕ, Bool, true, false, not, ◌&&◌, ◌||◌, List, [], ◌==◌, leb, length, is_empty, all,
}
use maxim_contracts.Common.Int.{ℤ, pos}
use maxim_contracts.Errors.{
  ok, ◌>>=◌, ◌>>◌, ensure, require, agent_id_too_long, invalid_agent_id, account, constraint_seeds,
}
use maxim_contracts.Platform.{Seeds, Runtime, Env}
use maxim_contracts.State.AgentWallet.{AgentWallet, max_agent_id_len, len}
use maxim_contracts.Chain.{Chain, Outcome, wallet, set_account, check_mint, check_signer, init}

pub record RegisterAgent : Type 0 where
  pub agent_wallet : ℕ
  pub usdc_token_account : ℕ
  pub usdc_mint : ℕ
  pub owner : ℕ

-- `u8::is_ascii_alphanumeric`
abbrev pub is_ascii_alphanumeric : ℕ → Bool
is_ascii_alphanumeric b =
    (leb b'0' b && leb b b'9') || (leb b'A' b && leb b b'Z') || (leb b'a' b && leb b b'z')

-- The bytes that an agent id may have.
abbrev pub is_id_byte : ℕ → Bool
is_id_byte b = is_ascii_alphanumeric b || b == b'-' || b == b'_'

-- The wallet that the body writes.
unfoldable pub new_wallet : RegisterAgent → List ℕ → ℕ → ℤ → AgentWallet
new_wallet ctx agent_id bump now = record {
  agent_id = agent_id;
  owner = ctx.owner;
  usdc_token_account = ctx.usdc_token_account;
  daily_spend = 0;
  daily_window_start = now;
  weekly_spend = 0;
  weekly_window_start = now;
  monthly_spend = 0;
  monthly_window_start = now;
  payment_sequence = 0;
  total_payments = 0;
  total_volume = 0;
  last_payment_at = pos 0;
  is_active = true;
  is_frozen = false;
  bump = bump;
}

-- The associated token account is made, by its own program, after the wallet and before the body.
unfoldable pub register_agent : Runtime → Env → Chain → RegisterAgent → List ℕ → Outcome
unfolding new_wallet
register_agent rt env chain ctx agent_id = do
  check_mint chain ctx.usdc_mint
  check_signer env ctx.owner
  bump ← init rt chain ctx.owner ctx.agent_wallet (Seeds.agent_wallet agent_id) len
  ensure (rt.associated_address ctx.agent_wallet ctx.usdc_mint == ctx.usdc_token_account)
      (account constraint_seeds)
  tokens ← rt.create_associated chain.tokens ctx.owner ctx.agent_wallet ctx.usdc_mint
  require (not (is_empty agent_id) && leb (length agent_id) max_agent_id_len) agent_id_too_long
  require (all is_id_byte agent_id) invalid_agent_id
  now ← env.clock
  let w = new_wallet ctx agent_id bump now
  ok (set_account ctx.agent_wallet (wallet w) (record chain { tokens = tokens }), [])
