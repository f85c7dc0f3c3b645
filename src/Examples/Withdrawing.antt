-- ===== src/Examples/Withdrawing.antt =====
-- The theorems about withdrawals, at the states of the scenario.
use maxim_contracts.Common.{◌≡◌, refl, arith, true, false, List, some}
use maxim_contracts.Common.Int.{pos}
use maxim_contracts.Errors.{ok}
use maxim_contracts.Events.{Event}
use maxim_contracts.Platform.{Tokens}
use maxim_contracts.Chain.{Chain, Outcome}
use maxim_contracts.Program.Withdraw
use maxim_contracts.Program.Withdraw.Effect.{
  WithdrawOutcome, withdraw_funds_outcome, withdraw_funds_any_status,
  withdraw_all-eq-withdraw_funds, restatused,
}
use maxim_contracts.Program.Withdraw.Complete.{Presented, withdraw_all_succeeds}
use maxim_contracts.Examples.Local.{local, local-TransferLaws}
use maxim_contracts.Examples.Scenario.{
  program, owner, usdc, agent, wallet_key, agent_usdc, owner_usdc, at, after, funded,
}
use maxim_contracts.Examples.Settling.{funded_wallet, wallet_funded}
use maxim_contracts.Examples.Managing.{events_of}

abbrev withdraw_ctx : Withdraw.WithdrawFunds
withdraw_ctx = record {
  agent_wallet = wallet_key;
  usdc_token_account = agent_usdc;
  owner_token_account = owner_usdc;
  usdc_mint = usdc;
  owner = owner;
}

abbrev withdrawal : Outcome
withdrawal = Withdraw.withdraw_funds local (at 3_000) funded withdraw_ctx 60

withdrawal_done : withdrawal ≡ ok (after funded withdrawal, events_of withdrawal)
unfolding program funded
withdrawal_done = refl

withdraw_funds_outcome_example :
    WithdrawOutcome local (at 3_000) funded withdraw_ctx 60 (after funded withdrawal)
withdraw_funds_outcome_example =
    withdraw_funds_outcome local (at 3_000) funded withdraw_ctx 60 local-TransferLaws
      withdrawal_done

abbrev stopped : Chain
stopped = restatused local (at 3_000) funded withdraw_ctx funded_wallet wallet_funded false true

withdraw_funds_any_status_example :
    Withdraw.withdraw_funds local (at 3_000) stopped withdraw_ctx 60
    ≡ ok (record stopped { tokens = (after funded withdrawal).tokens }, events_of withdrawal)
withdraw_funds_any_status_example =
    withdraw_funds_any_status local (at 3_000) funded withdraw_ctx funded_wallet wallet_funded false
      true 60 withdrawal_done

source_funded :
    funded.tokens.accounts agent_usdc
    ≡ some (record { mint = usdc; owner = wallet_key; amount = 100 })
unfolding funded
source_funded = refl

withdraw_all-eq-withdraw_funds_example :
    Withdraw.withdraw_all local (at 3_000) funded withdraw_ctx
    ≡ Withdraw.withdraw_funds local (at 3_000) funded withdraw_ctx 100
withdraw_all-eq-withdraw_funds_example =
    withdraw_all-eq-withdraw_funds local (at 3_000) funded withdraw_ctx
      (record { mint = usdc; owner = wallet_key; amount = 100 }) source_funded

presented :
    Presented local
      (at 3_000)
      funded
      withdraw_ctx
      funded_wallet
      (record { mint = usdc; owner = wallet_key; amount = 100 })
unfolding program funded
presented = record {
  target = record { mint = usdc; owner = owner; amount = 0 };
  stored = wallet_funded;
  source_stored = refl;
  target_stored = refl;
  real_mint = refl;
  signed = refl;
  authorised = refl;
  source_held = refl;
  target_held = refl;
  source_associated = refl;
  target_associated = refl;
}

unfoldable emptied : Tokens
unfolding program funded
emptied = (after funded (Withdraw.withdraw_all local (at 3_000) funded withdraw_ctx)).tokens

emptied_sent :
    Withdraw.cpi_transfer_from_wallet local funded.tokens agent_usdc owner_usdc wallet_key agent 255
      100
    ≡ ok emptied
unfolding emptied Withdraw.cpi_transfer_from_wallet
emptied_sent = refl

withdraw_all_succeeds_example :
    (events : List Event) × (Withdraw.withdraw_all local (at 3_000) funded withdraw_ctx
      ≡ ok (record funded { tokens = emptied }, events))
withdraw_all_succeeds_example =
    withdraw_all_succeeds local (at 3_000) funded withdraw_ctx funded_wallet
      (record { mint = usdc; owner = wallet_key; amount = 100 }) (pos 3_000) emptied presented
      (omega arith) refl emptied_sent
